-- ===== src/Firmware/Requests.antt =====
-- A command from the chat reaches the switcher.
use astro_photo_power_box.Prelude.{ℕ, Bool, ◌≡◌, true, false, ◌∙◌}
use astro_photo_power_box.Gfx.{Gfx}
use astro_photo_power_box.Float.{Float}
use astro_photo_power_box.Board.{Log}
use astro_photo_power_box.RingBuffer.Inv.{IsValid}
use astro_photo_power_box.RingBuffer.Queue as Queue
use astro_photo_power_box.Telegram.Types.{no_command, power_consumers_on, power_consumers_off}
use astro_photo_power_box.Telegram.Bot.{get_and_clear_command}
use astro_photo_power_box.Telegram.Commands.{pending}
use astro_photo_power_box.Switcher.Loop.Commands.{loop-request}
use astro_photo_power_box.NonVolatile.{FileSystem}
use astro_photo_power_box.Sensors.Types.{Psensors}
use astro_photo_power_box.Firmware.{Firmware, Input, started_bot, offline}
use astro_photo_power_box.Firmware.Starting.{started_bot-command}

module _ {F P D : Type 0} ⦃f : Float F⦄ ⦃g : Gfx F⦄ (sensors : Psensors F P)
    (sensors_loop : ℕ → P → P) (fs : FileSystem F D) (digital_read : Log → ℕ → Bool)
    (networks : ℕ) where
  -- Each call of the components' loops takes the oldest command from the bot's queue, if there is one,
  -- and leaves the others in their order. If it is to switch the consumers on, the switcher has the
  -- power requested behind the call, and not requested if it is to switch them off.
  pub offline-request :
      (i : Input) (w : Firmware F P D)
      → IsValid w.bot.pending_commands
      → let (_, oldest, rest) = Queue.pop no_command (pending w.bot) in
        let w' = offline sensors sensors_loop fs digital_read networks i w in
        (pending w'.bot ≡ rest)
        × (oldest ≡ power_consumers_on → w'.switcher.consumer_power_request ≡ true)
        × (oldest ≡ power_consumers_off → w'.switcher.consumer_power_request ≡ false)
  unfolding offline
  offline-request i w v =
      let (cmd, bot) = get_and_clear_command (started_bot i w.connection w.bot) in
      let (first, rest, _) = started_bot-command i w.connection w.bot v in
      let (on, off, _) =
        loop-request sensors.reader i.switcher_times cmd w.battery.soc w.sensors w.switcher in
      (rest, λ e. on (first ∙ e), λ e. off (first ∙ e))
