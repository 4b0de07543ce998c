-- ===== src/Firmware/Sequence.antt =====
-- The calls of `loop` of src/main.cpp that take the box through the power sequence.
use astro_photo_power_box.Prelude.{ℕ, ◌≡◌, Bool, [], ◌∙◌, ap}
use astro_photo_power_box.Gfx.{Gfx}
use astro_photo_power_box.Float.{Float}
use astro_photo_power_box.Board.{Log}
use astro_photo_power_box.RingBuffer.Inv.{IsValid}
use astro_photo_power_box.RingBuffer.Queue as Queue
use astro_photo_power_box.Telegram.Types.{TelegramCommand, no_command}
use astro_photo_power_box.Telegram.Commands.{pending}
use astro_photo_power_box.Switcher.Types.{ConsumersState}
use astro_photo_power_box.Switcher.Loop.{loop as switcher_loop}
use astro_photo_power_box.Switcher.Loop.Steps.{IsAt}
use astro_photo_power_box.Firmware.Starting.{started_bot-command}
use astro_photo_power_box.NonVolatile.{FileSystem}
use astro_photo_power_box.Sensors.Types.{Psensors}
use astro_photo_power_box.Firmware.{Firmware, Input, offline}

module _ {F P D : Type 0} where
  -- The power sequence is at this state since this time, and no command waits.
  pub record IsUnderWay (request : Bool) (c : ConsumersState) (since : ℕ) (w : Firmware F P D)
      : Type 0 where
    pub at : IsAt request c since w.switcher
    pub valid : IsValid w.bot.pending_commands
    pub empty : pending w.bot ≡ []

module _ {F P D : Type 0} ⦃f : Float F⦄ ⦃g : Gfx F⦄ (sensors : Psensors F P)
    (sensors_loop : ℕ → P → P) (fs : FileSystem F D) (digital_read : Log → ℕ → Bool)
    (networks : ℕ) where
  -- A call that takes this command from the queue is one of the switcher with it.
  pub step-IsUnderWay :
      (request : Bool) (d : ConsumersState) (command : TelegramCommand) (i : Input)
      (w : Firmware F P D)
      → IsValid w.bot.pending_commands
      → (Queue.pop no_command (pending w.bot)).1 ≡ command
      → (Queue.pop no_command (pending w.bot)).2 ≡ []
      → IsAt request d i.switcher_times.change_time
          (switcher_loop sensors.reader i.switcher_times command w.battery.soc w.sensors
            w.switcher).1
      → IsUnderWay request d i.switcher_times.change_time
          (offline sensors sensors_loop fs digital_read networks i w)
  unfolding offline
  step-IsUnderWay request d cmd i w v e e2 a =
      let (first, rest, v') = started_bot-command i w.connection w.bot v in
      record { at = rw (first ∙ e) a; valid = v'; empty = rest ∙ e2 }

  pub next-IsUnderWay :
      (request : Bool) (c d : ConsumersState) (since : ℕ) (i : Input) (w : Firmware F P D)
      → IsUnderWay request c since w
      → (IsAt request c since w.switcher
          → IsAt request d i.switcher_times.change_time
              (switcher_loop sensors.reader i.switcher_times no_command w.battery.soc w.sensors
                w.switcher).1)
      → IsUnderWay request d i.switcher_times.change_time
          (offline sensors sensors_loop fs digital_read networks i w)
  unfolding Queue.pop
  next-IsUnderWay request c d since i w u move =
      step-IsUnderWay request d no_command i w u.valid
        (ap (λ l. (Queue.pop no_command l).1) u.empty)
        (ap (λ l. (Queue.pop no_command l).2) u.empty) (move u.at)
