-- ===== src/Telegram/Keyboards.antt =====
-- The keyboards' buttons and the callbacks that `begin` of telegram_bot.cpp registers for them.
use astro_photo_power_box.Prelude.{ℕ, Bool}
use astro_photo_power_box.Board.{Log}
use astro_photo_power_box.RingBuffer.Inv.{IsValid}
use astro_photo_power_box.Oled.{Display}
use astro_photo_power_box.Switcher.Types.{Switcher}
use astro_photo_power_box.Telegram.Bot.{
  Bot, Message, abort_keyboard, ping_requested, subrelay_not_implemented, subrelay_consumers, reply,
}
use astro_photo_power_box.Telegram.Commands.{subrelay_consumers_lem}

pub data Button : Type 0 where
  ping_request relay_consumers relay_charger relay_mount abort_button : Button

module _ {F : Type 0} where
  -- The base class calls this callback where a query is that of a button.
  unfoldable pub press :
      (Log → ℕ → Bool) → Button → ℕ → Message → Switcher F → Bot → Display F → Bot × Display F
  unfolding abort_keyboard ping_requested subrelay_not_implemented subrelay_consumers
  press digital_read ping_request time msg s b d = ping_requested time msg b d
  press digital_read relay_consumers time msg s b d = (subrelay_consumers digital_read msg s b, d)
  press digital_read relay_charger time msg s b d = (subrelay_not_implemented msg b, d)
  press digital_read relay_mount time msg s b d = (subrelay_not_implemented msg b, d)
  press digital_read abort_button time msg s b d = (abort_keyboard msg b, d)

  pub press-IsValid :
      (digital_read : Log → ℕ → Bool) (button : Button) (time : ℕ) (msg : Message) (s : Switcher F)
      (b : Bot) (d : Display F)
      → IsValid b.pending_commands
      → IsValid (press digital_read button time msg s b d).0.pending_commands
  unfolding press reply
  press-IsValid digital_read ping_request time msg s b d v = v
  press-IsValid digital_read relay_consumers time msg s b d v =
      (subrelay_consumers_lem digital_read msg s b v).1
  press-IsValid digital_read relay_charger time msg s b d v = v
  press-IsValid digital_read relay_mount time msg s b d v = v
  press-IsValid digital_read abort_button time msg s b d v = v
