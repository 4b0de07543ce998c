-- ===== src/Switcher/Loop.antt =====
-- `loop` of src/switcher/switcher.cpp.
pub mod Safety
pub mod Rest
pub mod Heaters
pub mod Commands
pub mod Steps
pub mod PowerUp
pub mod PowerDown
use astro_photo_power_box.Prelude.{ℕ, true, false}
use astro_photo_power_box.Float.{Float}
use astro_photo_power_box.Sensors.Types.{PowerReader}
use astro_photo_power_box.Telegram.Types.{TelegramCommand, power_consumers_on, power_consumers_off}
use astro_photo_power_box.Switcher.Types.{Switcher}
use astro_photo_power_box.Switcher.KeyLock.{button_loop}
use astro_photo_power_box.Switcher.Consumers.{consumer_power_loop}
use astro_photo_power_box.Switcher.Charging.{charge_switch_loop}

module _ {F : Type 0} where
  -- The `switch` on the command; the commands for the heaters are not handled.
  unfoldable pub handle_command : TelegramCommand → Switcher F → Switcher F
  handle_command power_consumers_off s = record s { consumer_power_request = false }
  handle_command power_consumers_on s = record s { consumer_power_request = true }
  handle_command _ s = s

-- The clock readings of one call: that of `_buttonLoop`, and the two of `_consumerPowerLoop`.
pub record Times : Type 0 where
  pub button_time : ℕ
  pub power_time : ℕ
  pub change_time : ℕ

module _ {F P : Type 0} ⦃f : Float F⦄ where
  -- `command` is what `telegramBot.getAndClearCommand` hands out, `soc` is `battery.getSoC()`.
  unfoldable pub loop :
      PowerReader F P → Times → TelegramCommand → F → P → Switcher F → P × Switcher F
  unfolding button_loop handle_command consumer_power_loop charge_switch_loop
  loop sensors t command soc p s =
      let s = handle_command command (button_loop t.button_time s) in
      let (p, s) =
        consumer_power_loop sensors s.consumer_power_request t.power_time t.change_time p s in
      charge_switch_loop sensors soc p s
