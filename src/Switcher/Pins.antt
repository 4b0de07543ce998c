-- ===== src/Switcher/Pins.antt =====
-- The pins: `setup`, the setters and the getters of src/switcher/switcher.cpp.
pub mod Heater
pub mod Levels
use astro_photo_power_box.Prelude.{
  ℕ, Bool, not, ◌∷◌, ℤ, pos, pos_part, neg_part, ◌==◌, ◌&&◌, if◌then◌else◌,
}
use astro_photo_power_box.Float.{Float, nought, whole}
use astro_photo_power_box.Board.{
  Request, Log, pin_mode, digital_write, analog_write, analog_write_resolution, analog_write_freq,
  attach_interrupt, output, input,
}
use astro_photo_power_box.Switcher.Types.{
  Switcher, pin_mount, pin_consumers, pin_charger, pin_camera, pin_heater1, pin_heater2, pin_btnled,
  pin_button,
}

-- `==` of two `int`s
abbrev pub eq_int : ℤ → ℤ → Bool
eq_int a b = pos_part a == pos_part b && neg_part a == neg_part b

module _ {F : Type 0} where
  abbrev pub ask : Request → Switcher F → Switcher F
  ask request s = record s { log = request ∷ s.log }

  -- `setup` of a build without DEBUG_PRINT.
  unfoldable pub setup : Switcher F → Switcher F
  setup s =
      let s = ask (pin_mode pin_consumers output) s in
      let s = ask (pin_mode pin_mount output) s in
      let s = ask (pin_mode pin_charger output) s in
      let s = ask (pin_mode pin_camera output) s in
      let s = ask (analog_write_resolution 10) s in
      let s = ask (analog_write_freq 150) s in
      let s = ask (pin_mode pin_heater1 output) s in
      let s = ask (pin_mode pin_heater2 output) s in
      let s = ask (pin_mode pin_btnled output) s in
      let s = ask (pin_mode pin_button input) s in ask (attach_interrupt pin_button) s

  unfoldable pub set_consumers : Bool → Switcher F → Switcher F
  set_consumers on = ask (digital_write pin_consumers on)

  unfoldable pub set_mount : Bool → Switcher F → Switcher F
  set_mount on = ask (digital_write pin_mount (not on))

  unfoldable pub set_camera : Bool → Switcher F → Switcher F
  set_camera on = ask (digital_write pin_camera on)

  unfoldable pub set_charger : Bool → Switcher F → Switcher F
  set_charger on = ask (digital_write pin_charger (not on))

  -- `_setLedPwm` of a build without DEBUG_PRINT.
  unfoldable pub set_led_pwm : ℕ → Switcher F → Switcher F
  set_led_pwm pwm_val s =
      if pwm_val == s.led_pwm
      then s
      else ask (analog_write pin_btnled (pos pwm_val)) (record s { led_pwm = pwm_val })

  module _ (digital_read : Log → ℕ → Bool) where
    unfoldable pub get_consumers : Switcher F → Bool
    get_consumers s = digital_read s.log pin_consumers

    unfoldable pub get_mount : Switcher F → Bool
    get_mount s = not (digital_read s.log pin_mount)

    unfoldable pub get_camera : Switcher F → Bool
    get_camera s = digital_read s.log pin_camera

    unfoldable pub get_charger : Switcher F → Bool
    get_charger s = not (digital_read s.log pin_charger)

module _ {F : Type 0} ⦃f : Float F⦄ where
  -- 15 W is the maximum, 1023 the full 10 bit range.
  unfoldable pub heater_pwm : F → ℤ
  heater_pwm power_limit =
      let factor = f.div power_limit (whole 15) in
      f.to_int (f.mul (f.fmaxf nought (f.fminf (whole 1) factor)) (whole 1023))

  unfoldable pub set_heater : ℕ → F → Switcher F → Switcher F
  unfolding heater_pwm
  set_heater heater_nr power_limit s =
      let pwm = heater_pwm power_limit in
      if heater_nr == 0
      then (if eq_int pwm s.heater1_pwm
          then s
          else ask (analog_write pin_heater1 pwm) (record s { heater1_pwm = pwm }))
      else (if eq_int pwm s.heater2_pwm
          then s
          else ask (analog_write pin_heater2 pwm) (record s { heater2_pwm = pwm }))

  -- The heater setting in percent.
  unfoldable pub get_heater : ℕ → Switcher F → F
  get_heater heater_nr s =
      f.div (f.of_int (if heater_nr == 0 then s.heater1_pwm else s.heater2_pwm))
        (f.lit (pos 1023) 2)
