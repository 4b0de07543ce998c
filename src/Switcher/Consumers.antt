-- ===== src/Switcher/Consumers.antt =====
-- The power sequence of the consumers: `_consumerPowerLoop` of src/switcher/switcher.cpp.
pub mod Transitions
pub mod Outputs
pub mod Liveness
use astro_photo_power_box.Prelude.{
  ℕ, Bool, true, false, not, ◌&&◌, ◌||◌, pos, negsuc, leb, ltb, ◌==◌, if◌then◌else◌, sub32,
}
use astro_photo_power_box.Float.{Float, nought}
use astro_photo_power_box.Sensors.Types.{PowerReader, psens_ch4_pc, psens_ch5_mount}
use astro_photo_power_box.Switcher.Types.{
  ConsumersState, consumers_off_idle, consumers_off_prepare_activation, consumers_on_subs_off,
  consumers_on_subs_activation, consumers_on_idle, consumers_on_prepare_power_down,
  consumers_on_wait4pc_shutdown, state_number, Switcher,
}
use astro_photo_power_box.Switcher.Pins.{set_consumers, set_mount, set_camera, set_heater}

module _ {F : Type 0} ⦃f : Float F⦄ where
  -- BAT_MIN_TURN_ON_VOLTAGE (config.hpp)
  abbrev pub bat_min_turn_on_voltage : F
  bat_min_turn_on_voltage = f.lit (negsuc 0) 0

  abbrev pub go_to : ConsumersState → Switcher F → Switcher F
  go_to c s = record s { consumers_state = c }

module _ {F P : Type 0} ⦃f : Float F⦄ where
  -- The `switch` on `_consumersState`; `elapsed` is `timeSinceStateChange`.
  unfoldable pub consumer_power_switch :
      ConsumersState → PowerReader F P → Bool → ℕ → P → Switcher F → P × Switcher F
  unfolding set_consumers set_mount set_camera
  consumer_power_switch consumers_off_idle sensors requested elapsed p s = (
    p,
    if requested
        then go_to consumers_off_prepare_activation s
        else set_heater 1 nought
            (set_heater 0 nought (set_camera false (set_mount true (set_consumers false s)))),
  )
  consumer_power_switch consumers_off_prepare_activation sensors requested elapsed p s =
      let s = set_heater 1 nought (set_heater 0 nought (set_camera false (set_mount false s))) in
      (p, if ltb 200 elapsed then go_to consumers_on_subs_off s else s)
  consumer_power_switch consumers_on_subs_off sensors requested elapsed p s =
      let s = set_consumers true s in
      let (voltage, p) = sensors.get_voltage psens_ch5_mount p in
      (
        p,
        if ltb 100 elapsed && f.le bat_min_turn_on_voltage voltage
            then go_to consumers_on_subs_activation s
            else if ltb 3000 elapsed
            then go_to consumers_off_idle s
            else s,
      )
  consumer_power_switch consumers_on_subs_activation sensors requested elapsed p s =
      let s = set_camera true s in
      let s = if leb 500 elapsed then set_mount true s else s in
      (p, if leb 1000 elapsed then go_to consumers_on_idle s else s)
  consumer_power_switch consumers_on_idle sensors requested elapsed p s =
      (p, if not requested then go_to consumers_on_prepare_power_down s else s)
  consumer_power_switch consumers_on_prepare_power_down sensors requested elapsed p s =
      let s = set_mount false s in
      (p, if ltb 200 elapsed then go_to consumers_on_wait4pc_shutdown s else s)
  -- The current is read only where the power is not requested again.
  consumer_power_switch consumers_on_wait4pc_shutdown sensors requested elapsed p s =
      let (current, p') = sensors.get_current psens_ch4_pc p in
      if requested then (p, go_to consumers_on_subs_activation s) else (
        p',
        if f.lt_double current (pos 2) 1 || ltb 3600000 elapsed
            then go_to consumers_off_idle s
            else s,
      )

  -- `now` and `later` are what the two calls of `millis` return.
  unfoldable pub consumer_power_loop :
      PowerReader F P → Bool → ℕ → ℕ → P → Switcher F → P × Switcher F
  unfolding consumer_power_switch state_number
  consumer_power_loop sensors requested now later p s =
      let elapsed = sub32 now s.last_state_change in
      let (p', s') = consumer_power_switch s.consumers_state sensors requested elapsed p s in
      (
        p',
        if state_number s'.consumers_state == state_number s.consumers_state
            then s'
            else record s' { last_state_change = later },
      )
