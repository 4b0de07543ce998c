-- ===== src/Switcher/Tests.antt =====
-- Runs of the switcher, and its theorems at them. Floats are thousandths, and the sensors give fixed
-- values.
use astro_photo_power_box.Prelude.{
  ℕ, ◌+◌, ◌≤◌, ◌≡◌, ◌⊎◌, ◌∷◌, refl, Bool, true, false, List, [], pos, ◌≤ℤ◌, arith, inl, sub32,
}
use astro_photo_power_box.Float.Milli.{Milli, milli_float, Milli-IsOrdered, Milli-IsScaling}
use astro_photo_power_box.Board.{analog, Log, digital_write, level, IsReadingBack}
use astro_photo_power_box.Sensors.Types.{PowerReader}
use astro_photo_power_box.Switcher.Types.{
  start as switcher_start, pin_heater1, pin_heater2, KeyLockState, ConsumersState, Switcher,
  pin_consumers, pin_charger, pin_mount, pin_camera,
}
use astro_photo_power_box.Switcher.Pins.{set_heater, heater_pwm}
use astro_photo_power_box.Switcher.Pins.Heater.{heater_pwm_bounds}
use astro_photo_power_box.Switcher.KeyLock.{button_isr, button_loop}
use astro_photo_power_box.Switcher.KeyLock.Unlock.{
  Event, isr, poll, step, run, presses, polls, end_time, unlock_needs,
}
use astro_photo_power_box.Switcher.KeyLock.Debounce.{stale_clock_skips_hold}
use astro_photo_power_box.Switcher.Consumers.{consumer_power_loop}
use astro_photo_power_box.Switcher.Consumers.Transitions.{Edge, consumer_power_loop-Edge}
use astro_photo_power_box.Switcher.Consumers.Outputs.{AreRelaysInState, supply_cut_needs}
use astro_photo_power_box.Telegram.Types.{power_consumers_on, no_command}
use astro_photo_power_box.Switcher.Loop.Safety.{Happening, call, history}
use astro_photo_power_box.Switcher.Loop.Heaters.{heater_pins}
use astro_photo_power_box.Switcher.Charging.{charge_switch_loop}
use astro_photo_power_box.Switcher.Charging.Limits.{charge_switch_loop_band}

-- 12.8 V and 0.15 A on every channel
abbrev sensors : PowerReader Milli (Unit {0})
sensors = record { get_voltage = λ c p. (12800, p); get_current = λ c p. (150, p) }

abbrev in_state : ConsumersState → Switcher Milli
in_state c = record {
  btn_info = record {
    last_button_press_time = 5000;
    last_button_release_time = 4000;
    num_presses_since_start = 2;
    pressed = true;
  };
  stop_soc = 90000;
  restart_soc = 80000;
  heater1_pwm = pos 0;
  heater2_pwm = pos 0;
  led_pwm = 1;
  key_lock_state = KeyLockState.unlocking_wait4ack;
  consumers_state = c;
  consumer_power_request = false;
  prev_btn_press_count = 1;
  last_state_change = 1000;
  was_charging = true;
  log =
      digital_write pin_consumers true
      ∷ digital_write pin_mount true
      ∷ digital_write pin_camera true
      ∷ [];
}

abbrev locked : Switcher Milli
locked = record (in_state ConsumersState.consumers_off_idle) {
  key_lock_state = KeyLockState.locked_idle;
  btn_info = record {
    last_button_press_time = 0;
    last_button_release_time = 0;
    num_presses_since_start = 1;
    pressed = false;
  };
}

abbrev with_key : KeyLockState → Switcher Milli
with_key k = record (in_state ConsumersState.consumers_off_idle) { key_lock_state = k }

-- Press, hold, release, wait, press again.
abbrev unlocking : List Event
unlocking =
    isr false 100
    ∷ poll 101
    ∷ poll 1200
    ∷ isr true 1500
    ∷ poll 1501
    ∷ poll 2600
    ∷ isr false 3000
    ∷ poll 3001
    ∷ []

unlocking_works :
    ((run unlocking locked).key_lock_state ≡ KeyLockState.unlocked_idle)
    × ((run unlocking locked).consumer_power_request ≡ true)
unfolding run step button_loop button_isr
unlocking_works = (refl, refl)

unlock_needs_example :
    (2 ≤ presses unlocking) × (5 ≤ polls unlocking) × (0 + 2000 ≤ end_time 0 unlocking)
unlock_needs_example =
    unlock_needs unlocking {t0 = 0} {s = locked} (ground arith) (omega arith)
      (inl unlocking_works.0)

stale_clock_skips_hold_example :
    (button_loop 4999 (with_key KeyLockState.unlocking_hold)).key_lock_state
    ≡ KeyLockState.unlocking_wait4release
stale_clock_skips_hold_example =
    stale_clock_skips_hold 4999 (with_key KeyLockState.unlocking_hold) refl refl (omega arith)
      (omega arith) (omega arith)

-- A board that reads back what was written, and low where nothing was.
abbrev read_back : Log → ℕ → Bool
read_back log pin = level false pin log

read_back-IsReadingBack : IsReadingBack read_back
unfolding level
read_back-IsReadingBack = record {
  own = λ log pin b. ground arith;
  other = λ log pin p b h. ground arith;
}

-- 7.5 W is half of the range.
half_power : heater_pwm {F = Milli} 7500 ≡ pos 511
unfolding heater_pwm
half_power = refl

heater_pwm_bounds_example :
    (pos 0 ≤ℤ heater_pwm {F = Milli} 99000) × (heater_pwm {F = Milli} 99000 ≤ℤ pos 1023)
heater_pwm_bounds_example = heater_pwm_bounds Milli-IsOrdered Milli-IsScaling 99000

consumer_power_loop-Edge_example :
    let s = in_state ConsumersState.consumers_on_wait4pc_shutdown in
    let s' = (consumer_power_loop sensors false 2000 2001 tt s).1 in
    (s'.consumers_state ≡ s.consumers_state) × (s'.last_state_change ≡ s.last_state_change)
    ⊎ Edge sensors false (sub32 2000 1000) tt s.consumers_state s'.consumers_state
      × (s'.last_state_change ≡ 2001)
consumer_power_loop-Edge_example =
    consumer_power_loop-Edge sensors false 2000 2001 tt
      (in_state ConsumersState.consumers_on_wait4pc_shutdown)

wait-AreRelaysInState :
    AreRelaysInState false ConsumersState.consumers_on_wait4pc_shutdown
      (in_state ConsumersState.consumers_on_wait4pc_shutdown)
unfolding level
wait-AreRelaysInState = ground arith

supply_cut_needs_example :
    (ConsumersState.consumers_off_idle ≡ ConsumersState.consumers_off_idle) × (false ≡ false)
unfolding level consumer_power_loop set_heater
supply_cut_needs_example =
    supply_cut_needs false sensors false 2000 2001 tt (in_state ConsumersState.consumers_off_idle)
      refl refl

charge_switch_loop_band_example :
    let s = locked in
    let s' = (charge_switch_loop sensors 95000 tt s).1 in
    let old = level true pin_charger s.log in
    let new = level true pin_charger s'.log in
    (true ≡ false → (new ≡ old) × (s'.was_charging ≡ false))
    × (true ≡ true → false ≡ true → (new ≡ false) × (s'.was_charging ≡ false))
    × (true ≡ true → false ≡ false → true ≡ true → (new ≡ true) × (s'.was_charging ≡ true))
    × (true ≡ true → false ≡ false → true ≡ false → (new ≡ old) × (s'.was_charging ≡ true))
charge_switch_loop_band_example = charge_switch_loop_band true sensors 95000 tt locked

-- A call with the command to switch on, a press, and two more calls.
abbrev switching : List (Happening Milli)
switching =
    call (record { button_time = 1000; power_time = 1001; change_time = 1002 }) power_consumers_on
      50000
    ∷ Happening.isr false 1300
    ∷ call (record { button_time = 2000; power_time = 2001; change_time = 2002 }) no_command 50000
    ∷ call (record { button_time = 3000; power_time = 3001; change_time = 3002 }) no_command 50000
    ∷ []

heater_pins_example :
    let s = (history sensors switching tt switcher_start).1 in
    let s' = set_heater 1 6000 s in
    (analog (pos 0) pin_heater1 s'.log ≡ analog (pos 0) pin_heater1 s.log)
    × (analog (pos 0) pin_heater2 s'.log ≡ heater_pwm {F = Milli} 6000)
heater_pins_example = heater_pins sensors switching tt 1 6000
