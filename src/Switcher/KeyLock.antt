-- ===== src/Switcher/KeyLock.antt =====
-- The button: `_buttonISR` and `_buttonLoop` of src/switcher/switcher.cpp. The interrupt may come
-- between any two calls, and also between the reading of the clock and `getButtonInfo` at the top of
-- `_buttonLoop`: the state that is passed in is the one that `getButtonInfo` copies.
pub mod Unlock
pub mod Debounce
use astro_photo_power_box.Prelude.{
  ℕ, ◌+◌, Bool, true, false, not, ◌&&◌, leb, ltb, ◌==◌, if◌then◌else◌, u32, sub32,
}
use astro_photo_power_box.Switcher.Types.{
  KeyLockState, locked_wait4release, locked_idle, unlocking_hold, unlocking_wait4release,
  unlocking_release_delay, unlocking_wait4ack, unlocked_idle, ButtonInfo, Switcher, unlock_duration,
}
use astro_photo_power_box.Switcher.Pins.{set_led_pwm}

abbrev pub is_unlocked : KeyLockState → Bool
is_unlocked unlocked_idle = true
is_unlocked _ = false

-- `_buttonISR`: the level is high while the button is released.
unfoldable pub button_isr : Bool → ℕ → ButtonInfo → ButtonInfo
button_isr state sys_time b =
    if state then record b { last_button_release_time = sys_time; pressed = false } else record b {
      last_button_press_time = sys_time;
      num_presses_since_start = u32 (b.num_presses_since_start + 1);
      pressed = true;
    }

module _ {F : Type 0} where
  abbrev pub enter : KeyLockState → Switcher F → Switcher F
  enter k s = record s { key_lock_state = k }

  abbrev pub since_press : ℕ → Switcher F → ℕ
  since_press sys_time s = sub32 sys_time s.btn_info.last_button_press_time

  abbrev pub since_release : ℕ → Switcher F → ℕ
  since_release sys_time s = sub32 sys_time s.btn_info.last_button_release_time

  -- The `switch` on `_keyLockState`.
  unfoldable pub key_lock_switch : KeyLockState → ℕ → Switcher F → Switcher F
  unfolding set_led_pwm
  key_lock_switch locked_wait4release sys_time s =
      if not s.btn_info.pressed then enter locked_idle s else s
  key_lock_switch locked_idle sys_time s =
      let s = set_led_pwm 1 s in if s.btn_info.pressed then enter unlocking_hold s else s
  key_lock_switch unlocking_hold sys_time s =
      let s = set_led_pwm 511 s in
      if not s.btn_info.pressed
      then enter locked_idle s
      else if leb 1000 (since_press sys_time s)
      then enter unlocking_wait4release s
      else s
  key_lock_switch unlocking_wait4release sys_time s =
      let s = set_led_pwm 1 s in
      if not s.btn_info.pressed
      then enter unlocking_release_delay s
      else if leb 2000 (since_press sys_time s)
      then enter locked_wait4release s
      else s
  key_lock_switch unlocking_release_delay sys_time s =
      if s.btn_info.pressed
      then enter locked_wait4release s
      else if leb 1000 (since_release sys_time s)
      then enter unlocking_wait4ack s
      else s
  key_lock_switch unlocking_wait4ack sys_time s =
      let s = set_led_pwm 1023 s in
      if s.btn_info.pressed
      then enter unlocked_idle s
      else if leb 2000 (since_release sys_time s)
      then enter locked_idle s
      else s
  key_lock_switch unlocked_idle sys_time s =
      let led_pwm_val =
        if s.btn_info.pressed then 1023 else (if s.consumer_power_request then 255 else 5) in
      let s = set_led_pwm led_pwm_val s in
      if leb unlock_duration (since_release sys_time s)
        && leb unlock_duration (since_press sys_time s)
      then enter locked_wait4release s
      else s

  -- The toggle (`^= true`) of the power request, with the debounce, behind the `switch`.
  unfoldable pub toggle_request : ℕ → Switcher F → Switcher F
  toggle_request sys_time s =
      let presses = s.btn_info.num_presses_since_start in
      let toggled =
        not (presses == s.prev_btn_press_count)
        && is_unlocked s.key_lock_state
        && ltb 250 (since_release sys_time s) in
      record s {
        consumer_power_request =
            if toggled then not s.consumer_power_request else s.consumer_power_request;
        prev_btn_press_count = presses;
      }

  unfoldable pub button_loop : ℕ → Switcher F → Switcher F
  unfolding key_lock_switch toggle_request
  button_loop sys_time s = toggle_request sys_time (key_lock_switch s.key_lock_state sys_time s)
