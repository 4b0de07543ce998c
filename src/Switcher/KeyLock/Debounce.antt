-- ===== src/Switcher/KeyLock/Debounce.antt =====
-- Presses that `_buttonLoop` ignores, the automatic lock, and a stale clock reading.
use astro_photo_power_box.Prelude.{ℕ, ◌+◌, ◌≤◌, ◌<◌, ◌≡◌, ◌≢◌, ◌⊎◌, true, not, arith}
use astro_photo_power_box.Switcher.Types.{
  locked_wait4release, unlocking_hold, unlocking_wait4release, unlocking_wait4ack, unlocked_idle,
  Switcher,
}
use astro_photo_power_box.Switcher.KeyLock.{button_loop, since_press, since_release}

module _ {F : Type 0} where
  -- A press within 250 ms after a release does not change the power request, neither in the call
  -- that sees it nor in the next one, however late, if no further press comes.
  pub bounce_ignored :
      (t u : ℕ) (s : Switcher F)
      → since_release t s ≤ 250
      → let s' = button_loop t s in
        (s'.consumer_power_request ≡ s.consumer_power_request)
        × ((button_loop u s').consumer_power_request ≡ s.consumer_power_request)
  unfolding button_loop
  bounce_ignored t u s h = ground arith

  -- The press that acknowledges the unlocking also toggles the power request in the same call, if
  -- the previous call had not seen it and the last release is more than 250 ms ago.
  pub ack_toggles :
      (t : ℕ) (s : Switcher F)
      → s.key_lock_state ≡ unlocking_wait4ack
      → s.btn_info.pressed ≡ true
      → s.btn_info.num_presses_since_start ≢ s.prev_btn_press_count
      → 250 < since_release t s
      → let s' = button_loop t s in
        (s'.key_lock_state ≡ unlocked_idle)
        × (s'.consumer_power_request ≡ not s.consumer_power_request)
  unfolding button_loop
  ack_toggles t s k p n r = ground arith

  -- An unlocked button locks itself just when the last press and the last release are both ten
  -- seconds ago or more. Then the power request stays as it is; otherwise the button stays
  -- unlocked.
  pub auto_lock :
      (t : ℕ) (s : Switcher F)
      → s.key_lock_state ≡ unlocked_idle
      → let s' = button_loop t s in
        ((10000 ≤ since_release t s) × (10000 ≤ since_press t s)
          → (s'.key_lock_state ≡ locked_wait4release)
            × (s'.consumer_power_request ≡ s.consumer_power_request))
        × ((since_release t s < 10000) ⊎ (since_press t s < 10000)
            → s'.key_lock_state ≡ unlocked_idle)
  unfolding button_loop
  auto_lock t s k = (ground arith, ground arith)

  -- The interrupt may come after `_buttonLoop` has read the clock: then the press looks younger than
  -- `sysTime`, the unsigned difference wraps, and the hold of one second is taken as complete at
  -- once.
  pub stale_clock_skips_hold :
      (t : ℕ) (s : Switcher F)
      → s.key_lock_state ≡ unlocking_hold
      → s.btn_info.pressed ≡ true
      → t < s.btn_info.last_button_press_time
      → s.btn_info.last_button_press_time ≤ t + 1000
      → s.btn_info.last_button_press_time < 4294967296
      → (button_loop t s).key_lock_state ≡ unlocking_wait4release
  unfolding button_loop
  stale_clock_skips_hold t s k p a b c = ground arith
