-- ===== src/Switcher/KeyLock/Unlock.antt =====
-- What it takes to unlock the button, over any sequence of interrupts and calls of `_buttonLoop`.
use astro_photo_power_box.Prelude.{
  ℕ, suc, ◌+◌, ◌≤◌, ◌<◌, ◌≡◌, ◌⊎◌, Bool, true, false, List, [], ◌∷◌, arith,
}
use astro_photo_power_box.Switcher.Types.{
  KeyLockState, locked_wait4release, locked_idle, unlocking_hold, unlocking_wait4release,
  unlocking_release_delay, unlocking_wait4ack, unlocked_idle, Switcher,
}
use astro_photo_power_box.Switcher.KeyLock.{button_isr, button_loop}

-- An interrupt with the level of the pin, or a call of `_buttonLoop`, and the time.
pub data Event : Type 0 where
  isr : Bool → ℕ → Event
  poll : ℕ → Event

abbrev pub time : Event → ℕ
time (isr level t) = t
time (poll t) = t

module _ {F : Type 0} where
  unfoldable pub step : Event → Switcher F → Switcher F
  step (isr level t) s = record s { btn_info = button_isr level t s.btn_info }
  step (poll t) s = button_loop t s

  unfoldable pub run : List Event → Switcher F → Switcher F
  run [] s = s
  run (e ∷ es) s = run es (step e s)

abbrev pub presses : List Event → ℕ
presses [] = 0
presses (isr false t ∷ es) = suc (presses es)
presses (_ ∷ es) = presses es

abbrev pub polls : List Event → ℕ
polls [] = 0
polls (poll t ∷ es) = suc (polls es)
polls (_ ∷ es) = polls es

-- The clock does not run backwards, and does not wrap.
abbrev pub IsOrderedFrom : ℕ → List Event → Type 0
IsOrderedFrom now [] = now < 4294967296
IsOrderedFrom now (e ∷ es) = (now ≤ time e) × IsOrderedFrom (time e) es

abbrev pub end_time : ℕ → List Event → ℕ
end_time now [] = now
end_time now (e ∷ es) = end_time (time e) es

-- The steps of the unlock sequence that lie behind a state.
abbrev pub progress : KeyLockState → ℕ
progress locked_wait4release = 0
progress locked_idle = 0
progress unlocking_hold = 1
progress unlocking_wait4release = 2
progress unlocking_release_delay = 3
progress unlocking_wait4ack = 4
progress unlocked_idle = 5

time_bound : (now : ℕ) (es : List Event) → IsOrderedFrom now es → now < 4294967296
time_bound now [] o = o
time_bound now (e ∷ es) o = omega (arith, time_bound (time e) es o.1)

module _ {F : Type 0} where
  -- Locked, with the power request off and the button released, at time `t0`.
  pub record IsLocked (t0 : ℕ) (s : Switcher F) : Type 0 where
    pub locked : (s.key_lock_state ≡ locked_idle) ⊎ (s.key_lock_state ≡ locked_wait4release)
    pub request_off : s.consumer_power_request ≡ false
    pub released : s.btn_info.pressed ≡ false
    pub press_past : s.btn_info.last_button_press_time ≤ t0
    pub release_past : s.btn_info.last_button_release_time ≤ t0

  -- What holds at time `now` after `n` presses and `m` polls.
  record Unlocking (t0 now n m : ℕ) (s : Switcher F) : Type 0 where
    begun : t0 ≤ now
    press_past : s.btn_info.last_button_press_time ≤ now
    release_past : s.btn_info.last_button_release_time ≤ now
    press_seen : s.btn_info.pressed ≡ true → (1 ≤ n) × (t0 ≤ s.btn_info.last_button_press_time)
    enough_polls : progress s.key_lock_state ≤ m
    hold : s.key_lock_state ≡ unlocking_hold → 1 ≤ n
    release :
        s.key_lock_state ≡ unlocking_wait4release
        → (1 ≤ n)
          × (t0 + 1000 ≤ now)
          × (s.btn_info.pressed ≡ false → t0 + 1000 ≤ s.btn_info.last_button_release_time)
    delay :
        s.key_lock_state ≡ unlocking_release_delay
        → (1 ≤ n)
          × (t0 + 1000 ≤ s.btn_info.last_button_release_time)
          × (s.btn_info.pressed ≡ true → 2 ≤ n)
    ack :
        s.key_lock_state ≡ unlocking_wait4ack
        → (1 ≤ n) × (t0 + 2000 ≤ now) × (s.btn_info.pressed ≡ true → 2 ≤ n)
    unlocked : s.key_lock_state ≡ unlocked_idle → (2 ≤ n) × (t0 + 2000 ≤ now) × (5 ≤ m)
    requested : s.consumer_power_request ≡ true → (2 ≤ n) × (t0 + 2000 ≤ now) × (5 ≤ m)

  isr-Unlocking :
      {t0 now n m : ℕ} {s : Switcher F} (level : Bool) (t : ℕ)
      → now ≤ t
      → Unlocking t0 now n m s
      → Unlocking t0 t (presses (isr level t ∷ []) + n) m (step (isr level t) s)
  unfolding step button_isr
  isr-Unlocking true t h u = ground arith
  isr-Unlocking false t h u = ground arith

  poll-Unlocking :
      {t0 now n m : ℕ} {s : Switcher F} (t : ℕ)
      → now ≤ t
      → t < 4294967296
      → Unlocking t0 now n m s
      → Unlocking t0 t n (suc m) (step (poll t) s)
  unfolding step button_loop
  poll-Unlocking t h k u = ground arith

  IsLocked-Unlocking : {t0 : ℕ} {s : Switcher F} → IsLocked t0 s → Unlocking t0 t0 0 0 s
  IsLocked-Unlocking l = ground arith

  run-Unlocking :
      (es : List Event) {t0 now n m : ℕ} {s : Switcher F} (n' m' : ℕ)
      → IsOrderedFrom now es
      → Unlocking t0 now n m s
      → n' ≡ presses es + n
      → m' ≡ polls es + m
      → Unlocking t0 (end_time now es) n' m' (run es s)
  unfolding run
  run-Unlocking [] n' m' o u e d = ground arith
  run-Unlocking (isr true t ∷ es) n' m' o u e d =
      run-Unlocking es n' m' o.1 (isr-Unlocking true t o.0 u) (omega arith) d
  run-Unlocking (isr false t ∷ es) n' m' o u e d =
      run-Unlocking es n' m' o.1 (isr-Unlocking false t o.0 u) (omega arith) d
  run-Unlocking (poll t ∷ es) n' m' o u e d =
      run-Unlocking es n' m' o.1 (poll-Unlocking t o.0 (time_bound t es o.1) u) e (omega arith)

  -- From a locked key with the button released, the power request off and no press or release recorded
  -- for a later time, no sequence of button interrupts and calls of
  -- `_buttonLoop` under a clock that does not run backwards and does not wrap unlocks the button
  -- or switches the request on, but with two presses, in five calls and over two seconds at least.
  pub unlock_needs :
      (es : List Event) {t0 : ℕ} {s : Switcher F}
      → IsLocked t0 s
      → IsOrderedFrom t0 es
      → let s' = run es s in
        (s'.key_lock_state ≡ unlocked_idle) ⊎ (s'.consumer_power_request ≡ true)
        → (2 ≤ presses es) × (5 ≤ polls es) × (t0 + 2000 ≤ end_time t0 es)
  unlock_needs es {t0} {s} l o h = ground (
    arith,
    run-Unlocking es (presses es) (polls es) o (IsLocked-Unlocking l) (omega arith) (omega arith),
  )
