-- ===== src/Switcher/Loop/Steps.antt =====
-- Steps of the whole switcher through the power sequence, while nobody touches the button.
use astro_photo_power_box.Prelude.{ℕ, ◌≡◌, ◌≢◌, ◌∙◌, Bool, true, false, arith, sub32, ap}
use astro_photo_power_box.Float.{Float, nought}
use astro_photo_power_box.Sensors.Types.{PowerReader}
use astro_photo_power_box.Telegram.Types.{
  TelegramCommand, no_command, power_consumers_on, power_consumers_off,
}
use astro_photo_power_box.Switcher.Types.{
  ConsumersState, consumers_off_idle, Switcher, KeyLockState,
}
use astro_photo_power_box.Switcher.Pins.{set_heater, set_camera, set_mount, set_consumers}
use astro_photo_power_box.Switcher.KeyLock.{button_loop}
use astro_photo_power_box.Switcher.Consumers.{consumer_power_switch, consumer_power_loop}
use astro_photo_power_box.Switcher.Consumers.Liveness.{rest-Moves}
use astro_photo_power_box.Switcher.Charging.{charge_switch_loop}
use astro_photo_power_box.Switcher.Loop.{Times, handle_command, loop}
use astro_photo_power_box.Switcher.Loop.Commands.{loop-request, loop-handle_command}

module _ {F : Type 0} where
  -- The key lock is closed, and the button is not pressed.
  pub record IsLocked (s : Switcher F) : Type 0 where
    pub locked : s.key_lock_state ≡ KeyLockState.locked_idle
    pub released : s.btn_info.pressed ≡ false

  -- What neither the button nor the charger changes then.
  record IsKept (s s' : Switcher F) : Type 0 where
    lock : s'.key_lock_state ≡ s.key_lock_state
    button : s'.btn_info ≡ s.btn_info
    state : s'.consumers_state ≡ s.consumers_state
    since : s'.last_state_change ≡ s.last_state_change

  button_loop-IsKept : (t : ℕ) (s : Switcher F) → IsLocked s → IsKept s (button_loop t s)
  unfolding button_loop
  button_loop-IsKept t s l = ground arith

  button_loop-request :
      (t : ℕ) (s : Switcher F)
      → IsLocked s
      → (button_loop t s).consumer_power_request ≡ s.consumer_power_request
  unfolding button_loop
  button_loop-request t s l = ground arith

  handle_command-IsKept : (c : TelegramCommand) (s : Switcher F) → IsKept s (handle_command c s)
  unfolding handle_command
  handle_command-IsKept c s = ground arith

  handle_command_unasked :
      (c : TelegramCommand) (s : Switcher F)
      → c ≢ power_consumers_on
      → s.consumer_power_request ≡ false
      → (handle_command c s).consumer_power_request ≡ false
  unfolding handle_command
  handle_command_unasked c s ne e = ground arith

  IsKept-IsLocked : (s s' : Switcher F) → IsKept s s' → IsLocked s → IsLocked s'
  IsKept-IsLocked s s' k l = ground arith

  -- The lock and the button alone.
  record IsLockKept (s s' : Switcher F) : Type 0 where
    lock : s'.key_lock_state ≡ s.key_lock_state
    button : s'.btn_info ≡ s.btn_info

  -- The power is requested or not, and the sequence is in this state since this time.
  pub record IsAt (request : Bool) (c : ConsumersState) (since : ℕ) (s : Switcher F) : Type 0 where
    pub is_locked : IsLocked s
    pub requested : s.consumer_power_request ≡ request
    pub state : s.consumers_state ≡ c
    pub changed : s.last_state_change ≡ since

module _ {F : Type 0} ⦃f : Float F⦄ where
  heaters_off-IsLockKept :
      (s : Switcher F) → IsLockKept s (set_heater 1 nought (set_heater 0 nought s))
  unfolding set_heater
  heaters_off-IsLockKept s = ground arith

no_command≢on : no_command ≢ power_consumers_on
no_command≢on = ground arith

no_command≢off : no_command ≢ power_consumers_off
no_command≢off = ground arith

module _ {F P : Type 0} ⦃f : Float F⦄ where
  charge_loop-IsKept :
      (sensors : PowerReader F P) (soc : F) (p : P) (s : Switcher F)
      → IsKept s (charge_switch_loop sensors soc p s).1
  unfolding charge_switch_loop
  charge_loop-IsKept sensors soc p s = ground arith

  switch-IsLockKept :
      (c : ConsumersState) (sensors : PowerReader F P) (requested : Bool) (elapsed : ℕ) (p : P)
      (s : Switcher F)
      → IsLockKept s (consumer_power_switch c sensors requested elapsed p s).1
  unfolding consumer_power_switch
  switch-IsLockKept ConsumersState.consumers_off_idle sensors requested elapsed p s =
      let h = heaters_off-IsLockKept (set_camera false (set_mount true (set_consumers false s))) in
      ground arith
  switch-IsLockKept ConsumersState.consumers_off_prepare_activation sensors requested elapsed p s =
      let h = heaters_off-IsLockKept (set_camera false (set_mount false s)) in ground arith
  switch-IsLockKept ConsumersState.consumers_on_subs_off sensors requested elapsed p s =
      ground arith
  switch-IsLockKept ConsumersState.consumers_on_subs_activation sensors requested elapsed p s =
      ground arith
  switch-IsLockKept ConsumersState.consumers_on_idle sensors requested elapsed p s = ground arith
  switch-IsLockKept ConsumersState.consumers_on_prepare_power_down sensors requested elapsed p s =
      ground arith
  switch-IsLockKept ConsumersState.consumers_on_wait4pc_shutdown sensors requested elapsed p s =
      ground arith

  power_loop-IsLockKept :
      (sensors : PowerReader F P) (requested : Bool) (now later : ℕ) (p : P) (s : Switcher F)
      → IsLockKept s (consumer_power_loop sensors requested now later p s).1
  unfolding consumer_power_loop
  power_loop-IsLockKept sensors requested now later p s =
      let h =
        switch-IsLockKept s.consumers_state sensors requested (sub32 now s.last_state_change) p s in
      ground arith

  -- A call of `loop` makes the move that the power sequence makes.
  pub step-IsAt :
      (request : Bool) (c d : ConsumersState) (later : ℕ) (sensors : PowerReader F P) (t : Times)
      (command : TelegramCommand) (soc : F) (p : P) (s : Switcher F)
      → IsLocked s
      → s.consumers_state ≡ c
      → (loop sensors t command soc p s).1.consumer_power_request ≡ request
      → (handle_command command (button_loop t.button_time s)).consumer_power_request ≡ request
      → ((s2 : Switcher F)
          → s2.consumers_state ≡ c
          → s2.last_state_change ≡ s.last_state_change
          → let s3 = (consumer_power_loop sensors request t.power_time t.change_time p s2).1 in
            (s3.consumers_state ≡ d) × (s3.last_state_change ≡ later))
      → IsAt request d later (loop sensors t command soc p s).1
  unfolding loop
  step-IsAt request c d later sensors t command soc p s l e r r2 move =
      let s1 = button_loop t.button_time s in
      let s2 = handle_command command s1 in
      let k1 = button_loop-IsKept t.button_time s l in
      let k2 = handle_command-IsKept command s1 in
      let (p3, s3) =
        consumer_power_loop sensors s2.consumer_power_request t.power_time t.change_time p s2 in
      let k3 =
        power_loop-IsLockKept sensors s2.consumer_power_request t.power_time t.change_time p s2 in
      let k4 = charge_loop-IsKept sensors soc p3 s3 in
      let (at, time) : (s3.consumers_state ≡ d) × (s3.last_state_change ≡ later) =
        rw r2 (move s2 (k2.state ∙ k1.state ∙ e) (k2.since ∙ k1.since)) in
      record {
        is_locked = record {
          locked = k4.lock ∙ k3.lock ∙ k2.lock ∙ k1.lock ∙ l.locked;
          released =
              ap (λ b. b.pressed) (k4.button ∙ k3.button ∙ k2.button ∙ k1.button) ∙ l.released;
        };
        requested = r;
        state = k4.state ∙ at;
        changed = k4.since ∙ time;
      }

  -- A call without a command continues it with the move that the power sequence makes.
  pub next-IsAt :
      (request : Bool) (c d : ConsumersState) (since : ℕ) (sensors : PowerReader F P) (t : Times)
      (soc : F) (p : P) (s : Switcher F)
      → IsAt request c since s
      → ((s2 : Switcher F)
          → s2.consumers_state ≡ c
          → s2.last_state_change ≡ since
          → let s3 = (consumer_power_loop sensors request t.power_time t.change_time p s2).1 in
            (s3.consumers_state ≡ d) × (s3.last_state_change ≡ t.change_time))
      → IsAt request d t.change_time (loop sensors t no_command soc p s).1
  next-IsAt request c d since sensors t soc p s a move =
      let (_, _, kept) = loop-request sensors t no_command soc p s in
      let asked = button_loop-request t.button_time s a.is_locked ∙ a.requested in
      step-IsAt request c d t.change_time sensors t no_command soc p s a.is_locked a.state
        (kept no_command≢on no_command≢off ∙ asked) (unfold handle_command in asked)
        (λ s2 e2 r2. move s2 e2 (r2 ∙ a.changed))

  -- The off state lasts, whatever command comes but that to switch on.
  pub rest-IsAt :
      (since : ℕ) (sensors : PowerReader F P) (t : Times) (command : TelegramCommand) (soc : F)
      (p : P) (s : Switcher F)
      → command ≢ power_consumers_on
      → IsAt false consumers_off_idle since s
      → IsAt false consumers_off_idle since (loop sensors t command soc p s).1
  rest-IsAt since sensors t command soc p s ne a =
      let asked = button_loop-request t.button_time s a.is_locked ∙ a.requested in
      let unasked = handle_command_unasked command (button_loop t.button_time s) ne asked in
      step-IsAt false consumers_off_idle consumers_off_idle since sensors t command soc p s
        a.is_locked a.state (loop-handle_command sensors t command soc p s ∙ unasked) unasked
        (λ s2 e r.
          let (at, time) = rest-Moves sensors t.power_time t.change_time p s2 e in
          (at, time ∙ r ∙ a.changed))
