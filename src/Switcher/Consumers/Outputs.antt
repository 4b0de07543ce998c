-- ===== src/Switcher/Consumers/Outputs.antt =====
-- The relays in each state of the power sequence.
use astro_photo_power_box.Prelude.{
  ℕ, ◌≡◌, ◌⊎◌, Bool, true, false, arith, ◌==◌, Bool-cases, inl, inr, refl, sub32, ap, sym, ◌∙◌,
}
use astro_photo_power_box.Float.{Float, nought}
use astro_photo_power_box.Board.{level}
use astro_photo_power_box.Sensors.Types.{PowerReader}
use astro_photo_power_box.Switcher.Types.{
  ConsumersState, consumers_off_idle, consumers_off_prepare_activation, consumers_on_subs_off,
  consumers_on_subs_activation, consumers_on_idle, consumers_on_prepare_power_down,
  consumers_on_wait4pc_shutdown, state_number, Switcher, pin_mount, pin_consumers, pin_camera,
}
use astro_photo_power_box.Switcher.Pins.{set_consumers, set_mount, set_camera, heater_pwm}
use astro_photo_power_box.Switcher.Pins.Levels.{heaters_off-IsHeaterOnly, heaters_off-heater_pwm}
use astro_photo_power_box.Switcher.Consumers.{consumer_power_switch, consumer_power_loop}

module _ {F : Type 0} where
  -- The levels last written to the relay pins, by state. The mount's relay is normally closed: its
  -- pin is high while the mount is off.
  pub record AreRelaysInState (start : Bool) (c : ConsumersState) (s : Switcher F) : Type 0 where
    pub quiet :
        c ≡ consumers_on_subs_off
        → (level start pin_mount s.log ≡ true) × (level start pin_camera s.log ≡ false)
    pub powered :
        (c ≡ consumers_on_subs_activation)
          ⊎ (c ≡ consumers_on_idle)
          ⊎ (c ≡ consumers_on_prepare_power_down)
          ⊎ (c ≡ consumers_on_wait4pc_shutdown)
        → level start pin_consumers s.log ≡ true
    pub serving :
        c ≡ consumers_on_idle
        → (level start pin_mount s.log ≡ false) × (level start pin_camera s.log ≡ true)
    pub closing : c ≡ consumers_on_wait4pc_shutdown → level start pin_mount s.log ≡ true

  -- Recording the time of a change touches nothing else.
  record IsSwitched (s s' : Switcher F) : Type 0 where
    log : s'.log ≡ s.log
    state : s'.consumers_state ≡ s.consumers_state
    heater1 : s'.heater1_pwm ≡ s.heater1_pwm
    heater2 : s'.heater2_pwm ≡ s.heater2_pwm

module _ {F P : Type 0} ⦃f : Float F⦄ where
  switch-Relays :
      (start : Bool) (c : ConsumersState) (sensors : PowerReader F P) (requested : Bool)
      (elapsed : ℕ) (p : P) (s : Switcher F)
      → s.consumers_state ≡ c
      → AreRelaysInState start c s
      → let s' = (consumer_power_switch c sensors requested elapsed p s).1 in
        AreRelaysInState start s'.consumers_state s'
  unfolding consumer_power_switch level
  switch-Relays start consumers_off_idle sensors requested elapsed p s e r =
      let h =
        heaters_off-IsHeaterOnly (set_camera false (set_mount true (set_consumers false s))) in
      ground (arith, h.same_state)
  switch-Relays start consumers_off_prepare_activation sensors requested elapsed p s e r =
      let h = heaters_off-IsHeaterOnly (set_camera false (set_mount false s)) in
      ground (arith, h.same_state, h.levels start pin_mount, h.levels start pin_camera)
  switch-Relays start consumers_on_subs_off sensors requested elapsed p s e r = ground arith
  switch-Relays start consumers_on_subs_activation sensors requested elapsed p s e r = ground arith
  switch-Relays start consumers_on_idle sensors requested elapsed p s e r = ground arith
  switch-Relays start consumers_on_prepare_power_down sensors requested elapsed p s e r =
      ground arith
  switch-Relays start consumers_on_wait4pc_shutdown sensors requested elapsed p s e r = ground arith

  -- Every call of `_consumerPowerLoop` keeps the relays in step with the state: the consumers' relay
  -- is on while the devices behind it are in use, the mount and the camera are off before the supply
  -- comes up, both are on in the idle state, and the mount is off before the PC is waited for.
  pub consumer_power_loop-AreRelaysInState :
      (start : Bool) (sensors : PowerReader F P) (requested : Bool) (now later : ℕ) (p : P)
      (s : Switcher F)
      → AreRelaysInState start s.consumers_state s
      → let s' = (consumer_power_loop sensors requested now later p s).1 in
        AreRelaysInState start s'.consumers_state s'
  unfolding consumer_power_loop
  consumer_power_loop-AreRelaysInState start sensors requested now later p s r =
      let elapsed = sub32 now s.last_state_change in
      let s' = (consumer_power_switch s.consumers_state sensors requested elapsed p s).1 in
      let r' = switch-Relays start s.consumers_state sensors requested elapsed p s refl r in
      elim (Bool-cases (state_number s'.consumers_state == state_number s.consumers_state)) [
        | inl t ↦ rw t r'
        | inr t ↦ rw t (record {
          quiet = r'.quiet;
          powered = r'.powered;
          serving = r'.serving;
          closing = r'.closing;
        })
      ]

  loop-IsSwitched :
      (sensors : PowerReader F P) (requested : Bool) (now later : ℕ) (p : P) (s : Switcher F)
      (c : ConsumersState)
      → s.consumers_state ≡ c
      → IsSwitched
          (consumer_power_switch c sensors requested (sub32 now s.last_state_change) p s).1
          (consumer_power_loop sensors requested now later p s).1
  unfolding consumer_power_loop
  loop-IsSwitched sensors requested now later p s c e = rw (← e) (ground arith)

  -- In the off state without a request the call switches everything to its least consuming state: the
  -- supply and the camera off, the mount's relay released, both heaters at the value for 0 W.
  pub off_idle_safe :
      (start : Bool) (sensors : PowerReader F P) (now later : ℕ) (p : P) (s : Switcher F)
      → s.consumers_state ≡ consumers_off_idle
      → let s' = (consumer_power_loop sensors false now later p s).1 in
        (s'.consumers_state ≡ consumers_off_idle)
        × (level start pin_consumers s'.log ≡ false)
        × (level start pin_mount s'.log ≡ false)
        × (level start pin_camera s'.log ≡ false)
        × (s'.heater1_pwm ≡ heater_pwm {F = F} nought)
        × (s'.heater2_pwm ≡ heater_pwm {F = F} nought)
  unfolding consumer_power_switch level
  off_idle_safe start sensors now later p s e =
      let before = set_camera false (set_mount true (set_consumers false s)) in
      let h = heaters_off-IsHeaterOnly before in
      let w = heaters_off-heater_pwm before in
      let l = loop-IsSwitched sensors false now later p s consumers_off_idle e in
      (
        l.state ∙ h.same_state ∙ e,
        ap (level start pin_consumers) l.log ∙ h.levels start pin_consumers,
        ap (level start pin_mount) l.log ∙ h.levels start pin_mount,
        ap (level start pin_camera) l.log ∙ h.levels start pin_camera,
        l.heater1 ∙ w.0,
        l.heater2 ∙ w.1,
      )

  switch_cut_needs :
      (start : Bool) (c : ConsumersState) (sensors : PowerReader F P) (requested : Bool)
      (elapsed : ℕ) (p : P) (s : Switcher F)
      → level start pin_consumers s.log ≡ true
      → level start pin_consumers (consumer_power_switch c sensors requested elapsed p s).1.log
        ≡ false
      → (c ≡ consumers_off_idle) × (requested ≡ false)
  unfolding consumer_power_switch level
  switch_cut_needs start consumers_off_idle sensors requested elapsed p s on off = ground arith
  switch_cut_needs start consumers_off_prepare_activation sensors requested elapsed p s on off =
      let h = heaters_off-IsHeaterOnly (set_camera false (set_mount false s)) in
      ground (arith, h.levels start pin_consumers)
  switch_cut_needs start consumers_on_subs_off sensors requested elapsed p s on off = ground arith
  switch_cut_needs start consumers_on_subs_activation sensors requested elapsed p s on off =
      ground arith
  switch_cut_needs start consumers_on_idle sensors requested elapsed p s on off = ground arith
  switch_cut_needs start consumers_on_prepare_power_down sensors requested elapsed p s on off =
      ground arith
  switch_cut_needs start consumers_on_wait4pc_shutdown sensors requested elapsed p s on off =
      ground arith

  -- The supply of the consumers is cut by a call only in the off state, and only without a request.
  pub supply_cut_needs :
      (start : Bool) (sensors : PowerReader F P) (requested : Bool) (now later : ℕ) (p : P)
      (s : Switcher F)
      → level start pin_consumers s.log ≡ true
      → level start pin_consumers (consumer_power_loop sensors requested now later p s).1.log
        ≡ false
      → (s.consumers_state ≡ consumers_off_idle) × (requested ≡ false)
  supply_cut_needs start sensors requested now later p s on off =
      let l = loop-IsSwitched sensors requested now later p s s.consumers_state refl in
      switch_cut_needs start s.consumers_state sensors requested (sub32 now s.last_state_change) p s
        on (ap (level start pin_consumers) (sym l.log) ∙ off)
