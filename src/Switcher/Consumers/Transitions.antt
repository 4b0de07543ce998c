-- ===== src/Switcher/Consumers/Transitions.antt =====
-- The power sequence as a transition diagram with guards: when a call of `_consumerPowerLoop` may
-- change the state.
use astro_photo_power_box.Prelude.{
  ℕ, ◌≤◌, ◌<◌, ◌≡◌, ◌⊎◌, Bool, true, false, pos, refl, arith, sub32, ap, ltb, inl, inr, ◌∙◌,
  Bool-cases, ltb→lt, ◌==◌,
}
use astro_photo_power_box.Float.{Float}
use astro_photo_power_box.Sensors.Types.{PowerReader, psens_ch4_pc, psens_ch5_mount}
use astro_photo_power_box.Switcher.Types.{
  ConsumersState, consumers_off_idle, consumers_off_prepare_activation, consumers_on_subs_off,
  consumers_on_subs_activation, consumers_on_idle, consumers_on_prepare_power_down,
  consumers_on_wait4pc_shutdown, state_number, state_number-injective, Switcher,
}
use astro_photo_power_box.Switcher.Pins.{set_consumers, set_mount, set_camera}
use astro_photo_power_box.Switcher.Pins.Levels.{heaters_off-IsHeaterOnly}
use astro_photo_power_box.Switcher.Consumers.{
  bat_min_turn_on_voltage, consumer_power_switch, consumer_power_loop,
}

module _ {F P : Type 0} ⦃f : Float F⦄ (sensors : PowerReader F P) (requested : Bool) (elapsed : ℕ)
    (p : P) where
  -- The edges, with what a call needs to follow them: the power request, the time since the last
  -- change of state, and the values that the sensors give.
  pub data Edge : ConsumersState → ConsumersState → Type 0 where
    wake : requested ≡ true → Edge consumers_off_idle consumers_off_prepare_activation
    power : 200 < elapsed → Edge consumers_off_prepare_activation consumers_on_subs_off
    supplied :
        100 < elapsed
        → f.le bat_min_turn_on_voltage (sensors.get_voltage psens_ch5_mount p).0 ≡ true
        → Edge consumers_on_subs_off consumers_on_subs_activation
    undervoltage :
        3000 < elapsed
        → f.le bat_min_turn_on_voltage (sensors.get_voltage psens_ch5_mount p).0 ≡ false
        → Edge consumers_on_subs_off consumers_off_idle
    ready : 1000 ≤ elapsed → Edge consumers_on_subs_activation consumers_on_idle
    leave : requested ≡ false → Edge consumers_on_idle consumers_on_prepare_power_down
    mount_off : 200 < elapsed → Edge consumers_on_prepare_power_down consumers_on_wait4pc_shutdown
    again : requested ≡ true → Edge consumers_on_wait4pc_shutdown consumers_on_subs_activation
    pc_off :
        requested ≡ false
        → f.lt_double (sensors.get_current psens_ch4_pc p).0 (pos 2) 1 ≡ true
        → Edge consumers_on_wait4pc_shutdown consumers_off_idle
    timeout :
        requested ≡ false
        → 3600000 < elapsed
        → Edge consumers_on_wait4pc_shutdown consumers_off_idle

module _ {F P : Type 0} ⦃f : Float F⦄ where
  -- What the `switch` does to the state, case by case.
  consumer_power_switch-Follows :
      (c : ConsumersState) (sensors : PowerReader F P) (requested : Bool) (elapsed : ℕ) (p : P)
      (s : Switcher F)
      → s.consumers_state ≡ c
      → let s' = (consumer_power_switch c sensors requested elapsed p s).1 in
        (s'.last_state_change ≡ s.last_state_change)
        × ((s'.consumers_state ≡ c) ⊎ Edge sensors requested elapsed p c s'.consumers_state)
  unfolding consumer_power_switch
  consumer_power_switch-Follows consumers_off_idle sensors true elapsed p s e =
      (refl, inr (wake refl))
  consumer_power_switch-Follows consumers_off_idle sensors false elapsed p s e =
      let h =
        heaters_off-IsHeaterOnly (set_camera false (set_mount true (set_consumers false s))) in
      (h.same_change, inl (h.same_state ∙ e))
  consumer_power_switch-Follows consumers_off_prepare_activation sensors requested elapsed p s e =
      let h = heaters_off-IsHeaterOnly (set_camera false (set_mount false s)) in
      elim (Bool-cases (ltb 200 elapsed)) [
        | inl t ↦ rw t (h.same_change, inr (power (ltb→lt 200 elapsed t)))
        | inr t ↦ rw t (h.same_change, inl (h.same_state ∙ e))
      ]
  consumer_power_switch-Follows consumers_on_subs_off sensors requested elapsed p s e =
      grind (arith, supplied, undervoltage)
  consumer_power_switch-Follows consumers_on_subs_activation sensors requested elapsed p s e =
      grind (arith, ready)
  consumer_power_switch-Follows consumers_on_idle sensors requested elapsed p s e =
      grind (arith, leave)
  consumer_power_switch-Follows consumers_on_prepare_power_down sensors requested elapsed p s e =
      grind (arith, mount_off)
  consumer_power_switch-Follows consumers_on_wait4pc_shutdown sensors requested elapsed p s e =
      grind (arith, again, pc_off, timeout)

  -- A call keeps the state and the time of its last change, or follows an edge whose guard holds and
  -- records the clock.
  pub consumer_power_loop-Edge :
      (sensors : PowerReader F P) (requested : Bool) (now later : ℕ) (p : P) (s : Switcher F)
      → let s' = (consumer_power_loop sensors requested now later p s).1 in
        (s'.consumers_state ≡ s.consumers_state) × (s'.last_state_change ≡ s.last_state_change)
        ⊎ Edge sensors requested
            (sub32 now s.last_state_change)
            p
            s.consumers_state
            s'.consumers_state
          × (s'.last_state_change ≡ later)
  unfolding consumer_power_loop
  consumer_power_loop-Edge sensors requested now later p s =
      let elapsed = sub32 now s.last_state_change in
      let s' = (consumer_power_switch s.consumers_state sensors requested elapsed p s).1 in
      let c = s.consumers_state in
      let (kept, moved) =
        consumer_power_switch-Follows s.consumers_state sensors requested elapsed p s refl in
      elim (Bool-cases (state_number s'.consumers_state == state_number c)) [
        | inl t ↦ rw t (inl (state_number-injective s'.consumers_state c (ground arith), kept))
        | inr t ↦ rw t (elim moved [
          | inl e ↦ absurd (ground (arith, ap state_number e))
          | inr d ↦ inr (d, refl)
        ])
      ]
