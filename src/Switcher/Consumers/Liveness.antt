-- ===== src/Switcher/Consumers/Liveness.antt =====
-- The power sequence reaches its ends: four calls switch on, three switch off.
use astro_photo_power_box.Prelude.{
  ℕ, ◌≤◌, ◌<◌, ◌≡◌, Bool, true, false, pos, arith, sub32, ◌⊎◌, List, [], ◌∷◌,
}
use astro_photo_power_box.Float.{Float}
use astro_photo_power_box.Sensors.Types.{PowerReader, psens_ch4_pc, psens_ch5_mount}
use astro_photo_power_box.Switcher.Types.{
  ConsumersState, consumers_off_idle, consumers_off_prepare_activation, consumers_on_subs_off,
  consumers_on_subs_activation, consumers_on_idle, consumers_on_prepare_power_down,
  consumers_on_wait4pc_shutdown, Switcher,
}
use astro_photo_power_box.Switcher.Pins.{set_mount, set_camera, set_consumers}
use astro_photo_power_box.Switcher.Pins.Levels.{heaters_off-IsHeaterOnly}
use astro_photo_power_box.Switcher.Consumers.{bat_min_turn_on_voltage, consumer_power_loop}

module _ {F P : Type 0} ⦃f : Float F⦄ (sensors : PowerReader F P) (now later : ℕ) (p : P) where
  -- What one call does in a state where it has what it needs.
  abbrev pub Moves : Bool → ConsumersState → Switcher F → Type 0
  Moves requested d s =
      let (p', s') = consumer_power_loop sensors requested now later p s in
      (s'.consumers_state ≡ d) × (s'.last_state_change ≡ later) × (p' ≡ p)

  pub rest-Moves :
      (s : Switcher F)
      → s.consumers_state ≡ consumers_off_idle
      → let s' = (consumer_power_loop sensors false now later p s).1 in
        (s'.consumers_state ≡ consumers_off_idle) × (s'.last_state_change ≡ s.last_state_change)
  unfolding consumer_power_loop
  rest-Moves s e =
      let quiet =
        heaters_off-IsHeaterOnly (set_camera false (set_mount true (set_consumers false s))) in
      ground (arith, quiet.same_state)

  pub wake-Moves :
      (s : Switcher F)
      → s.consumers_state ≡ consumers_off_idle
      → Moves true consumers_off_prepare_activation s
  unfolding consumer_power_loop
  wake-Moves s e = ground arith

  pub power-Moves :
      (s : Switcher F)
      → s.consumers_state ≡ consumers_off_prepare_activation
      → 200 < sub32 now s.last_state_change
      → Moves true consumers_on_subs_off s
  unfolding consumer_power_loop
  power-Moves s e h =
      let quiet = heaters_off-IsHeaterOnly (set_camera false (set_mount false s)) in
      ground (arith, quiet.same_state)

  pub supplied-Moves :
      (s : Switcher F)
      → s.consumers_state ≡ consumers_on_subs_off
      → 100 < sub32 now s.last_state_change
      → f.le bat_min_turn_on_voltage (sensors.get_voltage psens_ch5_mount p).0 ≡ true
      → let s' = (consumer_power_loop sensors true now later p s).1 in
        (s'.consumers_state ≡ consumers_on_subs_activation) × (s'.last_state_change ≡ later)
  unfolding consumer_power_loop
  supplied-Moves s e h v = ground arith

  pub ready-Moves :
      (s : Switcher F)
      → s.consumers_state ≡ consumers_on_subs_activation
      → 1000 ≤ sub32 now s.last_state_change
      → Moves true consumers_on_idle s
  unfolding consumer_power_loop
  ready-Moves s e h = ground arith

  pub leave-Moves :
      (s : Switcher F)
      → s.consumers_state ≡ consumers_on_idle
      → Moves false consumers_on_prepare_power_down s
  unfolding consumer_power_loop
  leave-Moves s e = ground arith

  pub mount_off-Moves :
      (s : Switcher F)
      → s.consumers_state ≡ consumers_on_prepare_power_down
      → 200 < sub32 now s.last_state_change
      → Moves false consumers_on_wait4pc_shutdown s
  unfolding consumer_power_loop
  mount_off-Moves s e h = ground arith

  pub pc_off :
      (s : Switcher F)
      → s.consumers_state ≡ consumers_on_wait4pc_shutdown
      → (f.lt_double (sensors.get_current psens_ch4_pc p).0 (pos 2) 1 ≡ true)
        ⊎ (3600000 < sub32 now s.last_state_change)
      → let s' = (consumer_power_loop sensors false now later p s).1 in
        (s'.consumers_state ≡ consumers_off_idle) × (s'.last_state_change ≡ later)
  unfolding consumer_power_loop
  pc_off s e h = ground arith

-- A call of `_consumerPowerLoop`: the two readings of the clock.
record Call : Type 0 where
  now : ℕ
  later : ℕ

module _ {F P : Type 0} ⦃f : Float F⦄ (sensors : PowerReader F P) where
  -- One call after the other, under a constant request.
  unfoldable calls : Bool → List Call → P → Switcher F → P × Switcher F
  calls requested [] p s = (p, s)
  calls requested (c ∷ cs) p s =
      let (p', s') = consumer_power_loop sensors requested c.now c.later p s in
      calls requested cs p' s'

  -- Under a steady request four calls lead from the off state to the idle state in which all runs,
  -- if they are far enough apart and the supply voltage is sufficient.
  power_up :
      (a b c d : Call) (p : P) (s : Switcher F)
      → s.consumers_state ≡ consumers_off_idle
      → 200 < sub32 b.now a.later
      → 100 < sub32 c.now b.later
      → 1000 ≤ sub32 d.now c.later
      → f.le bat_min_turn_on_voltage (sensors.get_voltage psens_ch5_mount p).0 ≡ true
      → (calls true (a ∷ b ∷ c ∷ d ∷ []) p s).1.consumers_state ≡ consumers_on_idle
  unfolding calls
  power_up a b c d p s e hb hc hd v =
      let (p1, s1) = consumer_power_loop sensors true a.now a.later p s in
      let (p2, s2) = consumer_power_loop sensors true b.now b.later p1 s1 in
      let (p3, s3) = consumer_power_loop sensors true c.now c.later p2 s2 in
      let (at_a, time_a, same_a) = wake-Moves sensors a.now a.later p s e in
      let (at_b, time_b, same_b) = power-Moves sensors b.now b.later p1 s1 at_a (rw time_a hb) in
      let (at_c, time_c) =
        supplied-Moves sensors c.now c.later p2 s2 at_b (rw time_b hc) (rw (same_b, same_a) v) in
      (ready-Moves sensors d.now d.later p3 s3 at_c (rw time_c hd)).0

  -- Without a request three calls lead from the idle state to the off state, if they are far enough
  -- apart and the PC draws less than 0.2 A, or an hour has passed.
  power_down :
      (a b c : Call) (p : P) (s : Switcher F)
      → s.consumers_state ≡ consumers_on_idle
      → 200 < sub32 b.now a.later
      → (f.lt_double (sensors.get_current psens_ch4_pc p).0 (pos 2) 1 ≡ true)
        ⊎ (3600000 < sub32 c.now b.later)
      → (calls false (a ∷ b ∷ c ∷ []) p s).1.consumers_state ≡ consumers_off_idle
  unfolding calls
  power_down a b c p s e hb h =
      let (p1, s1) = consumer_power_loop sensors false a.now a.later p s in
      let (p2, s2) = consumer_power_loop sensors false b.now b.later p1 s1 in
      let (at_a, time_a, same_a) = leave-Moves sensors a.now a.later p s e in
      let (at_b, time_b, same_b) =
        mount_off-Moves sensors b.now b.later p1 s1 at_a (rw time_a hb) in
      (pc_off sensors c.now c.later p2 s2 at_b (rw (time_b, same_b, same_a) h)).0
