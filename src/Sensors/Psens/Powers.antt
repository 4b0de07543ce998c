-- ===== src/Sensors/Psens/Powers.antt =====
-- The powers that `psens::loop` keeps.
use astro_photo_power_box.Prelude.{
  ℕ, zero, suc, ◌+◌, ◌*◌, ◌≤◌, ◌<◌, ◌≡◌, inl, inr, arith, length, get_or, set, refl, sym, ap, ◌∙◌,
  get_or-set_self, get_or-set_ne, length-set, u32, lt→ltb, ge→ltb, le→leb,
}
use astro_photo_power_box.Float.{Float}
use astro_photo_power_box.Sensors.Wire.{TwoWire}
use astro_photo_power_box.Sensors.Ina3221.{sensor, dummy, get_voltage, get_current}
use astro_photo_power_box.Sensors.Ina3221.Channels.{IsWellFormed, get_voltage_lem, get_current_lem}
use astro_photo_power_box.Sensors.Psens.{Psens, at, update_channels, psens_loop}
use astro_photo_power_box.Sensors.Psens.Products.{
  IsMeasured, IsRead, read-IsMeasured, shift, eq_or_lt,
}

module _ {F W : Type 0} ⦃f : Float F⦄ (wire : TwoWire W) where
  -- The body of the inner loop.
  abbrev stepped : ℕ → ℕ → ℕ → Psens F → W → Psens F × W
  stepped index sens total p w =
      let (voltage, s, w1) = get_voltage wire sens (at p index) w in
      let (current, s, w1) = get_current wire sens s w1 in
      (
        record p {
          sensors = set p.sensors index s;
          powers = set p.powers total (f.mul voltage.value current.value);
        },
        w1,
      )

  stepped-IsRead :
      (index sens : ℕ) (p : Psens F) (w : W)
      → index < length p.sensors
      → sens < 3
      → IsWellFormed (at p index)
      → let (voltage, s, w1) = get_voltage wire sens (at p index) w in
        let (current, _, _) = get_current wire sens s w1 in
        IsRead index sens p (stepped index sens (index * 3 + sens) p w).0 voltage current
  stepped-IsRead index sens p w h k v =
      let (voltage, s1, w1) = get_voltage wire sens (at p index) w in
      let (current, s2, w2) = get_current wire sens s1 w1 in
      let (v_own, v_other, v_currents, v_formed) =
        (get_voltage_lem wire sens (at p index) w v).1 k in
      let (i_own, i_other, i_voltages, i_formed) = (get_current_lem wire sens s1 w1 v_formed).1 k in
      let here = get_or-set_self p.sensors index s2 (sensor 0) h in
      record {
        formed = rw here i_formed;
        voltage_kept = rw here (ap (λ t. get_or t sens dummy) i_voltages ∙ v_own);
        current_kept = rw here i_own;
        other_voltages = λ c ne. rw here (ap (λ t. get_or t c dummy) i_voltages ∙ v_other c ne);
        other_currents = λ c ne. rw here (i_other c ne ∙ ap (λ t. get_or t c dummy) v_currents);
        other_chip = λ i ne. get_or-set_ne p.sensors index i s2 (sensor 0) (λ e. ne (sym e));
        powers = refl;
        two = length-set p.sensors index s2;
      }

  -- From channel `sens` on, the inner loop measures the channels of one chip.
  update_channels-IsMeasured :
      (fuel index sens : ℕ) (p : Psens F) (w : W)
      → index < 2
      → sens ≤ 3
      → 3 < sens + fuel
      → IsMeasured (index * 3 + sens) p
      → let (total, p', _) = update_channels wire fuel index sens (index * 3 + sens) p w in
        (total ≡ index * 3 + 3) × IsMeasured (index * 3 + 3) p'
  unfolding update_channels
  update_channels-IsMeasured zero index sens p w h k l m = absurd (omega arith)
  update_channels-IsMeasured (suc fuel) index sens p w h k l m =
      let (p1, w1) = stepped index sens (index * 3 + sens) p w in
      let (voltage, s, w2) = get_voltage wire sens (at p index) w in
      let current = (get_current wire sens s w2).0 in
      elim (eq_or_lt sens 3 (omega arith)) [
        | inl e ↦ rw (ge→ltb sens 3 (omega (arith, e))) (ap (λ s. index * 3 + s) e, rw e at m)
        | inr b ↦
            rw (lt→ltb sens 3 b, lt→ltb (index * 3 + sens) 6 (omega arith))
              (rw (shift index sens) (
                update_channels-IsMeasured fuel index (suc sens) p1 w1 h (omega arith) (omega arith)
                  (rw (shift index sens) at (
                    read-IsMeasured index sens p p1 voltage current h b m (
                      stepped-IsRead index sens p w (omega (arith, m.two)) b (m.formed index h))))))
      ]

  -- A call of `loop` that is due leaves, for each of the six channels, the product of the voltage and
  -- the current that the chip's driver keeps for it.
  pub psens_loop-IsMeasured :
      (sys_time : ℕ) (p : Psens F) (w : W)
      → p.next_update ≤ sys_time
      → IsMeasured 0 p
      → IsMeasured 6 (psens_loop wire sys_time p w).0
  unfolding psens_loop
  psens_loop-IsMeasured sys_time p w h m =
      let p0 = record p { next_update = u32 (sys_time + p.update_delay) } in
      let m0 : IsMeasured 0 p0 = record {
        two = m.two;
        six = m.six;
        formed = m.formed;
        products = λ n l. absurd (omega arith);
      } in
      let (total, p1, w1) = update_channels wire 4 0 0 0 p0 w in
      let (q1, m1) =
        update_channels-IsMeasured 4 0 0 p0 w (omega arith) (omega arith) (omega arith) m0 in
      let (q2, m2) =
        update_channels-IsMeasured 4 1 0 p1 w1 (omega arith) (omega arith) (omega arith) m1 in
      rw (le→leb p.next_update sys_time h, q1) m2
