-- ===== src/Battery/Charge.antt =====
-- The counted charge and the state of charge that is made of it.
use astro_photo_power_box.Prelude.{
  ℕ, ◌+◌, ◌<◌, ◌≡◌, Bool, true, false, ℤ, pos, negsuc, ◌+ℤ◌, ◌*ℤ◌, ◌≤ℤ◌, half, min_ℤ, max_ℤ,
  magnitude, wrap32, sub32, u32, arith, if◌then◌else◌, signed32, leb, ltb, ltb_ℤ, ◌||◌, ◌&&◌,
  sub32-u32_add, ◌==◌,
}
use astro_photo_power_box.Float.{
  Float, ◌≼◌, whole, IsOrdered, IsScaling, IsPercent, clamp_percent-IsPercent,
}
use astro_photo_power_box.Sensors.Types.{PowerReader, psens_ch1_battery}
use astro_photo_power_box.NonVolatile.{NonVolatile}
use astro_photo_power_box.Battery.{
  Battery, Times, charge_total_fine, integrate, update_soc, update, loop, init_from_memory,
}

-- Where the number fits, `int32_t` does not wrap.
wrap32-small : (n : ℤ) → negsuc 2147483647 ≤ℤ n → n ≤ℤ pos 2147483647 → wrap32 n ≡ n
wrap32-small n h k = ground arith

clamp-bounds :
    (x t : ℤ) → pos 0 ≤ℤ t → (pos 0 ≤ℤ max_ℤ (min_ℤ x t) (pos 0)) × (max_ℤ (min_ℤ x t) (pos 0) ≤ℤ t)
clamp-bounds x t h = ground arith

signed32-small : (n : ℕ) → n < 2147483648 → signed32 n ≡ pos n
signed32-small n h = ground arith

module _ {F : Type 0} ⦃f : Float F⦄ (ordered : IsOrdered F) (scaling : IsScaling F) where
  charge_total_fine-le : pos 0 ≤ℤ charge_total_fine F
  unfolding charge_total_fine
  charge_total_fine-le =
      let coulomb = f.mul (whole 30) (whole 3600) in
      let above : whole 0 ≼ f.mul coulomb (whole 1000000) =
        ordered.le_trans _ _ _
          (scaling.le_mul 0 1000000 0 (omega arith) (omega arith) (omega arith))
          (scaling.mul_mono (whole 0) coulomb 1000000 (omega arith) (omega arith)
            (scaling.le_mul 30 3600 0 (omega arith) (omega arith) (omega arith))) in
      let below : f.mul coulomb (whole 1000000) ≼ whole 200000000000 =
        ordered.le_trans _ _ _
          (scaling.mul_mono coulomb (whole 108000) 1000000 (omega arith) (omega arith)
            (scaling.mul_le 30 3600 108000 (omega arith) (omega arith) (omega arith)))
          (scaling.mul_le 108000 1000000 200000000000 (omega arith) (omega arith) (omega arith)) in
      rw (scaling.to_int_whole 0 (omega arith)) at
        (scaling.to_int_mono (whole 0) _ (ordered.lit_refl (pos 0) 0) above below)

  -- A call of `integrate` leaves a counted charge between empty and full, whatever it was before. (The
  -- charge that is read from the file is not bounded until then.)
  pub integrate_bounds :
      (sys_time : ℕ) (current_milli_amps : ℤ) (b : Battery F)
      → let fine = (integrate sys_time current_milli_amps b).charge_remaining_fine in
        (pos 0 ≤ℤ fine) × (fine ≤ℤ charge_total_fine F)
  unfolding integrate
  integrate_bounds sys_time current_milli_amps b =
      clamp-bounds
        (b.charge_remaining_fine
          +ℤ half (
              wrap32 (
                wrap32 (current_milli_amps +ℤ b.prev_current_milli_amps)
                *ℤ signed32 (sub32 sys_time b.last_update))))
        (charge_total_fine F) charge_total_fine-le

module _ {F : Type 0} ⦃f : Float F⦄ where
  -- If the two currents, in mA, and the time between the readings, in ms, are so small that their
  -- product fits into 32 bits, the charge changes by the exact mean of the currents times that time,
  -- rounded towards zero, within the bounds. The time is right also where the clock has wrapped.
  pub integrate_exact :
      (dt : ℕ) (current_milli_amps : ℤ) (b : Battery F)
      → b.last_update < 4294967296
      → dt < 2147483648
      → let sum = current_milli_amps +ℤ b.prev_current_milli_amps in
        let product = sum *ℤ pos dt in
        negsuc 2147483647 ≤ℤ sum
        → sum ≤ℤ pos 2147483647
        → negsuc 2147483647 ≤ℤ product
        → product ≤ℤ pos 2147483647
        → (integrate (u32 (b.last_update + dt)) current_milli_amps b).charge_remaining_fine
          ≡ max_ℤ (min_ℤ (b.charge_remaining_fine +ℤ half product) (charge_total_fine F)) (pos 0)
  unfolding integrate
  integrate_exact dt current_milli_amps b l h k1 k2 k3 k4 =
      let sum = current_milli_amps +ℤ b.prev_current_milli_amps in
      rw (
        sub32-u32_add b.last_update dt l (omega arith),
        signed32-small dt h,
        wrap32-small sum k1 k2,
        wrap32-small (sum *ℤ pos dt) k3 k4,
      )

module _ {F : Type 0} ⦃f : Float F⦄ where
  if-IsPercent :
      (c : Bool) (a b : Battery F)
      → IsPercent a.soc
      → IsPercent b.soc
      → IsPercent (if c then a else b).soc
  if-IsPercent true a b h k = h
  if-IsPercent false a b h k = k

module _ {F : Type 0} ⦃f : Float F⦄ (ordered : IsOrdered F) where
  update_soc-IsPercent :
      (voltage : F) (low idle from_voltage : Bool) (b : Battery F)
      → IsPercent (update_soc voltage low idle from_voltage b).soc
  unfolding update_soc
  update_soc-IsPercent voltage low idle from_voltage b =
      if-IsPercent {F = F} _ _ _ (clamp_percent-IsPercent ordered _)
        (clamp_percent-IsPercent ordered _)

module _ {F P : Type 0} ⦃f : Float F⦄ (sensors : PowerReader F P) (ordered : IsOrdered F) where
  if_result-IsPercent :
      (c : Bool) (x y : P × NonVolatile F × Battery F)
      → IsPercent x.2.soc
      → IsPercent y.2.soc
      → IsPercent (if c then x else y).2.soc
  if_result-IsPercent true x y h k = h
  if_result-IsPercent false x y h k = k

  update-IsPercent :
      (t : Times) (p : P) (m : NonVolatile F) (b : Battery F)
      → IsPercent b.soc
      → IsPercent (update sensors t p m b).2.soc
  unfolding update
  update-IsPercent t p m b h =
      let (voltage, p) = sensors.get_voltage psens_ch1_battery p in
      let (current, p) = sensors.get_current psens_ch1_battery p in
      let milli_amps = f.to_int (f.mul current (whole 1000)) in
      let idle_achieved = ltb 300000 (sub32 t.sys_time b.idle_current_since) in
      let low_voltage = f.le voltage (f.lit (pos 125) 1) in
      let from_voltage = low_voltage || f.le (f.lit (pos 134) 1) voltage && idle_achieved in
      let connected = ltb_ℤ (pos 0) milli_amps || f.lt (f.lit (pos 142) 1) voltage in
      let since =
        if connected || ltb 100 (magnitude milli_amps) then t.sys_time else b.idle_current_since in
      let b0 = record b { idle_current_since = since } in
      let b1 = integrate t.sys_time milli_amps b0 in
      if-IsPercent (b.last_update == 0) b0
        (update_soc voltage low_voltage idle_achieved from_voltage b1) h
        (update_soc-IsPercent ordered voltage low_voltage idle_achieved from_voltage b1)

  -- The state of charge stays between 0 and 100 percent, whatever the sensors say, NaN included.
  pub loop-IsPercent :
      (t : Times) (p : P) (m : NonVolatile F) (b : Battery F)
      → IsPercent b.soc
      → IsPercent (loop sensors t p m b).2.soc
  unfolding loop
  loop-IsPercent t p m b h =
      let b0 = if b.initialized then b else init_from_memory m b in
      let h0 =
        if-IsPercent b.initialized b (init_from_memory m b) h (unfold init_from_memory in h) in
      if_result-IsPercent (leb (u32 (b0.last_update + b0.update_delay)) t.due_time)
        (update sensors t p m b0) (p, m, b0) (update-IsPercent t p m b0 h0) h0
