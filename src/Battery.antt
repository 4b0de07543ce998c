-- ===== src/Battery.antt =====
-- The battery (src/battery/battery.hpp, battery.cpp). Products and sums of `int32_t` wrap, as the
-- compiler has them, though the standard leaves their overflow open.
pub mod Resting
pub mod Charge
mod Tests
use astro_photo_power_box.Prelude.{
  ℕ, ◌+◌, ◌*◌, ◌%◌, ◌^◌, Bool, true, false, not, ◌&&◌, ◌||◌, ◌==◌, List, [], ◌∷◌, get_or, leb, ltb,
  ℤ, pos, pos_part, ◌+ℤ◌, ◌*ℤ◌, half, min_ℤ, max_ℤ, magnitude, ltb_ℤ, wrap32, signed32, signed64,
  u32, sub32, if◌then◌else◌,
}
use astro_photo_power_box.Float.{Float, nought, whole, clamp_percent}
use astro_photo_power_box.Sensors.Types.{PowerReader, psens_ch1_battery}
use astro_photo_power_box.NonVolatile.{NonVolatile, set_remaining_charge}

pub record Entry (F : Type 0) : Type 0 where
  pub total_voltage : F
  pub state_of_charge : F

pub record Battery (F : Type 0) : Type 0 where
  pub last_update : ℕ  -- uint32_t
  pub update_delay : ℕ  -- uint32_t
  pub idle_current_since : ℕ  -- uint32_t
  pub soc : F
  pub charge_remaining : F
  pub charge_remaining_fine : ℤ  -- int64_t
  pub prev_current_milli_amps : ℤ  -- int32_t
  pub initialized : Bool
  pub soc_good : Bool

-- The clock readings of one call of `loop`, and that of `nvmem` in it.
pub record Times : Type 0 where
  pub due_time : ℕ
  pub sys_time : ℕ
  pub mod_time : ℕ

module _ {F : Type 0} ⦃f : Float F⦄ where
  abbrev pub charge_total : F
  charge_total = f.mul (whole 30) (whole 3600)

-- in µAs
unfoldable pub charge_total_fine : (F : Type 0) ⦃f : Float F⦄ → ℤ
charge_total_fine F ⦃f⦄ = f.to_int (f.mul charge_total (whole {F = F} 1000000))

module _ {F : Type 0} ⦃f : Float F⦄ where
  abbrev pub entry : ℕ → ℕ → Entry F
  entry decivolts soc = record {
    total_voltage = f.lit (pos decivolts) 1;
    state_of_charge = whole soc;
  }

  unfoldable pub resting_voltage_curve : List (Entry F)
  resting_voltage_curve =
      entry 100 0
      ∷ entry 120 10
      ∷ entry 128 20
      ∷ entry 129 30
      ∷ entry 130 40
      ∷ entry 130 50
      ∷ entry 131 60
      ∷ entry 132 70
      ∷ entry 133 80
      ∷ entry 134 90
      ∷ entry 136 100
      ∷ []

  -- The line between two entries.
  unfoldable pub interpolate : Entry F → Entry F → F → F
  interpolate prev e v = f.add prev.state_of_charge (
      f.div (f.mul (f.sub e.state_of_charge prev.state_of_charge) (f.sub v prev.total_voltage))
        (f.sub e.total_voltage prev.total_voltage))

  -- The loop over the rest of the table; `prev` is the entry before it.
  unfoldable pub curve_loop : Entry F → List (Entry F) → F → F
  unfolding interpolate
  curve_loop prev [] v = nought
  curve_loop prev (e ∷ es) v =
      let rest = curve_loop e es v in if f.lt e.total_voltage v then rest else interpolate prev e v

  -- `_getSoCFromRestingVoltage` on a table, for any number of entries
  unfoldable pub soc_from_curve : List (Entry F) → Entry F → F → F
  unfolding curve_loop
  soc_from_curve [] last v = nought
  soc_from_curve (first ∷ es) last v =
      if f.le last.total_voltage v
      then last.state_of_charge
      else if f.le v first.total_voltage
      then first.state_of_charge
      else curve_loop first es v

  unfoldable pub soc_from_resting_voltage : F → F
  unfolding soc_from_curve resting_voltage_curve
  soc_from_resting_voltage v =
      soc_from_curve resting_voltage_curve (get_or resting_voltage_curve 10 (entry 136 100)) v

  unfoldable pub battery : Battery F
  battery = record {
    last_update = 0;
    update_delay = 200;
    idle_current_since = 0;
    soc = nought;
    charge_remaining = nought;
    charge_remaining_fine = pos 0;
    prev_current_milli_amps = pos 0;
    initialized = false;
    soc_good = false;
  }

  unfoldable pub init_from_memory : NonVolatile F → Battery F → Battery F
  init_from_memory m b = record b {
    initialized = true;
    charge_remaining = m.stats.remaining_charge;
    charge_remaining_fine =
        signed64 (pos_part (f.to_int m.stats.remaining_charge) * 1000000 % 2 ^ 64);
  }

  -- The charge between two readings, on the straight line between them, and the bounds.
  unfoldable pub integrate : ℕ → ℤ → Battery F → Battery F
  unfolding charge_total_fine
  integrate sys_time current_milli_amps b =
      let delta_time_ms = signed32 (sub32 sys_time b.last_update) in
      let current_sum = wrap32 (current_milli_amps +ℤ b.prev_current_milli_amps) in
      let delta_charge = half (wrap32 (current_sum *ℤ delta_time_ms)) in
      let fine =
        max_ℤ (min_ℤ (b.charge_remaining_fine +ℤ delta_charge) (charge_total_fine F)) (pos 0) in
      record b {
        charge_remaining_fine = fine;
        charge_remaining = f.div (f.of_int fine) (whole 1000000);
      }

  -- The state of charge of the charge and that of the voltage, and which of them is taken.
  unfoldable pub update_soc : F → Bool → Bool → Bool → Battery F → Battery F
  unfolding soc_from_resting_voltage charge_total_fine
  update_soc voltage low_voltage idle_achieved from_voltage b =
      let soc_from_charge =
        clamp_percent (f.div b.charge_remaining (f.div charge_total (whole 100))) in
      let soc_from_voltage = clamp_percent (soc_from_resting_voltage voltage) in
      let soc_diff = f.fabsf (f.sub soc_from_voltage soc_from_charge) in
      if f.lt (whole 90) soc_diff
        || f.lt soc_from_charge (whole 10) && not low_voltage
        || f.lt (whole 10) soc_diff && from_voltage
      then record b {
        soc = soc_from_voltage;
        soc_good = false;
        charge_remaining_fine =
            if idle_achieved
            then f.to_int
                (f.div (f.mul (f.of_int (charge_total_fine F)) soc_from_voltage) (whole 100))
            else b.charge_remaining_fine;
      }
      else record b { soc = soc_from_charge; soc_good = true }

module _ {F P : Type 0} ⦃f : Float F⦄ (sensors : PowerReader F P) where
  -- The body of `loop` once the update is due.
  unfoldable pub update : Times → P → NonVolatile F → Battery F → P × NonVolatile F × Battery F
  unfolding integrate update_soc set_remaining_charge
  update t p m b =
      let (voltage, p) = sensors.get_voltage psens_ch1_battery p in
      let (current, p) = sensors.get_current psens_ch1_battery p in
      let current_milli_amps = f.to_int (f.mul current (whole 1000)) in
      let charger_connected =
        ltb_ℤ (pos 0) current_milli_amps || f.lt (f.lit (pos 142) 1) voltage in
      let idle_achieved = ltb 300000 (sub32 t.sys_time b.idle_current_since) in
      let low_voltage = f.le voltage (f.lit (pos 125) 1) in
      let from_voltage = low_voltage || f.le (f.lit (pos 134) 1) voltage && idle_achieved in
      let since =
        if charger_connected || ltb 100 (magnitude current_milli_amps)
        then t.sys_time
        else b.idle_current_since in
      let b1 = integrate t.sys_time current_milli_amps (record b { idle_current_since = since }) in
      let m1 = set_remaining_charge t.mod_time b1.charge_remaining m in
      let b2 = update_soc voltage low_voltage idle_achieved from_voltage b1 in
      let first = b.last_update == 0 in
      (
        p,
        if first then m else m1,
        record (if first then record b { idle_current_since = since } else b2) {
          last_update = t.sys_time;
          prev_current_milli_amps = current_milli_amps;
        },
      )

  unfoldable pub loop : Times → P → NonVolatile F → Battery F → P × NonVolatile F × Battery F
  unfolding init_from_memory update
  loop t p m b =
      let b = if b.initialized then b else init_from_memory m b in
      let updated = update t p m b in
      if leb (u32 (b.last_update + b.update_delay)) t.due_time then updated else (p, m, b)

module _ {F : Type 0} ⦃f : Float F⦄ where
  unfoldable pub get_energy_remaining_wh : Battery F → F
  get_energy_remaining_wh b =
      f.mul (f.mul b.charge_remaining (f.div (whole 1) (whole 3600))) (f.lit (pos 128) 1)
