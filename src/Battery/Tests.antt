-- ===== src/Battery/Tests.antt =====
-- Runs of the battery.
use astro_photo_power_box.Prelude.{
  ℕ, ◌+◌, ◌≡◌, true, false, arith, pos, negsuc, ◌+ℤ◌, ◌*ℤ◌, ◌≤ℤ◌, half, min_ℤ, max_ℤ, u32,
}
use astro_photo_power_box.Float.{whole}
use astro_photo_power_box.Float.Milli.{Milli, milli_float, Milli-IsOrdered, Milli-IsScaling}
use astro_photo_power_box.Sensors.Types.{PowerReader}
use astro_photo_power_box.NonVolatile.{NonVolatile}
use astro_photo_power_box.Battery.{
  Battery, Times, charge_total_fine, integrate, soc_from_resting_voltage, resting_voltage_curve,
}
use astro_photo_power_box.Battery.Resting.{IsOnSegment, soc_from_resting_voltage_lem}
use astro_photo_power_box.Battery.Charge.{integrate_bounds, integrate_exact}

abbrev sensors : PowerReader Milli ℕ
sensors = record { get_voltage = λ c n. (12800, n); get_current = λ c n. (150, n) }

abbrev running : Battery Milli
running = record {
  last_update = 4294967290;
  update_delay = 200;
  idle_current_since = 0;
  soc = 40000;
  charge_remaining = 50000;
  charge_remaining_fine = pos 50000000;
  prev_current_milli_amps = negsuc 499;
  initialized = true;
  soc_good = true;
}

abbrev nvmem : NonVolatile Milli
nvmem = record {
  dirty = false;
  last_mod = 0;
  stats = record {
    total_coulomb_charged = 0;
    total_coulomb_discharged = 0;
    remaining_charge = 50000;
  };
  saved_stats = record {
    total_coulomb_charged = 0;
    total_coulomb_discharged = 0;
    remaining_charge = 50000;
  };
}

abbrev times : Times
times = record { due_time = 300; sys_time = 301; mod_time = 302 }

abbrev voltage : Milli
voltage = 13050

soc_from_resting_voltage_lem_example :
    (milli_float.le 13600 13050 ≡ true → soc_from_resting_voltage voltage ≡ whole 100)
    × (milli_float.le 13600 13050 ≡ false
        → milli_float.le 13050 10000 ≡ true
        → soc_from_resting_voltage voltage ≡ whole 0)
    × (milli_float.le 13050 13050 ≡ true
        → milli_float.le 13600 13050 ≡ false
        → milli_float.le 13050 10000 ≡ false
        → IsOnSegment resting_voltage_curve voltage (soc_from_resting_voltage voltage))
soc_from_resting_voltage_lem_example = soc_from_resting_voltage_lem Milli-IsOrdered voltage

integrate_bounds_example :
    let fine = (integrate 500 (negsuc 99999) running).charge_remaining_fine in
    (pos 0 ≤ℤ fine) × (fine ≤ℤ charge_total_fine Milli)
integrate_bounds_example =
    integrate_bounds Milli-IsOrdered Milli-IsScaling 500 (negsuc 99999) running

-- 0.5 A and 1 A of discharge, 200 ms apart.
few_milli_amps :
    let sum = negsuc 999 +ℤ negsuc 499 in
    (negsuc 2147483647 ≤ℤ sum)
    × (sum ≤ℤ pos 2147483647)
    × (negsuc 2147483647 ≤ℤ sum *ℤ pos 200)
    × (sum *ℤ pos 200 ≤ℤ pos 2147483647)
unfolding ◌+ℤ◌ ◌*ℤ◌
few_milli_amps = (omega arith, omega arith, omega arith, omega arith)

-- The clock wraps between the two readings.
integrate_exact_example :
    (integrate (u32 (4294967290 + 200)) (negsuc 999) running).charge_remaining_fine
    ≡ max_ℤ
        (min_ℤ
          (pos 50000000 +ℤ half ((negsuc 999 +ℤ negsuc 499) *ℤ pos 200))
          (charge_total_fine Milli))
        (pos 0)
integrate_exact_example =
    integrate_exact 200 (negsuc 999) running (omega arith) (omega arith) few_milli_amps.0
      few_milli_amps.1 few_milli_amps.2 few_milli_amps.3
