-- ===== src/Switcher/Charging/Limits.antt =====
-- The charge limits, and the hysteresis between them.
use astro_photo_power_box.Prelude.{◌≡◌, Bool, true, false, pos, arith, ◌||◌}
use astro_photo_power_box.Float.{Float, IsOrdered, IsPercent, clamp_percent-IsPercent}
use astro_photo_power_box.Board.{level}
use astro_photo_power_box.Sensors.Types.{PowerReader, psens_ch1_battery}
use astro_photo_power_box.Switcher.Types.{Switcher, pin_charger}
use astro_photo_power_box.Switcher.Charging.{charge_switch_loop, set_charge_limit}

module _ {F P : Type 0} ⦃f : Float F⦄ where
  -- The charger's relay moves only while the battery is or was being charged: it is switched on just
  -- below the restart limit, which also ends the charge, and off just above the stop limit and not
  -- below the restart limit. In the band between them the last level stays.
  pub charge_switch_loop_band :
      (start : Bool) (sensors : PowerReader F P) (soc : F) (p : P) (s : Switcher F)
      → let s' = (charge_switch_loop sensors soc p s).1 in
        let charging =
          f.lt (f.lit (pos 1) 1) (sensors.get_current psens_ch1_battery p).0 || s.was_charging in
        let old = level start pin_charger s.log in
        let new = level start pin_charger s'.log in
        (charging ≡ false → (new ≡ old) × (s'.was_charging ≡ false))
        × (charging ≡ true
            → f.lt soc s.restart_soc ≡ true
            → (new ≡ false) × (s'.was_charging ≡ false))
        × (charging ≡ true
            → f.lt soc s.restart_soc ≡ false
            → f.lt s.stop_soc soc ≡ true
            → (new ≡ true) × (s'.was_charging ≡ true))
        × (charging ≡ true
            → f.lt soc s.restart_soc ≡ false
            → f.lt s.stop_soc soc ≡ false
            → (new ≡ old) × (s'.was_charging ≡ true))
  unfolding charge_switch_loop level
  charge_switch_loop_band start sensors soc p s = ground arith

module _ {F : Type 0} ⦃f : Float F⦄ (ordered : IsOrdered F) where
  -- Whatever is asked for, NaN included, both limits end up between 0 and 100 percent.
  pub set_charge_limit-IsPercent :
      (start_soc stop_soc : F) (s : Switcher F)
      → let s' = set_charge_limit start_soc stop_soc s in
        IsPercent s'.stop_soc × IsPercent s'.restart_soc
  unfolding set_charge_limit
  set_charge_limit-IsPercent start_soc stop_soc s =
      (clamp_percent-IsPercent ordered stop_soc, clamp_percent-IsPercent ordered start_soc)
