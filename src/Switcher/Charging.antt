-- ===== src/Switcher/Charging.antt =====
-- The charger: `_chargeSwitchLoop` and `setChargeLimit` of src/switcher/switcher.cpp.
pub mod Limits
use astro_photo_power_box.Prelude.{true, false, pos, ◌||◌, if◌then◌else◌}
use astro_photo_power_box.Float.{Float, nought, whole}
use astro_photo_power_box.Sensors.Types.{PowerReader, psens_ch1_battery}
use astro_photo_power_box.Switcher.Types.{Switcher}
use astro_photo_power_box.Switcher.Pins.{set_charger}

module _ {F P : Type 0} ⦃f : Float F⦄ where
  -- `soc` is `battery.getSoC()`.
  unfoldable pub charge_switch_loop : PowerReader F P → F → P → Switcher F → P × Switcher F
  unfolding set_charger
  charge_switch_loop sensors soc p s =
      let (current, p') = sensors.get_current psens_ch1_battery p in
      let was_charging = f.lt (f.lit (pos 1) 1) current || s.was_charging in
      let s' = record s { was_charging = was_charging } in
      (
        p',
        if was_charging
            then (if f.lt soc s.restart_soc
                then set_charger true (record s' { was_charging = false })
                else if f.lt s.stop_soc soc
                then set_charger false s'
                else s')
            else s',
      )

module _ {F : Type 0} ⦃f : Float F⦄ where
  unfoldable pub set_charge_limit : F → F → Switcher F → Switcher F
  set_charge_limit start_soc stop_soc s = record s {
    stop_soc = f.fminf (whole 100) (f.fmaxf nought stop_soc);
    restart_soc = f.fminf (whole 100) (f.fmaxf nought start_soc);
  }
