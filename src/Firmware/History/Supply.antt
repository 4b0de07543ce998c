-- ===== src/Firmware/History/Supply.antt =====
-- The supply of the consumers during an update over the air.
use astro_photo_power_box.Prelude.{◌≡◌, false, List, [], ◌∷◌, arith, Bool-cases, inl, inr}
use astro_photo_power_box.Gfx.{Gfx}
use astro_photo_power_box.Float.{Float}
use astro_photo_power_box.Board.{level}
use astro_photo_power_box.Switcher.Types.{Switcher, pin_consumers}
use astro_photo_power_box.Switcher.Pins.{set_heater, set_consumers}
use astro_photo_power_box.Oled.{Display}
use astro_photo_power_box.Ota.{
  Ota, OtaEvent, ota_start, ota_end, ota_error, ota_progress, ready_4_update, on_event, on_events,
  handle,
}

module _ {F : Type 0} ⦃f : Float F⦄ ⦃g : Gfx F⦄ where
  on_event-IsCut :
      (e : OtaEvent) (o : Ota) (s : Switcher F) (d : Display F)
      → level false pin_consumers s.log ≡ false
      → level false pin_consumers (on_event e o s d).1.log ≡ false
  unfolding on_event set_heater set_consumers level
  on_event-IsCut ota_start o s d a = ground arith
  on_event-IsCut (ota_progress m n) o s d a = a
  on_event-IsCut (ota_error t n) o s d a = a
  on_event-IsCut ota_end o s d a = ground arith

  on_events-IsCut :
      (es : List OtaEvent) (o : Ota) (s : Switcher F) (d : Display F)
      → level false pin_consumers s.log ≡ false
      → level false pin_consumers (on_events es o s d).1.log ≡ false
  unfolding on_events
  on_events-IsCut [] o s d a = a
  on_events-IsCut (e ∷ es) o s d a =
      let (o', s', d') = on_event e o s d in on_events-IsCut es o' s' d' (on_event-IsCut e o s d a)

  -- An update never switches the supply on.
  pub handle-IsCut :
      (es : List OtaEvent) (o : Ota) (s : Switcher F) (d : Display F)
      → level false pin_consumers s.log ≡ false
      → level false pin_consumers (handle es o s d).1.log ≡ false
  unfolding handle
  handle-IsCut es o s d a = elim (Bool-cases (ready_4_update s)) [
    | inl e ↦ rw e (on_events-IsCut es o s d a)
    | inr e ↦ rw e a
  ]
