-- ===== src/Ota/Gate.antt =====
-- When an update may start, and what it does to the consumers.
use astro_photo_power_box.Prelude.{◌≡◌, ◌≢◌, Bool, true, false, List, arith, Bool-cases, inl, inr}
use astro_photo_power_box.Float.{Float}
use astro_photo_power_box.Board.{level}
use astro_photo_power_box.Gfx.{Gfx}
use astro_photo_power_box.Oled.{Display}
use astro_photo_power_box.Switcher.Types.{Switcher, ConsumersState, state_number, pin_consumers}
use astro_photo_power_box.Switcher.Pins.{set_heater}
use astro_photo_power_box.Ota.{Ota, OtaEvent, ota_end, ready_4_update, on_event, handle}

module _ {F : Type 0} where
  -- An update may start just in the state in which the consumers are off and not asked for.
  pub ready_4_update_lem :
      (s : Switcher F)
      → (s.consumers_state ≡ ConsumersState.consumers_off_idle → ready_4_update s ≡ true)
        × (ready_4_update s ≡ true → s.consumers_state ≡ ConsumersState.consumers_off_idle)
  unfolding ready_4_update state_number
  ready_4_update_lem s = ground arith

module _ {F : Type 0} ⦃f : Float F⦄ ⦃g : Gfx F⦄ where
  -- Nothing that the update library calls while it is handled starts an update, ends one or switches
  -- anything, unless the consumers are off and not asked for.
  pub handle-closed :
      (es : List OtaEvent) (o : Ota) (s : Switcher F) (d : Display F)
      → s.consumers_state ≢ ConsumersState.consumers_off_idle
      → handle es o s d ≡ (o, s, d)
  unfolding handle
  handle-closed es o s d ne = elim (Bool-cases (ready_4_update s)) [
    | inl e ↦ absurd (ne ((ready_4_update_lem s).1 e))
    | inr e ↦ rw e
  ]

  -- At the end of an update the consumers' relay and both heaters are off and a reset is requested.
  pub ota_end_lem :
      (start : Bool) (o : Ota) (s : Switcher F) (d : Display F)
      → let (o', s', _) = on_event ota_end o s d in
        (level start pin_consumers s'.log ≡ false)
        × (o'.reset_requested ≡ true)
        × (o'.update_started ≡ o.update_started)
  unfolding on_event set_heater level
  ota_end_lem start o s d = ground arith
