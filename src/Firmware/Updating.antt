-- ===== src/Firmware/Updating.antt =====
-- The update over the air takes the processor for itself.
use astro_photo_power_box.Prelude.{ℕ, ◌≡◌, ◌≢◌, Bool, true, false, ◌∙◌, if_true}
use astro_photo_power_box.Gfx.{Gfx}
use astro_photo_power_box.Float.{Float}
use astro_photo_power_box.Board.{Log}
use astro_photo_power_box.Switcher.Types.{ConsumersState}
use astro_photo_power_box.NonVolatile.{FileSystem}
use astro_photo_power_box.Connection.{is_connected}
use astro_photo_power_box.Ota.{handle, is_updating}
use astro_photo_power_box.Ota.Gate.{handle-closed}
use astro_photo_power_box.Sensors.Types.{Psensors}
use astro_photo_power_box.Firmware.{Firmware, Input, online, offline, loop}

module _ {F P D : Type 0} ⦃f : Float F⦄ ⦃g : Gfx F⦄ (sensors : Psensors F P)
    (sensors_loop : ℕ → P → P) (fs : FileSystem F D) (digital_read : Log → ℕ → Bool)
    (networks : ℕ) where
  -- On a connected box whose update is running once its library has been handled, a call of `loop`
  -- does nothing else: no other component steps.
  pub loop_updating :
      (i : Input) (w : Firmware F P D)
      → is_connected w.connection ≡ true
      → let (ota, switcher, display) = handle i.ota_events w.ota w.switcher w.display in
        is_updating ota ≡ true
        → loop sensors sensors_loop fs digital_read networks i w
          ≡ record w { ota = ota; switcher = switcher; display = display }
  unfolding loop
  loop_updating i w c u = if_true _ _ _ c ∙ if_true _ _ _ u

  -- Whatever the update library would do, a box whose consumers are not off steps as if there were no
  -- update, if none was running.
  pub loop_no_update :
      (i : Input) (w : Firmware F P D)
      → w.switcher.consumers_state ≢ ConsumersState.consumers_off_idle
      → is_updating w.ota ≡ false
      → let step = offline sensors sensors_loop fs digital_read networks i in
        (is_connected w.connection ≡ true
          → loop sensors sensors_loop fs digital_read networks i w
            ≡ step (online sensors sensors_loop fs digital_read networks i w))
        × (is_connected w.connection ≡ false
            → loop sensors sensors_loop fs digital_read networks i w ≡ step w)
  unfolding loop
  loop_no_update i w ne u =
      (λ c. rw (handle-closed i.ota_events w.ota w.switcher w.display ne, c, u), λ c. rw c)
