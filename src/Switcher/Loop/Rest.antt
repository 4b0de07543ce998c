-- ===== src/Switcher/Loop/Rest.antt =====
-- The relays after a call of the switcher's `loop` that leaves the consumers off.
use astro_photo_power_box.Prelude.{ℕ, ◌≡◌, ◌∙◌, sym, true, false, Bool, arith}
use astro_photo_power_box.Float.{Float}
use astro_photo_power_box.Board.{level}
use astro_photo_power_box.Sensors.Types.{PowerReader}
use astro_photo_power_box.Telegram.Types.{TelegramCommand}
use astro_photo_power_box.Switcher.Types.{
  Switcher, pin_mount, pin_consumers, pin_camera, consumers_off_idle,
}
use astro_photo_power_box.Switcher.KeyLock.{button_loop}
use astro_photo_power_box.Switcher.Consumers.{consumer_power_loop}
use astro_photo_power_box.Switcher.Consumers.Liveness.{wake-Moves}
use astro_photo_power_box.Switcher.Consumers.Outputs.{off_idle_safe}
use astro_photo_power_box.Switcher.Loop.{Times, handle_command, loop}
use astro_photo_power_box.Switcher.Loop.Safety.{
  button_loop-IsAside, handle_command-IsAside, charge_switch_loop-IsAside,
}

module _ {F : Type 0} where
  -- The supply and the camera are off, and the mount's relay is released.
  abbrev pub AreReleased : Bool → Switcher F → Type 0
  AreReleased start s =
      (level start pin_consumers s.log ≡ false)
      × (level start pin_mount s.log ≡ false)
      × (level start pin_camera s.log ≡ false)

module _ {F P : Type 0} ⦃f : Float F⦄ (sensors : PowerReader F P) where
  power_loop_releases :
      (start requested : Bool) (now later : ℕ) (p : P) (s : Switcher F)
      → s.consumers_state ≡ consumers_off_idle
      → let s' = (consumer_power_loop sensors requested now later p s).1 in
        s'.consumers_state ≡ consumers_off_idle → AreReleased start s'
  power_loop_releases start false now later p s e e' =
      let (_, consumers, mount, camera, _, _) = off_idle_safe start sensors now later p s e in
      (consumers, mount, camera)
  power_loop_releases start true now later p s e e' =
      let (moved, _, _) = wake-Moves sensors now later p s e in ground arith

  pub loop_releases :
      (start : Bool) (t : Times) (command : TelegramCommand) (soc : F) (p : P) (s : Switcher F)
      → s.consumers_state ≡ consumers_off_idle
      → let s' = (loop sensors t command soc p s).1 in
        s'.consumers_state ≡ consumers_off_idle → AreReleased start s'
  unfolding loop
  loop_releases start t command soc p s e e' =
      let s1 = button_loop t.button_time s in
      let s2 = handle_command command s1 in
      let (p3, s3) =
        consumer_power_loop sensors s2.consumer_power_request t.power_time t.change_time p s2 in
      let a1 = button_loop-IsAside start t.button_time s in
      let a2 = handle_command-IsAside start command s1 in
      let a4 = charge_switch_loop-IsAside start sensors soc p3 s3 in
      let (consumers, mount, camera) =
        power_loop_releases start s2.consumer_power_request t.power_time t.change_time p s2
          (a2.state ∙ a1.state ∙ e) (sym a4.state ∙ e') in
      (a4.consumers ∙ consumers, a4.mount ∙ mount, a4.camera ∙ camera)
