-- ===== src/Switcher/Loop/PowerDown.antt =====
-- The way of the whole switcher from the state in which all runs to the off state, while nobody touches
-- the button.
use astro_photo_power_box.Prelude.{ℕ, pos, ◌⊎◌, ◌<◌, ◌≡◌, true, false, sub32, refl}
use astro_photo_power_box.Float.{Float}
use astro_photo_power_box.Sensors.Types.{PowerReader, psens_ch4_pc}
use astro_photo_power_box.Telegram.Types.{no_command, power_consumers_off}
use astro_photo_power_box.Switcher.Types.{
  consumers_off_idle, consumers_on_prepare_power_down, consumers_on_wait4pc_shutdown,
  consumers_on_idle, Switcher,
}
use astro_photo_power_box.Switcher.Consumers.Liveness.{leave-Moves, mount_off-Moves, pc_off}
use astro_photo_power_box.Switcher.Loop.{Times, handle_command, loop}
use astro_photo_power_box.Switcher.Loop.Commands.{loop-request}
use astro_photo_power_box.Switcher.Loop.Steps.{IsLocked, IsAt, step-IsAt, next-IsAt}

module _ {F P : Type 0} ⦃f : Float F⦄ where
  -- The command to switch off starts the way down.
  pub leave-IsAt :
      (sensors : PowerReader F P) (t : Times) (soc : F) (p : P) (s : Switcher F)
      → IsLocked s
      → s.consumers_state ≡ consumers_on_idle
      → IsAt false consumers_on_prepare_power_down t.change_time
          (loop sensors t power_consumers_off soc p s).1
  leave-IsAt sensors t soc p s l e =
      let (_, off, _) = loop-request sensors t power_consumers_off soc p s in
      step-IsAt false consumers_on_idle consumers_on_prepare_power_down t.change_time sensors t
        power_consumers_off soc p s l e (off refl) (unfold handle_command in refl)
        (λ s2 e2 _.
          let (at, time, _) = leave-Moves sensors t.power_time t.change_time p s2 e2 in (at, time))

  pub mount_off-IsAt :
      (since : ℕ) (sensors : PowerReader F P) (t : Times) (soc : F) (p : P) (s : Switcher F)
      → IsAt false consumers_on_prepare_power_down since s
      → 200 < sub32 t.power_time since
      → IsAt false consumers_on_wait4pc_shutdown t.change_time (loop sensors t no_command soc p s).1
  mount_off-IsAt since sensors t soc p s a h =
      next-IsAt false consumers_on_prepare_power_down consumers_on_wait4pc_shutdown since sensors t
        soc p s a
        (λ s2 e r.
          let (at, time, _) = mount_off-Moves sensors t.power_time t.change_time p s2 e (rw r h) in
          (at, time))

  pub pc_off-IsAt :
      (since : ℕ) (sensors : PowerReader F P) (t : Times) (soc : F) (p : P) (s : Switcher F)
      → IsAt false consumers_on_wait4pc_shutdown since s
      → (f.lt_double (sensors.get_current psens_ch4_pc p).0 (pos 2) 1 ≡ true)
        ⊎ (3600000 < sub32 t.power_time since)
      → IsAt false consumers_off_idle t.change_time (loop sensors t no_command soc p s).1
  pc_off-IsAt since sensors t soc p s a h =
      next-IsAt false consumers_on_wait4pc_shutdown consumers_off_idle since sensors t soc p s a
        (λ s2 e r. pc_off sensors t.power_time t.change_time p s2 e (rw r h))
