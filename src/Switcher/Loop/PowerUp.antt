-- ===== src/Switcher/Loop/PowerUp.antt =====
-- The way of the whole switcher from the off state to the state in which all runs, while nobody touches
-- the button.
use astro_photo_power_box.Prelude.{ℕ, ◌<◌, ◌≤◌, ◌≡◌, true, sub32, refl}
use astro_photo_power_box.Float.{Float}
use astro_photo_power_box.Sensors.Types.{PowerReader, psens_ch5_mount}
use astro_photo_power_box.Telegram.Types.{no_command, power_consumers_on}
use astro_photo_power_box.Switcher.Types.{
  consumers_off_idle, consumers_off_prepare_activation, consumers_on_subs_off,
  consumers_on_subs_activation, consumers_on_idle, Switcher,
}
use astro_photo_power_box.Switcher.Consumers.{bat_min_turn_on_voltage}
use astro_photo_power_box.Switcher.Consumers.Liveness.{
  wake-Moves, power-Moves, supplied-Moves, ready-Moves,
}
use astro_photo_power_box.Switcher.Loop.{Times, handle_command, loop}
use astro_photo_power_box.Switcher.Loop.Commands.{loop-request}
use astro_photo_power_box.Switcher.Loop.Steps.{IsLocked, IsAt, step-IsAt, next-IsAt}

module _ {F P : Type 0} ⦃f : Float F⦄ where
  -- The command to switch on starts the way up.
  pub wake-IsAt :
      (sensors : PowerReader F P) (t : Times) (soc : F) (p : P) (s : Switcher F)
      → IsLocked s
      → s.consumers_state ≡ consumers_off_idle
      → IsAt true consumers_off_prepare_activation t.change_time
          (loop sensors t power_consumers_on soc p s).1
  wake-IsAt sensors t soc p s l e =
      let (on, _, _) = loop-request sensors t power_consumers_on soc p s in
      step-IsAt true consumers_off_idle consumers_off_prepare_activation t.change_time sensors t
        power_consumers_on soc p s l e (on refl) (unfold handle_command in refl)
        (λ s2 e2 _.
          let (at, time, _) = wake-Moves sensors t.power_time t.change_time p s2 e2 in (at, time))

  pub power-IsAt :
      (since : ℕ) (sensors : PowerReader F P) (t : Times) (soc : F) (p : P) (s : Switcher F)
      → IsAt true consumers_off_prepare_activation since s
      → 200 < sub32 t.power_time since
      → IsAt true consumers_on_subs_off t.change_time (loop sensors t no_command soc p s).1
  power-IsAt since sensors t soc p s a h =
      next-IsAt true consumers_off_prepare_activation consumers_on_subs_off since sensors t soc p s
        a
        (λ s2 e r.
          let (at, time, _) = power-Moves sensors t.power_time t.change_time p s2 e (rw r h) in
          (at, time))

  pub supplied-IsAt :
      (since : ℕ) (sensors : PowerReader F P) (t : Times) (soc : F) (p : P) (s : Switcher F)
      → IsAt true consumers_on_subs_off since s
      → 100 < sub32 t.power_time since
      → f.le bat_min_turn_on_voltage (sensors.get_voltage psens_ch5_mount p).0 ≡ true
      → IsAt true consumers_on_subs_activation t.change_time (loop sensors t no_command soc p s).1
  supplied-IsAt since sensors t soc p s a h v =
      next-IsAt true consumers_on_subs_off consumers_on_subs_activation since sensors t soc p s a
        (λ s2 e r. supplied-Moves sensors t.power_time t.change_time p s2 e (rw r h) v)

  pub ready-IsAt :
      (since : ℕ) (sensors : PowerReader F P) (t : Times) (soc : F) (p : P) (s : Switcher F)
      → IsAt true consumers_on_subs_activation since s
      → 1000 ≤ sub32 t.power_time since
      → IsAt true consumers_on_idle t.change_time (loop sensors t no_command soc p s).1
  ready-IsAt since sensors t soc p s a h =
      next-IsAt true consumers_on_subs_activation consumers_on_idle since sensors t soc p s a
        (λ s2 e r.
          let (at, time, _) = ready-Moves sensors t.power_time t.change_time p s2 e (rw r h) in
          (at, time))
