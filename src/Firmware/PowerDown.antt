-- ===== src/Firmware/PowerDown.antt =====
-- The way of the whole firmware from the state in which all runs to the off state, over several calls of
-- `loop` of src/main.cpp.
use astro_photo_power_box.Prelude.{
  false, ℕ, pos, ◌⊎◌, inl, inr, ◌<◌, ◌≡◌, Bool, true, [], ◌∷◌, sub32, ap,
}
use astro_photo_power_box.Gfx.{Gfx}
use astro_photo_power_box.Float.{Float}
use astro_photo_power_box.Board.{Log}
use astro_photo_power_box.RingBuffer.Inv.{IsValid}
use astro_photo_power_box.RingBuffer.Queue as Queue
use astro_photo_power_box.Telegram.Types.{no_command, power_consumers_off}
use astro_photo_power_box.Telegram.Commands.{pending}
use astro_photo_power_box.Switcher.Types.{
  consumers_off_idle, consumers_on_prepare_power_down, consumers_on_wait4pc_shutdown,
  consumers_on_idle,
}
use astro_photo_power_box.Switcher.Loop.PowerDown.{leave-IsAt, mount_off-IsAt, pc_off-IsAt}
use astro_photo_power_box.NonVolatile.{FileSystem}
use astro_photo_power_box.Sensors.Types.{Psensors, psens_ch4_pc}
use astro_photo_power_box.Firmware.{Firmware, Input, offline}
use astro_photo_power_box.Switcher.Loop.Steps.{IsLocked}
use astro_photo_power_box.Firmware.Sequence.{step-IsUnderWay, next-IsUnderWay}

module _ {F P D : Type 0} ⦃f : Float F⦄ ⦃g : Gfx F⦄ (sensors : Psensors F P)
    (sensors_loop : ℕ → P → P) (fs : FileSystem F D) (digital_read : Log → ℕ → Bool)
    (networks : ℕ) where
  at_sensors :
      {time : Type 0} (p : P)
      → ((p : P) → f.lt_double (sensors.reader.get_current psens_ch4_pc p).0 (pos 2) 1 ≡ true)
        ⊎ time
      → (f.lt_double (sensors.reader.get_current psens_ch4_pc p).0 (pos 2) 1 ≡ true) ⊎ time
  at_sensors p (inl h) = inl (h p)
  at_sensors p (inr h) = inr h

  -- The only command in the queue, to switch off, takes the box from the state in which all runs to the
  -- off state in three calls of the components' loops, if the key is locked and the button is not
  -- pressed, the first two readings of the clock are far enough apart, and the PC draws less than 0.2 A
  -- whenever it is measured or the third call comes more than an hour later.
  pub command_powers_down :
      (i0 i1 i2 : Input) (w : Firmware F P D)
      → IsLocked w.switcher
      → w.switcher.consumers_state ≡ consumers_on_idle
      → IsValid w.bot.pending_commands
      → pending w.bot ≡ power_consumers_off ∷ []
      → 200 < sub32 i1.switcher_times.power_time i0.switcher_times.change_time
      → ((p : P) → f.lt_double (sensors.reader.get_current psens_ch4_pc p).0 (pos 2) 1 ≡ true)
        ⊎ (3600000 < sub32 i2.switcher_times.power_time i1.switcher_times.change_time)
      → let step = offline sensors sensors_loop fs digital_read networks in
        let w2 = step i1 (step i0 w) in
        (w2.switcher.consumers_state ≡ consumers_on_wait4pc_shutdown)
        × ((step i2 w2).switcher.consumers_state ≡ consumers_off_idle)
  unfolding Queue.pop
  command_powers_down i0 i1 i2 w l e v q h1 h2 =
      let step = offline sensors sensors_loop fs digital_read networks in
      let w1 = step i0 w in
      let w2 = step i1 w1 in
      let a1 =
        step-IsUnderWay sensors sensors_loop fs digital_read networks false
          consumers_on_prepare_power_down power_consumers_off i0 w v
          (ap (λ l. (Queue.pop no_command l).1) q) (ap (λ l. (Queue.pop no_command l).2) q)
          (leave-IsAt sensors.reader i0.switcher_times w.battery.soc w.sensors w.switcher l e) in
      let a2 =
        next-IsUnderWay sensors sensors_loop fs digital_read networks false
          consumers_on_prepare_power_down consumers_on_wait4pc_shutdown
          i0.switcher_times.change_time i1 w1 a1
          (λ a.
            mount_off-IsAt i0.switcher_times.change_time sensors.reader i1.switcher_times
              w1.battery.soc w1.sensors w1.switcher a h1) in
      let a3 =
        next-IsUnderWay sensors sensors_loop fs digital_read networks false
          consumers_on_wait4pc_shutdown consumers_off_idle i1.switcher_times.change_time i2 w2 a2
          (λ a.
            pc_off-IsAt i1.switcher_times.change_time sensors.reader i2.switcher_times
              w2.battery.soc w2.sensors w2.switcher a (at_sensors w2.sensors h2)) in
      (a2.at.state, a3.at.state)
