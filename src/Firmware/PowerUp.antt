-- ===== src/Firmware/PowerUp.antt =====
-- The way of the whole firmware from the off state to the state in which all runs, over several calls
-- of `loop` of src/main.cpp.
use astro_photo_power_box.Prelude.{ℕ, ◌<◌, ◌≤◌, ◌≡◌, Bool, true, [], ◌∷◌, sub32, ap}
use astro_photo_power_box.Gfx.{Gfx}
use astro_photo_power_box.Float.{Float}
use astro_photo_power_box.Board.{Log}
use astro_photo_power_box.RingBuffer.Inv.{IsValid}
use astro_photo_power_box.RingBuffer.Queue as Queue
use astro_photo_power_box.Telegram.Types.{no_command, power_consumers_on}
use astro_photo_power_box.Telegram.Commands.{pending}
use astro_photo_power_box.Switcher.Types.{
  consumers_off_idle, consumers_off_prepare_activation, consumers_on_subs_off,
  consumers_on_subs_activation, consumers_on_idle,
}
use astro_photo_power_box.Switcher.Consumers.{bat_min_turn_on_voltage}
use astro_photo_power_box.Switcher.Loop.PowerUp.{wake-IsAt, power-IsAt, supplied-IsAt, ready-IsAt}
use astro_photo_power_box.NonVolatile.{FileSystem}
use astro_photo_power_box.Sensors.Types.{Psensors, psens_ch5_mount}
use astro_photo_power_box.Firmware.{Firmware, Input, offline}
use astro_photo_power_box.Switcher.Loop.Steps.{IsLocked}
use astro_photo_power_box.Firmware.Sequence.{step-IsUnderWay, next-IsUnderWay}

module _ {F P D : Type 0} ⦃f : Float F⦄ ⦃g : Gfx F⦄ (sensors : Psensors F P)
    (sensors_loop : ℕ → P → P) (fs : FileSystem F D) (digital_read : Log → ℕ → Bool)
    (networks : ℕ) where
  -- The only command in the queue, to switch on, takes the box from the off state to the state in which
  -- all runs in four calls of the components' loops, if the key is locked and the button is not pressed,
  -- the readings of the clock are far enough apart and the voltage of the mount is sufficient whenever
  -- it is measured.
  pub command_powers_up :
      (i0 i1 i2 i3 : Input) (w : Firmware F P D)
      → IsLocked w.switcher
      → w.switcher.consumers_state ≡ consumers_off_idle
      → IsValid w.bot.pending_commands
      → pending w.bot ≡ power_consumers_on ∷ []
      → 200 < sub32 i1.switcher_times.power_time i0.switcher_times.change_time
      → 100 < sub32 i2.switcher_times.power_time i1.switcher_times.change_time
      → 1000 ≤ sub32 i3.switcher_times.power_time i2.switcher_times.change_time
      → ((p : P)
          → f.le bat_min_turn_on_voltage (sensors.reader.get_voltage psens_ch5_mount p).0 ≡ true)
      → let step = offline sensors sensors_loop fs digital_read networks in
        (step i3 (step i2 (step i1 (step i0 w)))).switcher.consumers_state ≡ consumers_on_idle
  unfolding Queue.pop
  command_powers_up i0 i1 i2 i3 w l e v q h1 h2 h3 volts =
      let step = offline sensors sensors_loop fs digital_read networks in
      let w1 = step i0 w in
      let w2 = step i1 w1 in
      let w3 = step i2 w2 in
      let a1 =
        step-IsUnderWay sensors sensors_loop fs digital_read networks true
          consumers_off_prepare_activation power_consumers_on i0 w v
          (ap (λ l. (Queue.pop no_command l).1) q) (ap (λ l. (Queue.pop no_command l).2) q)
          (wake-IsAt sensors.reader i0.switcher_times w.battery.soc w.sensors w.switcher l e) in
      let a2 =
        next-IsUnderWay sensors sensors_loop fs digital_read networks true
          consumers_off_prepare_activation consumers_on_subs_off i0.switcher_times.change_time i1 w1
          a1
          (λ a.
            power-IsAt i0.switcher_times.change_time sensors.reader i1.switcher_times w1.battery.soc
              w1.sensors w1.switcher a h1) in
      let a3 =
        next-IsUnderWay sensors sensors_loop fs digital_read networks true consumers_on_subs_off
          consumers_on_subs_activation i1.switcher_times.change_time i2 w2 a2
          (λ a.
            supplied-IsAt i1.switcher_times.change_time sensors.reader i2.switcher_times
              w2.battery.soc w2.sensors w2.switcher a h2 (volts w2.sensors)) in
      (next-IsUnderWay sensors sensors_loop fs digital_read networks true
        consumers_on_subs_activation consumers_on_idle i2.switcher_times.change_time i3 w3 a3
        (λ a.
          ready-IsAt i2.switcher_times.change_time sensors.reader i3.switcher_times w3.battery.soc
            w3.sensors w3.switcher a h3)).at.state
