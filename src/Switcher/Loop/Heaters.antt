-- ===== src/Switcher/Loop/Heaters.antt =====
-- The heaters' pins: `setHeater` writes a pin only where its value differs from the one remembered.
use astro_photo_power_box.Prelude.{
  ℕ, ◌≡◌, Bool, true, false, List, [], ◌∷◌, pos, ◌==◌, arith, refl, if◌then◌else◌, Bool-cases, inl,
  inr, sub32,
}
use astro_photo_power_box.Float.{Float, nought}
use astro_photo_power_box.Board.{analog}
use astro_photo_power_box.Sensors.Types.{PowerReader}
use astro_photo_power_box.Telegram.Types.{TelegramCommand}
use astro_photo_power_box.Switcher.Types.{
  Switcher, ConsumersState, consumers_off_idle, consumers_off_prepare_activation,
  consumers_on_subs_off, consumers_on_subs_activation, consumers_on_idle,
  consumers_on_prepare_power_down, consumers_on_wait4pc_shutdown, pin_heater1, pin_heater2,
  state_number, start as start_state,
}
use astro_photo_power_box.Switcher.Pins.{
  set_heater, heater_pwm, set_consumers, set_mount, set_camera,
}
use astro_photo_power_box.Switcher.KeyLock.{button_isr, button_loop}
use astro_photo_power_box.Switcher.Consumers.{consumer_power_switch, consumer_power_loop}
use astro_photo_power_box.Switcher.Charging.{charge_switch_loop}
use astro_photo_power_box.Switcher.Loop.{Times, handle_command, loop}
use astro_photo_power_box.Switcher.Loop.Safety.{Happening, isr, call, happen, history}

module _ {F : Type 0} where
  -- What is remembered of the heaters is what their pins were given last, or zero.
  pub record IsDriven (s : Switcher F) : Type 0 where
    pub first : analog (pos 0) pin_heater1 s.log ≡ s.heater1_pwm
    pub second : analog (pos 0) pin_heater2 s.log ≡ s.heater2_pwm

  button_loop-IsDriven : (t : ℕ) (s : Switcher F) → IsDriven s → IsDriven (button_loop t s)
  unfolding button_loop analog
  button_loop-IsDriven t s d = ground arith

  handle_command-IsDriven :
      (c : TelegramCommand) (s : Switcher F) → IsDriven s → IsDriven (handle_command c s)
  unfolding handle_command
  handle_command-IsDriven c s d = ground arith

module _ {F : Type 0} ⦃f : Float F⦄ where
  set_heater-IsDriven : (n : ℕ) (w : F) (s : Switcher F) → IsDriven s → IsDriven (set_heater n w s)
  unfolding set_heater analog
  set_heater-IsDriven n w s d = ground arith

  set_heater-analog :
      (n : ℕ) (w : F) (s : Switcher F)
      → IsDriven s
      → let s' = set_heater n w s in
        (analog (pos 0) pin_heater1 s'.log
          ≡ (if n == 0 then heater_pwm w else analog (pos 0) pin_heater1 s.log))
        × (analog (pos 0) pin_heater2 s'.log
            ≡ (if n == 0 then analog (pos 0) pin_heater2 s.log else heater_pwm w))
  unfolding set_heater analog
  set_heater-analog n w s d = (ground arith, ground arith)

module _ {F P : Type 0} ⦃f : Float F⦄ (sensors : PowerReader F P) where
  heaters_off-IsDriven :
      (s : Switcher F) → IsDriven s → IsDriven (set_heater 1 nought (set_heater 0 nought s))
  heaters_off-IsDriven s d =
      set_heater-IsDriven 1 nought (set_heater 0 nought s) (set_heater-IsDriven 0 nought s d)

  switch-IsDriven :
      (c : ConsumersState) (requested : Bool) (elapsed : ℕ) (p : P) (s : Switcher F)
      → IsDriven s
      → IsDriven (consumer_power_switch c sensors requested elapsed p s).1
  unfolding consumer_power_switch analog
  switch-IsDriven consumers_off_idle requested elapsed p s d =
      let before = set_camera false (set_mount true (set_consumers false s)) in
      let h = heaters_off-IsDriven before (record { first = d.first; second = d.second }) in
      ground (arith, h)
  switch-IsDriven consumers_off_prepare_activation requested elapsed p s d =
      let before = set_camera false (set_mount false s) in
      let h = heaters_off-IsDriven before (record { first = d.first; second = d.second }) in
      ground (arith, h)
  switch-IsDriven consumers_on_subs_off requested elapsed p s d = ground arith
  switch-IsDriven consumers_on_subs_activation requested elapsed p s d = ground arith
  switch-IsDriven consumers_on_idle requested elapsed p s d = ground arith
  switch-IsDriven consumers_on_prepare_power_down requested elapsed p s d = ground arith
  switch-IsDriven consumers_on_wait4pc_shutdown requested elapsed p s d = ground arith

  consumer_power_loop-IsDriven :
      (requested : Bool) (now later : ℕ) (p : P) (s : Switcher F)
      → IsDriven s
      → IsDriven (consumer_power_loop sensors requested now later p s).1
  unfolding consumer_power_loop
  consumer_power_loop-IsDriven requested now later p s d =
      let elapsed = sub32 now s.last_state_change in
      let s' = (consumer_power_switch s.consumers_state sensors requested elapsed p s).1 in
      let d' = switch-IsDriven s.consumers_state requested elapsed p s d in
      elim (Bool-cases (state_number s'.consumers_state == state_number s.consumers_state)) [
        | inl t ↦ rw t d'
        | inr t ↦ rw t (record { first = d'.first; second = d'.second })
      ]

  charge_switch_loop-IsDriven :
      (soc : F) (p : P) (s : Switcher F)
      → IsDriven s
      → IsDriven (charge_switch_loop sensors soc p s).1
  unfolding charge_switch_loop analog
  charge_switch_loop-IsDriven soc p s d = ground arith

  loop-IsDriven :
      (t : Times) (command : TelegramCommand) (soc : F) (p : P) (s : Switcher F)
      → IsDriven s
      → IsDriven (loop sensors t command soc p s).1
  unfolding loop
  loop-IsDriven t command soc p s d =
      let s1 = button_loop t.button_time s in
      let s2 = handle_command command s1 in
      let (p3, s3) =
        consumer_power_loop sensors s2.consumer_power_request t.power_time t.change_time p s2 in
      charge_switch_loop-IsDriven soc p3 s3 (
        consumer_power_loop-IsDriven s2.consumer_power_request t.power_time t.change_time p s2
          (handle_command-IsDriven command s1 (button_loop-IsDriven t.button_time s d)))

  history-IsDriven :
      (hs : List (Happening F)) (p : P) (s : Switcher F)
      → IsDriven s
      → IsDriven (history sensors hs p s).1
  unfolding history happen
  history-IsDriven [] p s d = d
  history-IsDriven (isr b t ∷ hs) p s d =
      history-IsDriven hs p (record s { btn_info = button_isr b t s.btn_info })
        (record { first = d.first; second = d.second })
  history-IsDriven (call t command soc ∷ hs) p s d =
      let (p', s') = loop sensors t command soc p s in
      history-IsDriven hs p' s' (loop-IsDriven t command soc p s d)

  -- After any interrupts, commands and calls of `loop` from the initial values, `setHeater` gives the
  -- pin of the heater the PWM value of the power, whether or not it writes the pin (which it does only
  -- where the value differs from the remembered one), and the other heater's pin keeps its value. A pin
  -- that was never written counts as zero; a number other than 0 stands for the second heater.
  pub heater_pins :
      (hs : List (Happening F)) (p : P) (n : ℕ) (w : F)
      → let s = (history sensors hs p start_state).1 in
        let s' = set_heater n w s in
        (analog (pos 0) pin_heater1 s'.log
          ≡ (if n == 0 then heater_pwm w else analog (pos 0) pin_heater1 s.log))
        × (analog (pos 0) pin_heater2 s'.log
            ≡ (if n == 0 then analog (pos 0) pin_heater2 s.log else heater_pwm w))
  heater_pins hs p n w = set_heater-analog n w (history sensors hs p start_state).1 (
      history-IsDriven hs p start_state
        (unfold start_state in unfold analog in record { first = refl; second = refl }))
