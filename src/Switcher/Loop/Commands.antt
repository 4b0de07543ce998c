-- ===== src/Switcher/Loop/Commands.antt =====
-- What a command does to the power request.
use astro_photo_power_box.Prelude.{ℕ, ◌≡◌, Bool, true, false, arith, sub32, ◌≢◌, ◌∙◌}
use astro_photo_power_box.Float.{Float, nought}
use astro_photo_power_box.Sensors.Types.{PowerReader}
use astro_photo_power_box.Telegram.Types.{TelegramCommand, power_consumers_on, power_consumers_off}
use astro_photo_power_box.Switcher.Types.{Switcher, ConsumersState}
use astro_photo_power_box.Switcher.Pins.{set_heater, set_camera, set_mount, set_consumers}
use astro_photo_power_box.Switcher.KeyLock.{button_loop}
use astro_photo_power_box.Switcher.Consumers.{consumer_power_switch, consumer_power_loop}
use astro_photo_power_box.Switcher.Charging.{charge_switch_loop}
use astro_photo_power_box.Switcher.Loop.{Times, handle_command, loop}

module _ {F : Type 0} ⦃f : Float F⦄ where
  heaters_off-request :
      (s : Switcher F)
      → (set_heater 1 nought (set_heater 0 nought s)).consumer_power_request
        ≡ s.consumer_power_request
  unfolding set_heater
  heaters_off-request s = ground arith

module _ {F : Type 0} where
  handle_command-request :
      (command : TelegramCommand) (s : Switcher F)
      → let request = (handle_command command s).consumer_power_request in
        (command ≡ power_consumers_on → request ≡ true)
        × (command ≡ power_consumers_off → request ≡ false)
        × (command ≢ power_consumers_on
            → command ≢ power_consumers_off
            → request ≡ s.consumer_power_request)
  unfolding handle_command
  handle_command-request c s = ground arith

module _ {F P : Type 0} ⦃f : Float F⦄ where
  switch-request :
      (c : ConsumersState) (sensors : PowerReader F P) (requested : Bool) (elapsed : ℕ) (p : P)
      (s : Switcher F)
      → (consumer_power_switch c sensors requested elapsed p s).1.consumer_power_request
        ≡ s.consumer_power_request
  unfolding consumer_power_switch
  switch-request ConsumersState.consumers_off_idle sensors requested elapsed p s =
      ground
        (arith, heaters_off-request (set_camera false (set_mount true (set_consumers false s))))
  switch-request ConsumersState.consumers_off_prepare_activation sensors requested elapsed p s =
      ground (arith, heaters_off-request (set_camera false (set_mount false s)))
  switch-request ConsumersState.consumers_on_subs_off sensors requested elapsed p s = ground arith
  switch-request ConsumersState.consumers_on_subs_activation sensors requested elapsed p s =
      ground arith
  switch-request ConsumersState.consumers_on_idle sensors requested elapsed p s = ground arith
  switch-request ConsumersState.consumers_on_prepare_power_down sensors requested elapsed p s =
      ground arith
  switch-request ConsumersState.consumers_on_wait4pc_shutdown sensors requested elapsed p s =
      ground arith

  power_loop-request :
      (sensors : PowerReader F P) (requested : Bool) (now later : ℕ) (p : P) (s : Switcher F)
      → (consumer_power_loop sensors requested now later p s).1.consumer_power_request
        ≡ s.consumer_power_request
  unfolding consumer_power_loop
  power_loop-request sensors requested now later p s = ground (
    arith,
    switch-request s.consumers_state sensors requested (sub32 now s.last_state_change) p s,
  )

  charge_loop-request :
      (sensors : PowerReader F P) (soc : F) (p : P) (s : Switcher F)
      → (charge_switch_loop sensors soc p s).1.consumer_power_request ≡ s.consumer_power_request
  unfolding charge_switch_loop
  charge_loop-request sensors soc p s = ground arith

  -- Behind the button and the command a call of `loop` does not touch the request.
  pub loop-handle_command :
      (sensors : PowerReader F P) (t : Times) (command : TelegramCommand) (soc : F) (p : P)
      (s : Switcher F)
      → (loop sensors t command soc p s).1.consumer_power_request
        ≡ (handle_command command (button_loop t.button_time s)).consumer_power_request
  unfolding loop
  loop-handle_command sensors t command soc p s =
      let s2 = handle_command command (button_loop t.button_time s) in
      let (p3, s3) =
        consumer_power_loop sensors s2.consumer_power_request t.power_time t.change_time p s2 in
      charge_loop-request sensors soc p3 s3
      ∙ power_loop-request sensors s2.consumer_power_request t.power_time t.change_time p s2

  -- Behind a call of `loop` the power is requested if the command was to switch on, and not requested
  -- if it was to switch off, whatever the button does; any other command leaves what the button asks.
  pub loop-request :
      (sensors : PowerReader F P) (t : Times) (command : TelegramCommand) (soc : F) (p : P)
      (s : Switcher F)
      → let request = (loop sensors t command soc p s).1.consumer_power_request in
        (command ≡ power_consumers_on → request ≡ true)
        × (command ≡ power_consumers_off → request ≡ false)
        × (command ≢ power_consumers_on
            → command ≢ power_consumers_off
            → request ≡ (button_loop t.button_time s).consumer_power_request)
  loop-request sensors t command soc p s =
      let kept = loop-handle_command sensors t command soc p s in
      let (on, off, rest) = handle_command-request command (button_loop t.button_time s) in
      (λ e. kept ∙ on e, λ e. kept ∙ off e, λ ne ne'. kept ∙ rest ne ne')
