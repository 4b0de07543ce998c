-- ===== src/Firmware/History/InStep.antt =====
-- The relays over the histories of the whole box.
use astro_photo_power_box.Prelude.{
  ℕ, ◌≡◌, ◌∙◌, Bool, true, false, List, [], ◌∷◌, arith, refl, if◌then◌else◌, Bool-cases, inl, inr,
}
use astro_photo_power_box.Gfx.{Gfx}
use astro_photo_power_box.Float.{Float}
use astro_photo_power_box.Board.{Log, level}
use astro_photo_power_box.Telegram.Bot.{get_and_clear_command}
use astro_photo_power_box.Telegram.Handling.{HasNoRelayQuery, handle_messages-switcher}
use astro_photo_power_box.Switcher.Types.{ConsumersState, Switcher, start as switcher_start}
use astro_photo_power_box.Switcher.Pins.{set_heater, setup as switcher_setup}
use astro_photo_power_box.Switcher.Consumers.Outputs.{AreRelaysInState}
use astro_photo_power_box.Switcher.Loop.Safety.{loop-AreRelaysInState}
use astro_photo_power_box.Switcher.Loop.Rest.{AreReleased, loop_releases}
use astro_photo_power_box.Oled.{Display}
use astro_photo_power_box.Firmware.{started_bot}
use astro_photo_power_box.NonVolatile.{FileSystem}
use astro_photo_power_box.Connection.{is_connected}
use astro_photo_power_box.Ota.{
  Ota, OtaEvent, ota_start, ota_end, ota_error, ota_progress, ready_4_update, on_event, on_events,
  handle, is_updating,
}
use astro_photo_power_box.Ota.Gate.{ready_4_update_lem}
use astro_photo_power_box.Sensors.Types.{Psensors}
use astro_photo_power_box.Firmware.{Firmware, Input, DisplayInput, setup, online, offline, loop}
use astro_photo_power_box.Firmware.History.{
  Happening, isr, got_ip, disconnected, chat_button, call, happen, history, power_on, box_after,
}

-- No call of `loop` finds a query that names a relay among the messages.
unfoldable pub HasNoRelayQueries : List Happening → Type 0
unfolding HasNoRelayQuery
HasNoRelayQueries [] = Unit
HasNoRelayQueries (call i ∷ hs) = HasNoRelayQuery i.messages × HasNoRelayQueries hs
HasNoRelayQueries (isr level t ∷ hs) = HasNoRelayQueries hs
HasNoRelayQueries (got_ip t t' ip ∷ hs) = HasNoRelayQueries hs
HasNoRelayQueries (disconnected t t' ∷ hs) = HasNoRelayQueries hs
HasNoRelayQueries (chat_button b t msg ∷ hs) = HasNoRelayQueries hs

-- The switcher's relays are in step with the state of its power sequence.
abbrev InStep : {F : Type 0} → Bool → Switcher F → Type 0
InStep start s = AreRelaysInState start s.consumers_state s

module _ {F : Type 0} where
  off-InStep :
      (start : Bool) (s : Switcher F)
      → s.consumers_state ≡ ConsumersState.consumers_off_idle
      → InStep start s
  off-InStep start s e = ground arith

module _ {F : Type 0} ⦃f : Float F⦄ ⦃g : Gfx F⦄ where
  on_event-state :
      (e : OtaEvent) (o : Ota) (s : Switcher F) (d : Display F)
      → (on_event e o s d).1.consumers_state ≡ s.consumers_state
  unfolding on_event set_heater
  on_event-state ota_start o s d = ground arith
  on_event-state (ota_progress m n) o s d = refl
  on_event-state (ota_error t n) o s d = refl
  on_event-state ota_end o s d = ground arith

  on_events-state :
      (es : List OtaEvent) (o : Ota) (s : Switcher F) (d : Display F)
      → (on_events es o s d).1.consumers_state ≡ s.consumers_state
  unfolding on_events
  on_events-state [] o s d = refl
  on_events-state (e ∷ es) o s d =
      let (o', s', d') = on_event e o s d in on_events-state es o' s' d' ∙ on_event-state e o s d

  -- The update library may switch the relays only in the state in which all may be off.
  handle-InStep :
      (start : Bool) (es : List OtaEvent) (o : Ota) (s : Switcher F) (d : Display F)
      → InStep start s
      → InStep start (handle es o s d).1
  unfolding handle
  handle-InStep start es o s d r = elim (Bool-cases (ready_4_update s)) [
    | inl e ↦ rw e (
        off-InStep start (on_events es o s d).1
          (on_events-state es o s d ∙ (ready_4_update_lem s).1 e))
    | inr e ↦ rw e r
  ]

module _ {F P D : Type 0} ⦃f : Float F⦄ ⦃g : Gfx F⦄ (start : Bool) (sensors : Psensors F P)
    (sensors_loop : ℕ → P → P) (fs : FileSystem F D) (digital_read : Log → ℕ → Bool)
    (networks : ℕ) where
  if-InStep :
      (c : Bool) (x y : Firmware F P D)
      → InStep start x.switcher
      → InStep start y.switcher
      → InStep start (if c then x else y).switcher
  if-InStep true x y h k = h
  if-InStep false x y h k = k

  pub online-switcher :
      (i : Input) (w : Firmware F P D)
      → HasNoRelayQuery i.messages
      → (online sensors sensors_loop fs digital_read networks i w).switcher ≡ w.switcher
  unfolding online
  online-switcher i w h =
      handle_messages-switcher sensors.reader w.battery 10 i.message_time i.messages w.bot
        w.switcher w.display w.sensors h

  offline-InStep :
      (i : Input) (w : Firmware F P D)
      → InStep start w.switcher
      → InStep start (offline sensors sensors_loop fs digital_read networks i w).switcher
  unfolding offline
  offline-InStep i w r =
      loop-AreRelaysInState sensors.reader start i.switcher_times
        (get_and_clear_command (started_bot i w.connection w.bot)).0 w.battery.soc w.sensors
        w.switcher r

  pub offline-AreReleased :
      (i : Input) (w : Firmware F P D)
      → w.switcher.consumers_state ≡ ConsumersState.consumers_off_idle
      → let s' = (offline sensors sensors_loop fs digital_read networks i w).switcher in
        s'.consumers_state ≡ ConsumersState.consumers_off_idle → AreReleased start s'
  unfolding offline
  offline-AreReleased i w e e' =
      loop_releases sensors.reader start i.switcher_times
        (get_and_clear_command (started_bot i w.connection w.bot)).0 w.battery.soc w.sensors
        w.switcher e e'

  loop-InStep :
      (i : Input) (w : Firmware F P D)
      → HasNoRelayQuery i.messages
      → InStep start w.switcher
      → InStep start (loop sensors sensors_loop fs digital_read networks i w).switcher
  unfolding loop
  loop-InStep i w h r =
      let (ota, switcher, display) = handle i.ota_events w.ota w.switcher w.display in
      let handled = record w { ota = ota; switcher = switcher; display = display } in
      let r' = handle-InStep start i.ota_events w.ota w.switcher w.display r in
      if-InStep (is_connected w.connection) _ _
        (if-InStep (is_updating ota) handled _ r' (
          offline-InStep i (online sensors sensors_loop fs digital_read networks i handled)
            (rw (online-switcher i handled h) r')))
        (offline-InStep i w r)

  history-InStep :
      (hs : List Happening) (w : Firmware F P D)
      → HasNoRelayQueries hs
      → InStep start w.switcher
      → InStep start (history sensors sensors_loop fs digital_read networks hs w).switcher
  unfolding history happen HasNoRelayQueries
  history-InStep [] w h r = r
  history-InStep (isr level t ∷ hs) w h r =
      history-InStep hs _ h
        (record { quiet = r.quiet; powered = r.powered; serving = r.serving; closing = r.closing })
  history-InStep (got_ip t t' ip ∷ hs) w h r = history-InStep hs _ h r
  history-InStep (disconnected t t' ∷ hs) w h r = history-InStep hs _ h r
  history-InStep (chat_button b t msg ∷ hs) w h r = history-InStep hs _ h r
  history-InStep (call i ∷ hs) w h r = history-InStep hs _ h.1 (loop-InStep i w h.0 r)

  powered_off :
      (switcher_setup (switcher_start ⦃f = f⦄)).consumers_state ≡ ConsumersState.consumers_off_idle
  unfolding switcher_setup switcher_start
  powered_off = refl

  -- From power-on, over any interrupts, events of the Wi-Fi stack, buttons in the chat, updates and calls
  -- of `loop`, and whatever the sensors say, as long as no query from the chat names a relay by its
  -- number: before the supply comes up the mount and the camera are off, the supply is on in the states
  -- after that, in the idle state the mount and the camera are on, and the mount is off while the PC is
  -- waited for. Where the components' loops then run once more and the consumers are off before and after
  -- it, the supply and the camera are off and the mount's relay is released. Nothing is said of the
  -- charger, nor of the relays in the state that prepares the activation.
  pub box-AreRelaysInState :
      (sensors_setup : P → P) (time : ℕ) (i : DisplayInput) (p : P) (d : D) (hs : List Happening)
      (next : Input)
      → HasNoRelayQueries hs
      → let w =
          box_after sensors sensors_loop fs digital_read networks sensors_setup time i p d hs in
        let s = w.switcher in
        let s' = (offline sensors sensors_loop fs digital_read networks next w).switcher in
        AreRelaysInState start s.consumers_state s
        × (s.consumers_state ≡ ConsumersState.consumers_off_idle
            → s'.consumers_state ≡ ConsumersState.consumers_off_idle
            → AreReleased start s')
  unfolding box_after setup power_on
  box-AreRelaysInState sensors_setup time i p d hs next h = (
    history-InStep hs _ h (off-InStep start (switcher_setup (switcher_start ⦃f = f⦄)) powered_off),
    offline-AreReleased next _,
  )
