-- ===== src/Firmware/History/StaysOff.antt =====
-- What may switch the consumers on, over the histories of the whole box.
use astro_photo_power_box.RingBuffer.{rb_base, remaining_elm}
use astro_photo_power_box.RingBuffer.Contents.{elements}
use astro_photo_power_box.Telegram.Commands.{bot-IsValid}
use astro_photo_power_box.Telegram.Bot.{bot}
use astro_photo_power_box.Telegram.Orders.{HasNoOn}
use astro_photo_power_box.Switcher.Types.{KeyLockState, start as switcher_start}
use astro_photo_power_box.Switcher.Pins.{setup as switcher_setup}
use astro_photo_power_box.Firmware.{DisplayInput, setup}
use astro_photo_power_box.Firmware.History.{power_on, box_after}
use astro_photo_power_box.Prelude.{
  refl, ◌≡◌, ℕ, ◌≢◌, Bool, true, false, List, [], ◌∷◌, if◌then◌else◌,
}
use astro_photo_power_box.Gfx.{Gfx}
use astro_photo_power_box.Float.{Float}
use astro_photo_power_box.Board.{Log, level}
use astro_photo_power_box.Telegram.Bot.{get_and_clear_command}
use astro_photo_power_box.Telegram.Keyboards.{relay_consumers}
use astro_photo_power_box.Telegram.Orders.{
  HasNoOrder, same_queue-HasNoOrder, get_and_clear_command-HasNoOrder, handle_messages-HasNoOrder,
  press-HasNoOrder,
}
use astro_photo_power_box.Switcher.Types.{consumers_off_idle, pin_consumers}
use astro_photo_power_box.Telegram.Handling.{HasNoRelayQuery}
use astro_photo_power_box.Switcher.Loop.Steps.{rest-IsAt}
use astro_photo_power_box.Firmware.{started_bot}
use astro_photo_power_box.Firmware.Starting.{started_bot-queue}
use astro_photo_power_box.NonVolatile.{FileSystem}
use astro_photo_power_box.Connection.{is_connected}
use astro_photo_power_box.Ota.{handle, is_updating}
use astro_photo_power_box.Sensors.Types.{Psensors}
use astro_photo_power_box.Firmware.{Firmware, Input, online, offline, loop}
use astro_photo_power_box.Firmware.History.{
  Happening, isr, got_ip, disconnected, chat_button, call, happen, history,
}
use astro_photo_power_box.Firmware.History.InStep.{HasNoRelayQueries, offline-AreReleased}
use astro_photo_power_box.Firmware.History.Supply.{handle-IsCut}
use astro_photo_power_box.Firmware.History.Resting.{Rests, handle_messages-Rests, handle-Rests}

-- Nobody touches the button on the box, or the button for the consumers in the chat.
unfoldable pub IsUntouched : List Happening → Type 0
IsUntouched [] = Unit
IsUntouched (isr level t ∷ hs) = ⊥
IsUntouched (got_ip t t' ip ∷ hs) = IsUntouched hs
IsUntouched (disconnected t t' ∷ hs) = IsUntouched hs
IsUntouched (chat_button b t msg ∷ hs) = (b ≢ relay_consumers) × IsUntouched hs
IsUntouched (call i ∷ hs) = IsUntouched hs

-- The box rests, and no command in the queue is to switch on.
record IsAsleep {F P D : Type 0} (since : ℕ) (w : Firmware F P D) : Type 0 where
  rests : Rests since w.switcher
  no_order : HasNoOrder w.bot

module _ {F P D : Type 0} ⦃f : Float F⦄ ⦃g : Gfx F⦄ (sensors : Psensors F P)
    (sensors_loop : ℕ → P → P) (fs : FileSystem F D) (digital_read : Log → ℕ → Bool)
    (networks : ℕ) where
  if-IsAsleep :
      (since : ℕ) (c : Bool) (x y : Firmware F P D)
      → IsAsleep since x
      → IsAsleep since y
      → IsAsleep since (if c then x else y)
  if-IsAsleep since true x y h k = h
  if-IsAsleep since false x y h k = k

  online-IsAsleep :
      (since : ℕ) (i : Input) (w : Firmware F P D)
      → IsAsleep since w
      → IsAsleep since (online sensors sensors_loop fs digital_read networks i w)
  unfolding online
  online-IsAsleep since i w a = record {
    rests =
        handle_messages-Rests sensors.reader w.battery since 10 i.message_time i.messages w.bot
          w.switcher w.display w.sensors a.rests;
    no_order =
        handle_messages-HasNoOrder sensors.reader w.battery 10 i.message_time i.messages w.bot
          w.switcher w.display w.sensors a.no_order;
  }

  offline-IsAsleep :
      (since : ℕ) (i : Input) (w : Firmware F P D)
      → IsAsleep since w
      → IsAsleep since (offline sensors sensors_loop fs digital_read networks i w)
  unfolding offline
  offline-IsAsleep since i w a =
      let b = started_bot i w.connection w.bot in
      let (ne, o) =
        get_and_clear_command-HasNoOrder b
          (same_queue-HasNoOrder w.bot b (started_bot-queue i w.connection w.bot) a.no_order) in
      record {
        rests =
            rest-IsAt since sensors.reader i.switcher_times (get_and_clear_command b).0
              w.battery.soc w.sensors w.switcher ne a.rests;
        no_order = o;
      }

  loop-IsAsleep :
      (since : ℕ) (i : Input) (w : Firmware F P D)
      → IsAsleep since w
      → IsAsleep since (loop sensors sensors_loop fs digital_read networks i w)
  unfolding loop
  loop-IsAsleep since i w a =
      let (ota, switcher, display) = handle i.ota_events w.ota w.switcher w.display in
      let handled = record w { ota = ota; switcher = switcher; display = display } in
      let a' : IsAsleep since handled = record {
        rests = handle-Rests since i.ota_events w.ota w.switcher w.display a.rests;
        no_order = a.no_order;
      } in
      if-IsAsleep since (is_connected w.connection) _ _
        (if-IsAsleep since (is_updating ota) handled _ a'
          (offline-IsAsleep since i _ (online-IsAsleep since i handled a')))
        (offline-IsAsleep since i w a)

  history-IsAsleep :
      (since : ℕ) (hs : List Happening) (w : Firmware F P D)
      → IsUntouched hs
      → IsAsleep since w
      → IsAsleep since (history sensors sensors_loop fs digital_read networks hs w)
  unfolding history happen IsUntouched
  history-IsAsleep since [] w u a = a
  history-IsAsleep since (isr level t ∷ hs) w u a = absurd u
  history-IsAsleep since (got_ip t t' ip ∷ hs) w u a =
      history-IsAsleep since hs _ u (record { rests = a.rests; no_order = a.no_order })
  history-IsAsleep since (disconnected t t' ∷ hs) w u a =
      history-IsAsleep since hs _ u (record { rests = a.rests; no_order = a.no_order })
  history-IsAsleep since (chat_button b t msg ∷ hs) w u a =
      history-IsAsleep since hs _ u.1 (record {
        rests = a.rests;
        no_order = press-HasNoOrder digital_read b t msg w.switcher w.bot w.display u.0 a.no_order;
      })
  history-IsAsleep since (call i ∷ hs) w u a =
      history-IsAsleep since hs _ u (loop-IsAsleep since i w a)

  -- The pin that switches the supply is low, if it counts as low until it is first written.
  if-IsCut :
      (c : Bool) (x y : Firmware F P D)
      → level false pin_consumers x.switcher.log ≡ false
      → level false pin_consumers y.switcher.log ≡ false
      → level false pin_consumers (if c then x else y).switcher.log ≡ false
  if-IsCut true x y h k = h
  if-IsCut false x y h k = k

  offline-IsCut :
      (since : ℕ) (i : Input) (w : Firmware F P D)
      → IsAsleep since w
      → level false pin_consumers
          (offline sensors sensors_loop fs digital_read networks i w).switcher.log
        ≡ false
  offline-IsCut since i w a =
      (offline-AreReleased false sensors sensors_loop fs digital_read networks i w a.rests.state
        (offline-IsAsleep since i w a).rests.state).0

  loop-IsCut :
      (since : ℕ) (i : Input) (w : Firmware F P D)
      → HasNoRelayQuery i.messages
      → IsAsleep since w
      → level false pin_consumers w.switcher.log ≡ false
      → level false pin_consumers
          (loop sensors sensors_loop fs digital_read networks i w).switcher.log
        ≡ false
  unfolding loop
  loop-IsCut since i w q a low =
      let (ota, switcher, display) = handle i.ota_events w.ota w.switcher w.display in
      let handled = record w { ota = ota; switcher = switcher; display = display } in
      let a' : IsAsleep since handled = record {
        rests = handle-Rests since i.ota_events w.ota w.switcher w.display a.rests;
        no_order = a.no_order;
      } in
      if-IsCut (is_connected w.connection) _ _
        (if-IsCut (is_updating ota) handled _
          (handle-IsCut i.ota_events w.ota w.switcher w.display low)
          (offline-IsCut since i _ (online-IsAsleep since i handled a')))
        (offline-IsCut since i w a)

  history-IsCut :
      (since : ℕ) (hs : List Happening) (w : Firmware F P D)
      → IsUntouched hs
      → HasNoRelayQueries hs
      → IsAsleep since w
      → level false pin_consumers w.switcher.log ≡ false
      → level false pin_consumers
          (history sensors sensors_loop fs digital_read networks hs w).switcher.log
        ≡ false
  unfolding history happen IsUntouched HasNoRelayQueries
  history-IsCut since [] w u q a low = low
  history-IsCut since (isr level t ∷ hs) w u q a low = absurd u
  history-IsCut since (got_ip t t' ip ∷ hs) w u q a low =
      history-IsCut since hs _ u q (record { rests = a.rests; no_order = a.no_order }) low
  history-IsCut since (disconnected t t' ∷ hs) w u q a low =
      history-IsCut since hs _ u q (record { rests = a.rests; no_order = a.no_order }) low
  history-IsCut since (chat_button b t msg ∷ hs) w u q a low =
      history-IsCut since hs _ u.1 q
        (record {
          rests = a.rests;
          no_order =
              press-HasNoOrder digital_read b t msg w.switcher w.bot w.display u.0 a.no_order;
        })
        low
  history-IsCut since (call i ∷ hs) w u q a low =
      history-IsCut since hs _ u q.1 (loop-IsAsleep since i w a) (loop-IsCut since i w q.0 a low)

  setup-IsAsleep :
      (sensors_setup : P → P) (time : ℕ) (i : DisplayInput) (p : P) (d : D)
      → IsAsleep 0 (
          setup sensors sensors_loop fs digital_read networks sensors_setup time i
            (power_on sensors sensors_loop fs digital_read networks p d))
  unfolding setup power_on switcher_setup switcher_start bot rb_base HasNoOn elements remaining_elm
  setup-IsAsleep sensors_setup time i p d = record {
    rests = record {
      is_locked = record { locked = refl; released = refl };
      requested = refl;
      state = refl;
      changed = refl;
    };
    no_order = record { valid = bot-IsValid; no_on = tt };
  }

  setup-IsCut :
      (sensors_setup : P → P) (time : ℕ) (i : DisplayInput) (p : P) (d : D)
      → level false pin_consumers
          (setup sensors sensors_loop fs digital_read networks sensors_setup time i
            (power_on sensors sensors_loop fs digital_read networks p d)).switcher.log
        ≡ false
  unfolding setup power_on switcher_setup switcher_start level
  setup-IsCut sensors_setup time i p d = refl

  -- From power-on, over any events of the Wi-Fi stack, updates, messages and calls of `loop`, the
  -- consumers stay off, the key stays locked and no power is requested, as long as there is no interrupt
  -- of the button on the box and nobody uses the button for the consumers in the chat. If no query
  -- from the chat names a relay by its number either, the pin that switches the supply is low, taken as
  -- low until it is first written.
  pub box_stays_off :
      (sensors_setup : P → P) (time : ℕ) (i : DisplayInput) (p : P) (d : D) (hs : List Happening)
      → IsUntouched hs
      → let s =
          (box_after sensors sensors_loop fs digital_read networks sensors_setup time i p d
            hs).switcher in
        (s.consumers_state ≡ consumers_off_idle)
        × (s.key_lock_state ≡ KeyLockState.locked_idle)
        × (s.consumer_power_request ≡ false)
        × (HasNoRelayQueries hs → level false pin_consumers s.log ≡ false)
  unfolding box_after
  box_stays_off sensors_setup time i p d hs u =
      let a = setup-IsAsleep sensors_setup time i p d in
      let r = (history-IsAsleep 0 hs _ u a).rests in
      (
        r.state,
        r.is_locked.locked,
        r.requested,
        λ q. history-IsCut 0 hs _ u q a (setup-IsCut sensors_setup time i p d),
      )
