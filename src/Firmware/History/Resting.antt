-- ===== src/Firmware/History/Resting.antt =====
-- What the chat and the update leave of a switcher that rests in the off state.
use astro_photo_power_box.Prelude.{ℕ, false, List, [], ◌∷◌, arith, Bool-cases, inl, inr, zero, suc}
use astro_photo_power_box.Gfx.{Gfx}
use astro_photo_power_box.Float.{Float}
use astro_photo_power_box.Telegram.Bot.{
  Bot, Message, MessageType, message_query, message_text, message_reply, message_other,
  handle_query, handle_message, handle_messages, show_message,
}
use astro_photo_power_box.Telegram.Handling.{by_type}
use astro_photo_power_box.Switcher.Types.{consumers_off_idle, Switcher}
use astro_photo_power_box.Switcher.Pins.{set_heater}
use astro_photo_power_box.Switcher.Loop.Steps.{IsAt}
use astro_photo_power_box.Sensors.Types.{PowerReader}
use astro_photo_power_box.Battery.{Battery}
use astro_photo_power_box.Oled.{Display}
use astro_photo_power_box.Ota.{
  Ota, OtaEvent, ota_start, ota_end, ota_error, ota_progress, ready_4_update, on_event, on_events,
  handle,
}

-- The consumers are off since this time, and not requested.
abbrev pub Rests : {F : Type 0} → ℕ → Switcher F → Type 0
Rests since s = IsAt false consumers_off_idle since s

module _ {F : Type 0} where
  handle_query-Rests :
      (since : ℕ) (msg : Message) (b : Bot) (s : Switcher F)
      → Rests since s
      → Rests since (handle_query msg b s).1
  unfolding handle_query
  handle_query-Rests since msg b s a = ground arith

module _ {F P : Type 0} ⦃f : Float F⦄ (sensors : PowerReader F P) (battery : Battery F) where
  by_type-Rests :
      (since : ℕ) (t : MessageType) (msg : Message) (b : Bot) (s : Switcher F) (p : P)
      → Rests since s
      → Rests since (by_type sensors battery t msg b s p).1
  by_type-Rests since message_query msg b s p a = handle_query-Rests since msg b s a
  by_type-Rests since message_text msg b s p a = a
  by_type-Rests since message_reply msg b s p a = a
  by_type-Rests since message_other msg b s p a = a

  handle_message-Rests :
      (since : ℕ) (msg : Message) (b : Bot) (s : Switcher F) (p : P)
      → Rests since s
      → Rests since (handle_message sensors battery msg b s p).1
  unfolding handle_message
  handle_message-Rests since msg b s p a = by_type-Rests since msg.message_type msg b s p a

  pub handle_messages-Rests :
      (since left time : ℕ) (msgs : List Message) (b : Bot) (s : Switcher F) (d : Display F) (p : P)
      → Rests since s
      → Rests since (handle_messages sensors battery left time msgs b s d p).2
  unfolding handle_messages
  handle_messages-Rests since zero time msgs b s d p a = a
  handle_messages-Rests since (suc left) time [] b s d p a = a
  handle_messages-Rests since (suc left) time (msg ∷ msgs) b s d p a =
      let (b1, s1, p1) = handle_message sensors battery msg b s p in
      handle_messages-Rests since left time msgs b1 s1 (show_message time msg d) p1
        (handle_message-Rests since msg b s p a)

module _ {F : Type 0} ⦃f : Float F⦄ ⦃g : Gfx F⦄ where
  on_event-Rests :
      (since : ℕ) (e : OtaEvent) (o : Ota) (s : Switcher F) (d : Display F)
      → Rests since s
      → Rests since (on_event e o s d).1
  unfolding on_event set_heater
  on_event-Rests since ota_start o s d a = ground arith
  on_event-Rests since (ota_progress m n) o s d a = a
  on_event-Rests since (ota_error t n) o s d a = a
  on_event-Rests since ota_end o s d a = ground arith

  on_events-Rests :
      (since : ℕ) (es : List OtaEvent) (o : Ota) (s : Switcher F) (d : Display F)
      → Rests since s
      → Rests since (on_events es o s d).1
  unfolding on_events
  on_events-Rests since [] o s d a = a
  on_events-Rests since (e ∷ es) o s d a =
      let (o', s', d') = on_event e o s d in
      on_events-Rests since es o' s' d' (on_event-Rests since e o s d a)

  pub handle-Rests :
      (since : ℕ) (es : List OtaEvent) (o : Ota) (s : Switcher F) (d : Display F)
      → Rests since s
      → Rests since (handle es o s d).1
  unfolding handle
  handle-Rests since es o s d a = elim (Bool-cases (ready_4_update s)) [
    | inl e ↦ rw e (on_events-Rests since es o s d a)
    | inr e ↦ rw e a
  ]
