-- ===== src/Telegram/Handling.antt =====
-- What the messages from the chat may touch.
use astro_photo_power_box.Prelude.{
  ◌&&◌, ◌||◌, ◌==◌, ℕ, zero, suc, ◌≡◌, Bool, true, false, List, [], ◌∷◌, refl, arith, if◌then◌else◌,
  ◌∙◌,
}
use astro_photo_power_box.Sensors.Types.{PowerReader}
use astro_photo_power_box.Battery.{Battery}
use astro_photo_power_box.Float.{Float}
use astro_photo_power_box.RingBuffer.Inv.{IsValid}
use astro_photo_power_box.Oled.{Display}
use astro_photo_power_box.Switcher.Types.{Switcher}
use astro_photo_power_box.Telegram.Commands.{enqueued}
use Prim.Native.String.{String, char_at}
use Prim.Native.Char.{code}
use text.Mathlib.Text.{starts_with}
use astro_photo_power_box.Telegram.Bot.{
  send_silently, joined, word, literal, remove_reply_keyboard, Message, MessageType, Bot,
  message_query, message_text, message_reply, message_other, handle_query, handle_text,
  handle_replies, handle_message, handle_messages, show_message, enqueue, reply, heater_command,
  is_command,
}

-- This data of a query makes `_handleQuery` switch a relay.
abbrev pub names_relay : String → Bool
names_relay query =
    let relay = code (char_at query 5) in
    starts_with query "Relay" && (relay == b'0' || relay == b'1' || relay == b'2')

-- No message is a query that names a relay by its number.
unfoldable pub HasNoRelayQuery : List Message → Type 0
HasNoRelayQuery [] = Unit
HasNoRelayQuery (msg ∷ msgs) =
    (msg.message_type ≡ message_query → names_relay msg.callback_query_data ≡ false)
    × HasNoRelayQuery msgs

-- A queue that is valid on both branches.
if-IsValid :
    (c : Bool) (x y : Bot)
    → IsValid x.pending_commands
    → IsValid y.pending_commands
    → IsValid (if c then x else y).pending_commands
if-IsValid true x y h k = h
if-IsValid false x y h k = k

handle_replies-IsValid :
    (msg : Message) (b : Bot)
    → IsValid b.pending_commands
    → IsValid (handle_replies msg b).pending_commands
unfolding handle_replies
handle_replies-IsValid msg b v =
    let command = heater_command msg.text in
    if-IsValid (starts_with msg.text "Abbrechen")
      (reply (remove_reply_keyboard (literal "Aktion abgebrochen")) b) _ v
      (if-IsValid (is_command command) (enqueue command b) b (enqueued command b v).1 v)

module _ {F : Type 0} where
  pub handle_query-queue :
      (msg : Message) (b : Bot) (s : Switcher F)
      → (handle_query msg b s).0.pending_commands ≡ b.pending_commands
  unfolding handle_query
  handle_query-queue msg b s = ground arith

  handle_query-switcher :
      (msg : Message) (b : Bot) (s : Switcher F)
      → names_relay msg.callback_query_data ≡ false
      → (handle_query msg b s).1 ≡ s
  unfolding handle_query
  handle_query-switcher msg b s h = ground arith

  handle_query-state :
      (msg : Message) (b : Bot) (s : Switcher F)
      → (handle_query msg b s).1.consumers_state ≡ s.consumers_state
  unfolding handle_query
  handle_query-state msg b s = ground arith

module _ {F P : Type 0} ⦃f : Float F⦄ (sensors : PowerReader F P) (battery : Battery F) where
  pub handle_text-queue :
      (msg : Message) (b : Bot) (p : P)
      → (handle_text sensors battery msg b p).0.pending_commands ≡ b.pending_commands
  unfolding handle_text
  handle_text-queue msg b p = ground arith

  abbrev pub by_type : MessageType → Message → Bot → Switcher F → P → Bot × Switcher F × P
  by_type t msg b s p =
      let (b2, p2) = handle_text sensors battery msg b p in
      elim t as (λ t. Bot × Switcher F × P) [
        | message_query ↦ (let (b1, s1) = handle_query msg b s in (b1, s1, p))
        | message_text ↦ (b2, s, p2)
        | message_reply ↦ (handle_replies msg b, s, p)
        | message_other ↦ (b, s, p)
      ]

  by_type-IsValid :
      (t : MessageType) (msg : Message) (b : Bot) (s : Switcher F) (p : P)
      → IsValid b.pending_commands
      → IsValid (by_type t msg b s p).0.pending_commands
  by_type-IsValid message_query msg b s p v = rw (handle_query-queue msg b s) v
  by_type-IsValid message_text msg b s p v = rw (handle_text-queue msg b p) v
  by_type-IsValid message_reply msg b s p v = handle_replies-IsValid msg b v
  by_type-IsValid message_other msg b s p v = v

  by_type-switcher :
      (t : MessageType) (msg : Message) (b : Bot) (s : Switcher F) (p : P)
      → (t ≡ message_query → names_relay msg.callback_query_data ≡ false)
      → (by_type t msg b s p).1 ≡ s
  by_type-switcher message_query msg b s p h = handle_query-switcher msg b s (h refl)
  by_type-switcher message_text msg b s p h = refl
  by_type-switcher message_reply msg b s p h = refl
  by_type-switcher message_other msg b s p h = refl

  by_type-state :
      (t : MessageType) (msg : Message) (b : Bot) (s : Switcher F) (p : P)
      → (by_type t msg b s p).1.consumers_state ≡ s.consumers_state
  by_type-state message_query msg b s p = handle_query-state msg b s
  by_type-state message_text msg b s p = refl
  by_type-state message_reply msg b s p = refl
  by_type-state message_other msg b s p = refl

  handle_message-state :
      (msg : Message) (b : Bot) (s : Switcher F) (p : P)
      → (handle_message sensors battery msg b s p).1.consumers_state ≡ s.consumers_state
  unfolding handle_message
  handle_message-state msg b s p = by_type-state msg.message_type msg b s p

  handle_message-IsValid :
      (msg : Message) (b : Bot) (s : Switcher F) (p : P)
      → IsValid b.pending_commands
      → IsValid (handle_message sensors battery msg b s p).0.pending_commands
  unfolding handle_message
  handle_message-IsValid msg b s p v =
      let (b1, s1, p1) = by_type msg.message_type msg b s p in
      let h = by_type-IsValid msg.message_type msg b s p v in
      if-IsValid b1.echo_on (reply (send_silently (joined (word "Echo: " ∷ word msg.text ∷ []))) b1)
        b1 h h

  handle_message-switcher :
      (msg : Message) (b : Bot) (s : Switcher F) (p : P)
      → (msg.message_type ≡ message_query → names_relay msg.callback_query_data ≡ false)
      → (handle_message sensors battery msg b s p).1 ≡ s
  unfolding handle_message
  handle_message-switcher msg b s p h = by_type-switcher msg.message_type msg b s p h

  -- Whatever messages come, the queue of the commands stays valid.
  pub handle_messages-IsValid :
      (left time : ℕ) (msgs : List Message) (b : Bot) (s : Switcher F) (d : Display F) (p : P)
      → IsValid b.pending_commands
      → IsValid (handle_messages sensors battery left time msgs b s d p).1.pending_commands
  unfolding handle_messages
  handle_messages-IsValid zero time msgs b s d p v = v
  handle_messages-IsValid (suc left) time [] b s d p v = v
  handle_messages-IsValid (suc left) time (msg ∷ msgs) b s d p v =
      let (b1, s1, p1) = handle_message sensors battery msg b s p in
      handle_messages-IsValid left time msgs b1 s1 (show_message time msg d) p1
        (handle_message-IsValid msg b s p v)

  -- Only the queries that name a relay touch the switcher.
  pub handle_messages-switcher :
      (left time : ℕ) (msgs : List Message) (b : Bot) (s : Switcher F) (d : Display F) (p : P)
      → HasNoRelayQuery msgs
      → (handle_messages sensors battery left time msgs b s d p).2 ≡ s
  unfolding handle_messages HasNoRelayQuery
  handle_messages-switcher zero time msgs b s d p h = refl
  handle_messages-switcher (suc left) time [] b s d p h = refl
  handle_messages-switcher (suc left) time (msg ∷ msgs) b s d p h =
      let (b1, s1, p1) = handle_message sensors battery msg b s p in
      handle_messages-switcher left time msgs b1 s1 (show_message time msg d) p1 h.1
      ∙ handle_message-switcher msg b s p h.0

  -- No message touches the power sequence, not even a query of a relay button.
  pub handle_messages-state :
      (left time : ℕ) (msgs : List Message) (b : Bot) (s : Switcher F) (d : Display F) (p : P)
      → (handle_messages sensors battery left time msgs b s d p).2.consumers_state
        ≡ s.consumers_state
  unfolding handle_messages
  handle_messages-state zero time msgs b s d p = refl
  handle_messages-state (suc left) time [] b s d p = refl
  handle_messages-state (suc left) time (msg ∷ msgs) b s d p =
      let (b1, s1, p1) = handle_message sensors battery msg b s p in
      handle_messages-state left time msgs b1 s1 (show_message time msg d) p1
      ∙ handle_message-state msg b s p
