-- ===== src/Telegram/Orders.antt =====
-- Which commands the messages and the buttons of the chat leave in the bot's queue.
use astro_photo_power_box.Prelude.{
  ℕ, zero, suc, ◌≡◌, ◌≢◌, Bool, true, false, List, [], ◌∷◌, ◌++◌, length, leb, arith, Bool-cases,
  inl, inr, refl, if◌then◌else◌,
}
use Prim.Native.String.{String}
use text.Mathlib.Text.{starts_with}
use astro_photo_power_box.Sensors.Types.{PowerReader}
use astro_photo_power_box.Battery.{Battery}
use astro_photo_power_box.Float.{Float}
use astro_photo_power_box.Board.{Log}
use astro_photo_power_box.RingBuffer.Inv.{IsValid}
use astro_photo_power_box.RingBuffer.Queue as Queue
use astro_photo_power_box.Oled.{Display}
use astro_photo_power_box.Switcher.Types.{Switcher}
use astro_photo_power_box.Telegram.Types.{TelegramCommand, no_command, power_consumers_on}
use astro_photo_power_box.Telegram.Bot.{
  Message, MessageType, Bot, message_query, message_text, message_reply, message_other,
  handle_replies, handle_message, handle_messages, show_message, enqueue, reply, send_silently,
  joined, word, literal, remove_reply_keyboard, heater_command, is_command, get_and_clear_command,
}
use astro_photo_power_box.Telegram.Commands.{pending, enqueued, get_and_clear_command_lem}
use astro_photo_power_box.Telegram.Handling.{handle_query-queue, handle_text-queue, by_type}
use astro_photo_power_box.Telegram.Keyboards.{
  Button, ping_request, relay_consumers, relay_charger, relay_mount, abort_button, press,
}

-- No command is to switch the consumers on.
unfoldable pub HasNoOn : List TelegramCommand → Type 0
HasNoOn [] = Unit
HasNoOn (c ∷ cs) = (c ≢ power_consumers_on) × HasNoOn cs

append-HasNoOn :
    (q : List TelegramCommand) (c : TelegramCommand)
    → c ≢ power_consumers_on
    → HasNoOn q
    → HasNoOn (q ++ (c ∷ []))
unfolding HasNoOn
append-HasNoOn [] c h a = (h, tt)
append-HasNoOn (d ∷ q) c h a = (a.0, append-HasNoOn q c h a.1)

-- A valid queue without such a command.
pub record HasNoOrder (b : Bot) : Type 0 where
  pub valid : IsValid b.pending_commands
  pub no_on : HasNoOn (pending b)

push-HasNoOn :
    (n : ℕ) (c : TelegramCommand) (q : List TelegramCommand)
    → c ≢ power_consumers_on
    → HasNoOn q
    → HasNoOn (Queue.push n c q).1
unfolding Queue.push
push-HasNoOn n c q h a = elim (Bool-cases (leb n (length q))) [
  | inl e ↦ rw e a
  | inr e ↦ rw e (append-HasNoOn q c h a)
]

enqueue-HasNoOrder :
    (c : TelegramCommand) (b : Bot)
    → c ≢ power_consumers_on
    → HasNoOrder b
    → HasNoOrder (enqueue c b)
enqueue-HasNoOrder c b h o =
    let (after, v) = enqueued c b o.valid in
    record {
      valid = v;
      no_on = rw after (push-HasNoOn b.pending_commands.num_elements c (pending b) h o.no_on);
    }

pop-HasNoOn :
    (q : List TelegramCommand)
    → HasNoOn q
    → let (_, first, rest) = Queue.pop no_command q in (first ≢ power_consumers_on) × HasNoOn rest
unfolding Queue.pop HasNoOn
pop-HasNoOn [] a = (ground arith, tt)
pop-HasNoOn (c ∷ q) a = a

-- The command that is handed out is another one, and none is left.
pub get_and_clear_command-HasNoOrder :
    (b : Bot)
    → HasNoOrder b
    → let (cmd, b') = get_and_clear_command b in (cmd ≢ power_consumers_on) × HasNoOrder b'
get_and_clear_command-HasNoOrder b o =
    let (first, rest, v, _) = get_and_clear_command_lem b o.valid in
    let (ne, others) = pop-HasNoOn (pending b) o.no_on in
    (rw first ne, record { valid = v; no_on = rw rest others })

heater_command≢on : (text : String) → heater_command text ≢ power_consumers_on
unfolding heater_command
heater_command≢on text = ground arith

if-HasNoOrder :
    (c : Bool) (x y : Bot) → HasNoOrder x → HasNoOrder y → HasNoOrder (if c then x else y)
if-HasNoOrder true x y h k = h
if-HasNoOrder false x y h k = k

pub same_queue-HasNoOrder :
    (b b' : Bot) → b'.pending_commands ≡ b.pending_commands → HasNoOrder b → HasNoOrder b'
same_queue-HasNoOrder b b' e o = record { valid = rw e o.valid; no_on = rw e o.no_on }

handle_replies-HasNoOrder :
    (msg : Message) (b : Bot) → HasNoOrder b → HasNoOrder (handle_replies msg b)
unfolding handle_replies reply
handle_replies-HasNoOrder msg b o =
    let command = heater_command msg.text in
    let chosen =
      if-HasNoOrder (is_command command) (enqueue command b) b
        (enqueue-HasNoOrder command b (heater_command≢on msg.text) o) o in
    if-HasNoOrder (starts_with msg.text "Abbrechen")
      (reply (remove_reply_keyboard (literal "Aktion abgebrochen")) b) _
      (same_queue-HasNoOrder b (reply (remove_reply_keyboard (literal "Aktion abgebrochen")) b) refl
        o)
      (same_queue-HasNoOrder (if is_command command then enqueue command b else b) _ refl chosen)

module _ {F P : Type 0} ⦃f : Float F⦄ (sensors : PowerReader F P) (battery : Battery F) where
  by_type-HasNoOrder :
      (t : MessageType) (msg : Message) (b : Bot) (s : Switcher F) (p : P)
      → HasNoOrder b
      → HasNoOrder (by_type sensors battery t msg b s p).0
  by_type-HasNoOrder message_query msg b s p o =
      same_queue-HasNoOrder b _ (handle_query-queue msg b s) o
  by_type-HasNoOrder message_text msg b s p o =
      same_queue-HasNoOrder b _ (handle_text-queue sensors battery msg b p) o
  by_type-HasNoOrder message_reply msg b s p o = handle_replies-HasNoOrder msg b o
  by_type-HasNoOrder message_other msg b s p o = o

  handle_message-HasNoOrder :
      (msg : Message) (b : Bot) (s : Switcher F) (p : P)
      → HasNoOrder b
      → HasNoOrder (handle_message sensors battery msg b s p).0
  unfolding handle_message reply
  handle_message-HasNoOrder msg b s p o =
      let (b1, s1, p1) = by_type sensors battery msg.message_type msg b s p in
      let h = by_type-HasNoOrder msg.message_type msg b s p o in
      if-HasNoOrder b1.echo_on
        (reply (send_silently (joined (word "Echo: " ∷ word msg.text ∷ []))) b1) b1
        (same_queue-HasNoOrder b1 _ refl h) h

  pub handle_messages-HasNoOrder :
      (left time : ℕ) (msgs : List Message) (b : Bot) (s : Switcher F) (d : Display F) (p : P)
      → HasNoOrder b
      → HasNoOrder (handle_messages sensors battery left time msgs b s d p).1
  unfolding handle_messages
  handle_messages-HasNoOrder zero time msgs b s d p o = o
  handle_messages-HasNoOrder (suc left) time [] b s d p o = o
  handle_messages-HasNoOrder (suc left) time (msg ∷ msgs) b s d p o =
      let (b1, s1, p1) = handle_message sensors battery msg b s p in
      handle_messages-HasNoOrder left time msgs b1 s1 (show_message time msg d) p1
        (handle_message-HasNoOrder msg b s p o)

module _ {F : Type 0} where
  -- The buttons but that for the consumers leave the queue alone.
  pub press-HasNoOrder :
      (digital_read : Log → ℕ → Bool) (button : Button) (time : ℕ) (msg : Message) (s : Switcher F)
      (b : Bot) (d : Display F)
      → button ≢ relay_consumers
      → HasNoOrder b
      → HasNoOrder (press digital_read button time msg s b d).0
  unfolding press reply
  press-HasNoOrder digital_read ping_request time msg s b d h o = same_queue-HasNoOrder b _ refl o
  press-HasNoOrder digital_read relay_consumers time msg s b d h o = absurd (h refl)
  press-HasNoOrder digital_read relay_charger time msg s b d h o = same_queue-HasNoOrder b _ refl o
  press-HasNoOrder digital_read relay_mount time msg s b d h o = same_queue-HasNoOrder b _ refl o
  press-HasNoOrder digital_read abort_button time msg s b d h o = same_queue-HasNoOrder b _ refl o
