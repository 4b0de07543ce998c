-- ===== src/Telegram/Commands.antt =====
-- The way of a command from the chat to the switcher.
use astro_photo_power_box.Switcher.Consumers.Outputs.{AreRelaysInState}
use astro_photo_power_box.Prelude.{
  sym, ◌≢◌, inl, inr, ◌∙◌, ℕ, zero, suc, ◌+◌, ◌≤◌, ◌≡◌, Bool, true, false, not, List, [], ◌∷◌,
  length, refl, arith, ap, if◌then◌else◌,
}
use Prim.Native.Char.{code}
use Prim.Native.String.{char_at}
use text.Mathlib.Text.{◌==◌ as str_eq, starts_with}
use astro_photo_power_box.Sensors.Types.{PowerReader}
use astro_photo_power_box.Battery.{Battery}
use astro_photo_power_box.Float.{Float}
use astro_photo_power_box.Board.{Log, level}
use astro_photo_power_box.RingBuffer.Inv.{IsValid, rb_base-IsValid, write-IsValid, read-IsValid}
use astro_photo_power_box.RingBuffer.Queue as Queue
use astro_photo_power_box.RingBuffer.Contents.{contents}
use astro_photo_power_box.RingBuffer.Refine.{write_refines, read_refines}
use astro_photo_power_box.Oled.{Display}
use astro_photo_power_box.Switcher.Types.{ConsumersState, Switcher, pin_consumers}
use astro_photo_power_box.Switcher.Pins.{get_consumers}
use astro_photo_power_box.Telegram.Types.{
  TelegramCommand, no_command, power_consumers_on, power_consumers_off,
}
use astro_photo_power_box.Telegram.Bot.{
  Message, Bot, bot, handle_query, handle_message, handle_messages, show_message,
  subrelay_consumers, get_and_clear_command, enqueue, reply, edit_message, end_query, literal,
  joined, word, ends_with,
}

-- The commands that wait, the oldest first.
abbrev pub pending : Bot → List TelegramCommand
pending b = contents no_command b.pending_commands

pub bot-IsValid : IsValid (bot true).pending_commands
unfolding bot
bot-IsValid = rb_base-IsValid no_command 10 (omega arith) (omega arith)

pub enqueued :
    (c : TelegramCommand) (b : Bot)
    → IsValid b.pending_commands
    → (pending (enqueue c b) ≡ (Queue.push b.pending_commands.num_elements c (pending b)).1)
      × IsValid (enqueue c b).pending_commands
unfolding enqueue
enqueued c b v = (ap (λ r. r.1) (write_refines no_command c v), write-IsValid c v)

-- The same after a reply.
reply-enqueued :
    (c : TelegramCommand) (b b' : Bot)
    → b'.pending_commands ≡ b.pending_commands
    → IsValid b.pending_commands
    → (pending (enqueue c b') ≡ (Queue.push b.pending_commands.num_elements c (pending b)).1)
      × IsValid (enqueue c b').pending_commands
reply-enqueued c b b' e v =
    let (after, valid) = enqueued c b' (rw e v) in
    (after ∙ ap (λ r. (Queue.push r.num_elements c (contents no_command r)).1) e, valid)

module _ {F : Type 0} where
  -- The button for the consumers queues the opposite of what the relay is, unless the queue is full.
  pub subrelay_consumers_lem :
      (digital_read : Log → ℕ → Bool) (msg : Message) (s : Switcher F) (b : Bot)
      → IsValid b.pending_commands
      → let b' = subrelay_consumers digital_read msg s b in
        (pending b'
          ≡ (Queue.push b.pending_commands.num_elements
              (if not (get_consumers digital_read s)
                then power_consumers_on
                else power_consumers_off)
              (pending b)).1)
        × IsValid b'.pending_commands
  unfolding subrelay_consumers reply
  subrelay_consumers_lem digital_read msg s b v =
      let on = not (get_consumers digital_read s) in
      let text = joined (
        word "["
        ∷ word msg.sender.first_name
        ∷ word " "
        ∷ word msg.sender.last_name
        ∷ word "]\nVerbraucher werden "
        ∷ word (if on then "eingeschaltet" else "ausgeschaltet")
        ∷ []) in
      reply-enqueued (if on then power_consumers_on else power_consumers_off) b
        (reply (end_query (literal "") false) (reply (edit_message text) b)) refl v

-- A command leaves the queue in the order in which it entered; no command is handed out just where
-- the queue is empty.
pub get_and_clear_command_lem :
    (b : Bot)
    → IsValid b.pending_commands
    → let (cmd, b') = get_and_clear_command b in
      let (_, first, rest) = Queue.pop no_command (pending b) in
      (cmd ≡ first) × (pending b' ≡ rest) × IsValid b'.pending_commands × (b'.replies ≡ b.replies)
unfolding get_and_clear_command
get_and_clear_command_lem b v =
    let r = read_refines no_command no_command v in
    (ap (λ q. q.1) r, ap (λ q. q.2) r, read-IsValid no_command v, refl)

module _ {F P : Type 0} ⦃f : Float F⦄ (sensors : PowerReader F P) (battery : Battery F) where
  -- One call of `loop` handles ten messages at most: those that are left are the ones behind them.
  pub handle_messages_left :
      (left time : ℕ) (msgs : List Message) (b : Bot) (s : Switcher F) (d : Display F) (p : P)
      → let (rest, _, _, _, _) = handle_messages sensors battery left time msgs b s d p in
        (length msgs ≤ left → rest ≡ []) × (left ≤ length msgs → length rest + left ≡ length msgs)
  unfolding handle_messages
  handle_messages_left zero time msgs b s d p = ground arith
  handle_messages_left (suc left) time [] b s d p = ground arith
  handle_messages_left (suc left) time (msg ∷ msgs) b s d p =
      let (b1, s1, p1) = handle_message sensors battery msg b s p in
      let ih = handle_messages_left left time msgs b1 s1 (show_message time msg d) p1 in
      (λ h. ih.0 (omega arith), λ h. omega (arith, ih.1 (omega arith)))

module _ {F : Type 0} where
  level_after_query :
      (start : Bool) (msg : Message) (b : Bot) (s : Switcher F)
      → str_eq msg.callback_query_data "Relay" ≡ false
      → starts_with msg.callback_query_data "Relay" ≡ true
      → code (char_at msg.callback_query_data 5) ≡ b'0'
      → let (b', s') = handle_query msg b s in
        (level start pin_consumers s'.log ≡ ends_with msg.callback_query_data "On")
        × (s'.consumers_state ≡ s.consumers_state)
        × (s'.consumer_power_request ≡ s.consumer_power_request)
        × (b'.pending_commands ≡ b.pending_commands)
  unfolding handle_query level
  level_after_query start msg b s ne st dig = ground arith

  -- A query for relay 0 sets the consumers' relay at once, in whatever state the power sequence is,
  -- and leaves that state and what is asked of it. Where everything is on and the query switches off,
  -- the relays are not in step with the state of the power sequence any more.
  pub relay_query_bypasses :
      (start : Bool) (msg : Message) (b : Bot) (s : Switcher F)
      → str_eq msg.callback_query_data "Relay" ≡ false
      → starts_with msg.callback_query_data "Relay" ≡ true
      → code (char_at msg.callback_query_data 5) ≡ b'0'
      → let (b', s') = handle_query msg b s in
        (level start pin_consumers s'.log ≡ ends_with msg.callback_query_data "On")
        × (s'.consumers_state ≡ s.consumers_state)
        × (s'.consumer_power_request ≡ s.consumer_power_request)
        × (b'.pending_commands ≡ b.pending_commands)
        × (s.consumers_state ≡ ConsumersState.consumers_on_idle
            → ends_with msg.callback_query_data "On" ≡ false
            → ¬ AreRelaysInState start s'.consumers_state s')
  relay_query_bypasses start msg b s ne st dig =
      let (relay, state, request, queue) = level_after_query start msg b s ne st dig in
      (
        relay,
        state,
        request,
        queue,
        λ idle cut r. true-false (sym (r.powered (inr (inl (state ∙ idle)))) ∙ relay ∙ cut),
      )
    where
      true-false : true ≢ false
      true-false e = ground arith
