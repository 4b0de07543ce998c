-- ===== src/Telegram/Bot.antt =====
-- `AstroTelegramBot` (src/telegram_bot/telegram_bot.hpp, telegram_bot.cpp). The class that it extends
-- is not in the repository: the messages that it hands out are an argument, and what is sent by it is
-- a list of replies, the newest first. A reply goes to the message that is handled.
pub mod Types
pub mod Callbacks
pub mod Text
use Prim.Native.String.{String, char_at, slice, len}
use Prim.Native.Char.{code}
use text.Mathlib.Text.{◌==◌ as str_eq, starts_with}
use astro_photo_power_box.Prelude.{
  ℤ, sub_ℕ, pos_part, u16, negsuc, ◌+◌, ◌/◌, ◌%◌, ℕ, zero, suc, ◌-◌, ◌==◌, Bool, true, false, not,
  pos, List, [], ◌∷◌, if◌then◌else◌,
}
use astro_photo_power_box.Board.{Log}
use astro_photo_power_box.Float.{Float, whole}
use astro_photo_power_box.Sensors.Types.{PowerReader, psens_ch1_battery}
use astro_photo_power_box.Battery.{Battery, get_energy_remaining_wh}
use astro_photo_power_box.RingBuffer.{RbBase, rb_base, read, write}
use astro_photo_power_box.Gfx.{
  clear_display, set_cursor, set_text_wrap, print, plain, formatted, int_arg, text_arg,
}
use astro_photo_power_box.Oled.{Display, draw, suppress_content_temporary}
use astro_photo_power_box.Switcher.Types.{Switcher}
use astro_photo_power_box.Switcher.Pins.{set_consumers, set_charger, set_mount, get_consumers}
use astro_photo_power_box.Telegram.Types.{
  TelegramCommand, no_command, power_consumers_on, power_consumers_off, htr1_off, htr1_5w, htr1_10w,
  htr1_15w, htr1_auto,
}
pub use astro_photo_power_box.Telegram.Bot.Types.{
  MessageType, message_query, message_text, message_reply, message_other, Sender, Message, Piece,
  word, number, Wording, joined, snprintf, Keyboard, relay_keyboard, heater_keyboard, Reply,
  edit_message, end_query, send_message, send_silently, send_keyboard, remove_reply_keyboard,
  literal, Bot,
}
unfoldable pub use astro_photo_power_box.Telegram.Bot.Types.{bot, reply, enqueue, begin}
unfoldable pub use astro_photo_power_box.Telegram.Bot.Callbacks.{
  abort_keyboard, ping_requested, subrelay_not_implemented, subrelay_consumers,
}
pub use astro_photo_power_box.Telegram.Bot.Text.{div_t, magnitude, sign_text}
unfoldable pub use astro_photo_power_box.Telegram.Bot.Text.{status_text, handle_text}

-- `String::endsWith`
unfoldable pub ends_with : String → String → Bool
ends_with s t = str_eq (slice s (len s - len t) (len s)) t

module _ {F : Type 0} where
  -- The digit behind "Relay" chooses the relay.
  unfoldable pub handle_query : Message → Bot → Switcher F → Bot × Switcher F
  unfolding reply ends_with set_consumers set_charger set_mount
  handle_query msg b s =
      let relay = code (char_at msg.callback_query_data 5) in
      let requested_state = ends_with msg.callback_query_data "On" in
      if str_eq msg.callback_query_data "Relay"
      then (reply (end_query (literal "Not yet implemented") true) b, s)
      else if starts_with msg.callback_query_data "Relay"
      then (
        reply
            (end_query
              (snprintf 50 "Turning Relay[%d] %s"
                (number (sub_ℕ relay b'0') ∷ word (if requested_state then "ON" else "OFF") ∷ []))
              false)
            b,
        if relay == b'0'
            then set_consumers requested_state s
            else if relay == b'1'
            then set_charger requested_state s
            else if relay == b'2'
            then set_mount requested_state s
            else s,
      )
      else (
        reply
            (end_query (joined (word "Unknown command: " ∷ word msg.callback_query_data ∷ [])) true)
            b,
        s,
      )

-- The button texts of the heater keyboard: each begins with a symbol.
unfoldable pub heater_command : String → TelegramCommand
heater_command text =
    if str_eq text "❄ Aus"
    then htr1_off
    else if str_eq text "💧 5W"
    then htr1_5w
    else if str_eq text "♨ 10W"
    then htr1_10w
    else if str_eq text "🔥 15W"
    then htr1_15w
    else if str_eq text "📉 Auto"
    then htr1_auto
    else no_command

-- `cmd != e_noCommand`
unfoldable pub is_command : TelegramCommand → Bool
is_command no_command = false
is_command other = true

unfoldable pub handle_replies : Message → Bot → Bot
unfolding reply enqueue heater_command is_command
handle_replies msg b =
    let command = heater_command msg.text in
    if starts_with msg.text "Abbrechen"
    then reply (remove_reply_keyboard (literal "Aktion abgebrochen")) b
    else reply
        (remove_reply_keyboard
          (snprintf 100 "%s gewählt von %s" (word msg.text ∷ word msg.sender.first_name ∷ [])))
        (if is_command command then enqueue command b else b)

module _ {F : Type 0} where
  -- What is shown of a message.
  unfoldable pub show_message : ℕ → Message → Display F → Display F
  unfolding draw suppress_content_temporary
  show_message time msg d =
      let d =
        draw (print (formatted "MsgType: %d" (int_arg (pos msg.type_number) ∷ [])))
          (draw (set_cursor (pos 0) (pos 8)) d) in
      let d = draw (set_text_wrap true) (draw (set_cursor (pos 0) (pos 16)) d) in
      suppress_content_temporary time 1000
        (draw (set_text_wrap false) (draw (print (plain msg.text)) d))

module _ {F P : Type 0} ⦃f : Float F⦄ (sensors : PowerReader F P) (battery : Battery F) where
  -- The `switch` on the type of the message, and the echo.
  unfoldable pub handle_message : Message → Bot → Switcher F → P → Bot × Switcher F × P
  unfolding handle_query handle_text handle_replies reply
  handle_message msg b s p =
      let (b1, s1) = handle_query msg b s in
      let (b2, p2) = handle_text sensors battery msg b p in
      let (b, s, p) = elim msg.message_type as (λ t. Bot × Switcher F × P) [
        | message_query ↦ (b1, s1, p)
        | message_text ↦ (b2, s, p2)
        | message_reply ↦ (handle_replies msg b, s, p)
        | message_other ↦ (b, s, p)
      ] in
      (
        if b.echo_on
            then reply (send_silently (joined (word "Echo: " ∷ word msg.text ∷ []))) b
            else b,
        s,
        p,
      )

  -- `loop`: the messages that wait, ten at most; the first argument is how many may still be handled,
  -- the second the clock at each of them. The messages that are left come back.
  unfoldable pub handle_messages :
      ℕ
      → ℕ
      → List Message
      → Bot
      → Switcher F
      → Display F
      → P
      → List Message × Bot × Switcher F × Display F × P
  unfolding handle_message show_message
  handle_messages zero time msgs b s d p = (msgs, b, s, d, p)
  handle_messages (suc left) time [] b s d p = ([], b, s, d, p)
  handle_messages (suc left) time (msg ∷ msgs) b s d p =
      let (b1, s1, p1) = handle_message msg b s p in
      handle_messages left time msgs b1 s1 (show_message time msg d) p1

  unfoldable pub loop :
      ℕ
      → List Message
      → Bot
      → Switcher F
      → Display F
      → P
      → List Message × Bot × Switcher F × Display F × P
  unfolding handle_messages
  loop time msgs b s d p = handle_messages 10 time msgs b s d p

unfoldable pub get_and_clear_command : Bot → TelegramCommand × Bot
unfolding read
get_and_clear_command b =
    let (_, cmd, pending) = read no_command b.pending_commands in
    (cmd, record b { pending_commands = pending })
