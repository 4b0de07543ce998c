-- ===== src/Telegram/Bot/Callbacks.antt =====
-- The callbacks of the keyboards' buttons (src/telegram_bot/telegram_bot.cpp).
use astro_photo_power_box.Prelude.{ℕ, Bool, true, false, not, pos, [], ◌∷◌, if◌then◌else◌}
use astro_photo_power_box.Board.{Log}
use astro_photo_power_box.Gfx.{clear_display, set_cursor, print, formatted, text_arg}
use astro_photo_power_box.Oled.{Display, draw, suppress_content_temporary}
use astro_photo_power_box.Switcher.Types.{Switcher}
use astro_photo_power_box.Switcher.Pins.{get_consumers}
use astro_photo_power_box.Telegram.Types.{power_consumers_on, power_consumers_off}
use astro_photo_power_box.Telegram.Bot.Types.{
  Message, word, number, joined, edit_message, end_query, literal, Bot, reply, enqueue,
}

unfoldable pub abort_keyboard : Message → Bot → Bot
unfolding reply
abort_keyboard msg b = reply (end_query (literal "abgebrochen") false) (
    reply
      (edit_message (
        joined (
          word "Befehl \\\""
          ∷ word msg.text
          ∷ word "\\\" durch "
          ∷ word msg.sender.first_name
          ∷ word " abgebrochen"
          ∷ [])))
      b)

unfoldable pub ping_requested : {F : Type 0} → ℕ → Message → Bot → Display F → Bot × Display F
unfolding reply draw suppress_content_temporary
ping_requested time msg b d =
    let d = draw (set_cursor (pos 0) (pos 0)) (draw clear_display d) in
    (
      reply (end_query (literal "Pong") false) b,
      suppress_content_temporary time 1000
          (draw (print (formatted "Ping: %s" (text_arg msg.text ∷ []))) d),
    )

unfoldable pub subrelay_not_implemented : Message → Bot → Bot
unfolding reply
subrelay_not_implemented msg b = reply (end_query (literal "Not yet implemented") true) (
    reply
      (edit_message (
        joined (
          word "["
          ∷ word msg.sender.first_name
          ∷ word " "
          ∷ word msg.sender.last_name
          ∷ word "](tg://user?id="
          ∷ number msg.sender.id
          ∷ word "\\) "
          ∷ word " User:"
          ∷ word msg.sender.username
          ∷ [])))
      b)

module _ {F : Type 0} where
  unfoldable pub subrelay_consumers : (Log → ℕ → Bool) → Message → Switcher F → Bot → Bot
  unfolding reply enqueue get_consumers
  subrelay_consumers digital_read msg s b =
      let requested_state = not (get_consumers digital_read s) in
      let edit_text = joined (
        word "["
        ∷ word msg.sender.first_name
        ∷ word " "
        ∷ word msg.sender.last_name
        ∷ word "]\nVerbraucher werden "
        ∷ word (if requested_state then "eingeschaltet" else "ausgeschaltet")
        ∷ []) in
      enqueue (if requested_state then power_consumers_on else power_consumers_off)
        (reply (end_query (literal "") false) (reply (edit_message edit_text) b))
