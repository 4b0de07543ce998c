-- ===== src/Telegram/Bot/Text.antt =====
-- The commands that are typed in the chat: `_handleText` of src/telegram_bot/telegram_bot.cpp.
use Prim.Native.String.{String}
use text.Mathlib.Text.{starts_with}
use astro_photo_power_box.Prelude.{
  ℤ, sub_ℕ, pos_part, u16, negsuc, ◌+◌, ◌/◌, ◌%◌, ℕ, true, not, pos, [], ◌∷◌, if◌then◌else◌,
}
use astro_photo_power_box.Float.{Float, whole}
use astro_photo_power_box.Sensors.Types.{PowerReader, psens_ch1_battery}
use astro_photo_power_box.Battery.{Battery, get_energy_remaining_wh}
use astro_photo_power_box.Telegram.Bot.Types.{
  Message, word, number, Wording, snprintf, relay_keyboard, heater_keyboard, send_message,
  send_keyboard, remove_reply_keyboard, literal, Bot, reply,
}

-- `div` of a whole number: the quotient, cut off, and the remainder with the sign of the number.
abbrev pub div_t : ℤ → ℕ → ℤ × ℤ
div_t (pos n) d = (pos (n / d), pos (n % d))
div_t (negsuc n) d = (sub_ℕ 0 ((n + 1) / d), sub_ℕ 0 ((n + 1) % d))

-- The absolute value, and the escaped minus sign of a negative number.
abbrev pub magnitude : ℤ → ℤ
magnitude (pos n) = pos n
magnitude (negsuc n) = pos (n + 1)

abbrev pub sign_text : ℤ → String
sign_text (pos n) = ""
sign_text (negsuc n) = "\\-"

module _ {F P : Type 0} ⦃f : Float F⦄ (sensors : PowerReader F P) (battery : Battery F) where
  -- The text of the status, which reads the voltage and the current of the battery.
  unfoldable pub status_text : P → Wording × P
  unfolding get_energy_remaining_wh
  status_text p =
      let (voltage, p) = sensors.get_voltage psens_ch1_battery p in
      let (current, p) = sensors.get_current psens_ch1_battery p in
      let (volt_quot, volt_rem) = div_t (f.to_int (f.mul voltage (whole 100))) 100 in
      let (amp_quot, amp_rem) = div_t (f.to_int (f.mul current (whole 1000))) 1000 in
      (
        snprintf 150
            "*__Status__*\n\nState of Charge: %d %%\nVerbleibende Ladung: %d Wh\nSpannung: %s%d,%02u V\nStrom: %s%d,%03u A"
            (number (pos (u16 (pos_part (f.to_int battery.soc))))
              ∷ number (pos (u16 (pos_part (f.to_int (get_energy_remaining_wh battery)))))
              ∷ word (sign_text volt_rem)
              ∷ number volt_quot
              ∷ number (magnitude volt_rem)
              ∷ word (sign_text amp_rem)
              ∷ number amp_quot
              ∷ number (magnitude amp_rem)
              ∷ []),
        p,
      )

  unfoldable pub handle_text : Message → Bot → P → Bot × P
  unfolding reply status_text
  handle_text msg b p =
      let (status, p1) = status_text p in
      if starts_with msg.text "/relaycontrol"
      then (reply (send_keyboard (literal "*__Relaissteuerung__*") relay_keyboard) b, p)
      else if starts_with msg.text "/toggleecho"
      then (
        reply
            (send_message
              (snprintf 30 "Echo is now %s" (word (if not b.echo_on then "on" else "off") ∷ [])))
            (record b { echo_on = not b.echo_on }),
        p,
      )
      else if starts_with msg.text "/setheater"
      then (
        record (reply (send_keyboard (literal "Heizbandsteuerung") heater_keyboard) b) {
          heater_keyboard_visible = true;
        },
        p,
      )
      else if starts_with msg.text "/getboxversion"
      then (
        reply
            (send_message (
              snprintf 150
                "*__%s__*\n\n`Version: %u\\.%u\\.%u\nAuthor:  Pliskin707`\n[Github Repository](https://github.com/Pliskin707/AstroPhotoPowerBox)"
                (word "AstroPowerBox" ∷ number (pos 1) ∷ number (pos 0) ∷ number (pos 3) ∷ [])))
            b,
        p,
      )
      else if starts_with msg.text "/getstatus"
      then (reply (send_message status) b, p1)
      else if starts_with msg.text "Abbrechen"
      then (reply (remove_reply_keyboard (literal "Aktion abgebrochen")) b, p)
      else (b, p)
