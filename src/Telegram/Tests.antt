-- ===== src/Telegram/Tests.antt =====
-- Runs of the bot.
use astro_photo_power_box.Switcher.Consumers.Outputs.{AreRelaysInState}
use astro_photo_power_box.Prelude.{ℕ, ◌+◌, negsuc, [], ◌∷◌, arith, pos, ◌≡◌, true, false, refl}
use astro_photo_power_box.Float.Signed.{Signed, signed_float}
use astro_photo_power_box.Sensors.Types.{PowerReader}
use astro_photo_power_box.Battery.{battery}
use astro_photo_power_box.Telegram.Status.{current_pieces, status_text_lem}
use astro_photo_power_box.Float.Milli.{Milli, milli_float}
use astro_photo_power_box.Board.{level}
use astro_photo_power_box.Switcher.Types.{ConsumersState, Switcher, start, pin_consumers}
use astro_photo_power_box.Telegram.Bot.{
  status_text, word, number, Message, Sender, message_query, bot, handle_query, ends_with,
}
use astro_photo_power_box.Telegram.Commands.{relay_query_bypasses}

-- Who writes to the bot.
abbrev observer : Sender
observer = record { id = pos 7; first_name = "Tycho"; last_name = "Brahe"; username = "tb" }

abbrev relay_query : Message
relay_query = record {
  message_type = message_query;
  type_number = 3;
  text = "";
  sender = observer;
  callback_query_data = "Relay0Off";
}

abbrev powered : Switcher Milli
powered = record start { consumers_state = ConsumersState.consumers_on_idle }

relay_query_bypasses_example :
    let (b', s') = handle_query relay_query (bot true) powered in
    (level true pin_consumers s'.log ≡ ends_with "Relay0Off" "On")
    × (s'.consumers_state ≡ powered.consumers_state)
    × (s'.consumer_power_request ≡ powered.consumer_power_request)
    × (b'.pending_commands ≡ (bot true).pending_commands)
    × (powered.consumers_state ≡ ConsumersState.consumers_on_idle
        → ends_with "Relay0Off" "On" ≡ false
        → ¬ AreRelaysInState true s'.consumers_state s')
relay_query_bypasses_example =
    relay_query_bypasses true relay_query (bot true) powered refl refl refl

-- 12.8 V, and 1.5 A that leave the battery.
abbrev discharging : PowerReader Signed ℕ
discharging = record {
  get_voltage = λ c n. (pos 12800, n + 1);
  get_current = λ c n. (negsuc 1499, n + 1);
}

status_text_lem_example :
    let (text, p') = status_text discharging battery 5 in
    (p' ≡ 7) × (current_pieces text ≡ word "\\-" ∷ number (negsuc 0) ∷ number (pos 500) ∷ [])
status_text_lem_example =
    status_text_lem discharging battery 5 1499 refl (omega arith) (omega arith)
