-- ===== src/Gui.antt =====
-- The program on the PC (gui/AstroBoxGUI): the receiver of the status messages (esp_comm), the log
-- file (logger), the text of the window (backend) and the setting that makes it the box's PC
-- (settings). Qt is not in the repository: a datagram is handed in as its sender and its JSON
-- document, if it can be parsed, and `to_json` is the text of a document (`QJsonDocument::toJson`).
pub mod Messages
mod Tests
use Prim.Native.String.{String}
use text.Mathlib.Text.{◌==◌ as str_eq}
use astro_photo_power_box.Prelude.{
  ℕ, suc, Bool, true, false, ◌&&◌, Option, some, none, List, [], ◌∷◌, ℤ, pos, negsuc, ltb_ℤ,
  if◌then◌else◌,
}
use astro_photo_power_box.Float.{Float, nought, whole}
use astro_photo_power_box.Json.{Json, bool, int, num, member, as_float}

pub data LogLine (F : Type 0) : Type 0 where
  header : LogLine F
  row : ℤ → F → F → LogLine F

-- `Backend`: the text that the window shows, and how often `debugTextChanged` was emitted.
pub record Backend : Type 0 where
  pub debug_text : String
  pub changes : ℕ

unfoldable pub set_debug_text : String → Backend → Backend
set_debug_text text b =
    if str_eq b.debug_text text then b else record { debug_text = text; changes = suc b.changes }

-- The static variables of `isAstroMiniPc`.
pub record Settings : Type 0 where
  pub initialized : Bool
  pub val : Bool

-- `isAstroMiniPc`; `value` is what the system's settings say now.
unfoldable pub is_astro_mini_pc : Bool → Settings → Bool × Settings
is_astro_mini_pc value st =
    if st.initialized then (st.val, st) else (value, record { initialized = true; val = value })

-- `log` is the file, the newest line first; `shutdowns` counts the starts of `shutdown`.
pub record Gui (F : Type 0) : Type 0 where
  pub has_socket : Bool
  pub port : ℕ
  pub esp_addr : String
  pub backend : Backend
  pub settings : Settings
  pub log : List (LogLine F)
  pub shutdowns : ℕ

module _ {F : Type 0} where
  -- The constructor of `ESP_comm`, on the log file that is there.
  unfoldable pub esp_comm : List (LogLine F) → Gui F
  esp_comm log = record {
    has_socket = true;
    port = 5051;
    esp_addr = "192.168.1.2";
    backend = record { debug_text = "hello world"; changes = 0 };
    settings = record { initialized = false; val = false };
    log = log;
    shutdowns = 0;
  }

  -- `logger::append`; an empty file gets the header first.
  unfoldable pub append : ℤ → F → F → List (LogLine F) → List (LogLine F)
  append time voltage current [] = row time voltage current ∷ header ∷ []
  append time voltage current log = row time voltage current ∷ log

  -- `_ZeroConfServiceSlot`
  unfoldable pub zero_conf_service : ℕ → String → Gui F → Gui F
  zero_conf_service port ip g =
      if g.has_socket then g else record g { has_socket = true; port = port; esp_addr = ip }

-- `QJsonValue::toInt`: 0 where the value is no whole number, or none that an `int` holds.
unfoldable pub int_or_zero : ℤ → ℤ
int_or_zero n =
    if ltb_ℤ (pos 2147483647) n then pos 0 else (if ltb_ℤ n (negsuc 2147483647) then pos 0 else n)

unfoldable pub to_int : {F : Type 0} ⦃f : Float F⦄ → Json F → ℤ
unfolding int_or_zero
to_int ⦃f⦄ (int n) = int_or_zero n
to_int ⦃f⦄ (num x) = if f.eq (f.of_int (f.to_int x)) x then int_or_zero (f.to_int x) else pos 0
to_int ⦃f⦄ other = pos 0

module _ {F : Type 0} where
  unfoldable pub is_number : Option F → Bool
  is_number none = false
  is_number (some x) = true

  unfoldable pub to_bool : Json F → Bool
  to_bool (bool b) = b
  to_bool other = false

module _ {F : Type 0} where
  abbrev pub number_or : F → Option F → F
  number_or d none = d
  number_or d (some x) = x

module _ {F : Type 0} ⦃f : Float F⦄ (to_json : Json F → String) where
  -- The handling of a document from the box's address.
  unfoldable pub handle_document : Bool → Json F → Gui F → Gui F
  unfolding member as_float is_number to_int to_bool append set_debug_text is_astro_mini_pc
  handle_document value doc g =
      let voltage_value = as_float (member "voltage" (member "battery info" doc)) in
      let current_value = as_float (member "current" (member "battery info" doc)) in
      let bat_voltage = number_or nought voltage_value in
      let bat_current = number_or nought current_value in
      let log_bat =
        is_number (as_float (member "time" doc))
        && is_number voltage_value
        && f.le (whole 1) bat_voltage
        && is_number current_value in
      let asked = to_bool (member "shutdown PC" doc) in
      let (mini_pc, settings) = is_astro_mini_pc value g.settings in
      record g {
        backend = set_debug_text (to_json doc) g.backend;
        settings = if asked then settings else g.settings;
        log =
            if log_bat
            then append (to_int (member "time" doc)) bat_voltage bat_current g.log
            else g.log;
        shutdowns = if asked && mini_pc then suc g.shutdowns else g.shutdowns;
      }

  -- `_parseRxData`
  unfoldable pub parse_rx_data : Bool → String → Option (Json F) → Gui F → Gui F
  unfolding handle_document
  parse_rx_data value sender none g = g
  parse_rx_data value sender (some doc) g =
      if str_eq sender g.esp_addr then handle_document value doc g else g
