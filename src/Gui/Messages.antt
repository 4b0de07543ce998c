-- ===== src/Gui/Messages.antt =====
-- What a status message of the box does on the PC.
use Prim.Native.String.{String}
use text.Mathlib.TextEquality.{eq_iff}
use astro_photo_power_box.Prelude.{
  some, none, true, ap, ◌∙◌, ◌<◌, ℕ, suc, leb, ◌≡◌, Bool, ◌&&◌, List, pos, refl, arith,
  if◌then◌else◌,
}
use astro_photo_power_box.Float.{Float, whole}
use astro_photo_power_box.Json.{Json, bool, int, member, as_float}
use astro_photo_power_box.Json.Text.{IsText, is_plain}
use astro_photo_power_box.Communication.Capacity.{tx_to_json_lem}
use astro_photo_power_box.Communication.Types.{TxContent}
use astro_photo_power_box.Communication.Convert.{tx_to_json, battery_to_json}
use astro_photo_power_box.Gui.{
  to_bool, Gui, LogLine, esp_comm, append, zero_conf_service, handle_document, parse_rx_data,
  is_astro_mini_pc,
}

-- What the PC reads of a status message.
module _ {F : Type 0} ⦃f : Float F⦄ {is_finite : F → Bool} {reads : F → F} {wire : Json F → Json F}
    (text : IsText is_finite reads wire) (tx : TxContent F) where
  tx_to_json-is_plain : is_plain 10 (tx_to_json tx) ≡ true
  unfolding is_plain tx_to_json
  tx_to_json-is_plain = refl

  battery_to_json-is_plain : is_plain 10 (battery_to_json tx.battery_info) ≡ true
  unfolding is_plain battery_to_json
  battery_to_json-is_plain = refl

  of_message : (k : String) → member k (wire (tx_to_json tx)) ≡ wire (member k (tx_to_json tx))
  of_message k = text.members k (tx_to_json tx) tx_to_json-is_plain

  of_battery :
      (k : String)
      → member k (member "battery info" (wire (tx_to_json tx)))
        ≡ wire (member k (battery_to_json tx.battery_info))
  of_battery k =
      ap (member k) (of_message "battery info" ∙ ap wire (tx_to_json_lem tx).0)
      ∙ text.members k (battery_to_json tx.battery_info) battery_to_json-is_plain

  read_shutdown : member "shutdown PC" (wire (tx_to_json tx)) ≡ bool tx.shutdown_pc
  unfolding tx_to_json member
  read_shutdown = of_message "shutdown PC" ∙ text.bools tx.shutdown_pc

  read_time :
      tx.timestamp < 4294967296 → member "time" (wire (tx_to_json tx)) ≡ int (pos tx.timestamp)
  unfolding tx_to_json member
  read_time h = of_message "time" ∙ text.ints tx.timestamp h

  read_voltage :
      as_float (member "voltage" (member "battery info" (wire (tx_to_json tx))))
      ≡ (if is_finite tx.battery_info.voltage then some (reads tx.battery_info.voltage) else none)
  unfolding battery_to_json member
  read_voltage = ap as_float (of_battery "voltage") ∙ text.numbers tx.battery_info.voltage

  read_current :
      as_float (member "current" (member "battery info" (wire (tx_to_json tx))))
      ≡ (if is_finite tx.battery_info.current then some (reads tx.battery_info.current) else none)
  unfolding battery_to_json member
  read_current = ap as_float (of_battery "current") ∙ text.numbers tx.battery_info.current

module _ {F : Type 0} ⦃f : Float F⦄ (to_json : Json F → String) {is_finite : F → Bool}
    {reads : F → F} {wire : Json F → Json F} (text : IsText is_finite reads wire) where
  handle_document-shutdowns :
      (value : Bool) (tx : TxContent F) (g : Gui F)
      → (handle_document to_json value (wire (tx_to_json tx)) g).shutdowns ≡ (
          if tx.shutdown_pc && (is_astro_mini_pc value g.settings).0
          then suc g.shutdowns
          else g.shutdowns)
  unfolding handle_document to_bool
  handle_document-shutdowns value tx g = rw (read_shutdown text tx) refl

  pub handle_document-tx_to_json :
      (value : Bool) (tx : TxContent F) (g : Gui F)
      → tx.timestamp < 4294967296
      → let g' = handle_document to_json value (wire (tx_to_json tx)) g in
        let time = if leb 2147483648 tx.timestamp then 0 else tx.timestamp in
        let voltage = reads tx.battery_info.voltage in
        let current = reads tx.battery_info.current in
        (g'.shutdowns ≡ (
          if tx.shutdown_pc && (is_astro_mini_pc value g.settings).0
          then suc g.shutdowns
          else g.shutdowns))
        × (g'.log ≡ (
            if is_finite tx.battery_info.voltage
              && is_finite tx.battery_info.current
              && f.le (whole 1) voltage
            then append (pos time) voltage current g.log
            else g.log))
  unfolding handle_document as_float
  handle_document-tx_to_json value tx g h = (
    handle_document-shutdowns value tx g,
    rw (read_time text tx h, read_voltage text tx, read_current text tx) (ground arith),
  )

  -- The same for a datagram from the box's address.
  pub parse_rx_data-shutdowns :
      (value : Bool) (tx : TxContent F) (g : Gui F)
      → (parse_rx_data to_json value g.esp_addr (some (wire (tx_to_json tx))) g).shutdowns ≡ (
          if tx.shutdown_pc && (is_astro_mini_pc value g.settings).0
          then suc g.shutdowns
          else g.shutdowns)
  unfolding parse_rx_data
  parse_rx_data-shutdowns value tx g =
      rw ((eq_iff g.esp_addr g.esp_addr).1 refl) (handle_document-shutdowns value tx g)

-- Once the receiver is built, a service that is discovered on the network changes nothing: the box is
-- expected at the fixed address.
pub discovery_ignored :
    {F : Type 0} (log : List (LogLine F)) (port : ℕ) (ip : String)
    → zero_conf_service port ip (esp_comm log) ≡ esp_comm log
unfolding zero_conf_service esp_comm
discovery_ignored log port ip = refl
