-- ===== src/Gui/Tests.antt =====
-- A status message on the PC.
use astro_photo_power_box.Prelude.{arith, suc, ◌≡◌, ◌&&◌, true, leb, [], pos, if◌then◌else◌}
use astro_photo_power_box.Float.{whole}
use astro_photo_power_box.Float.Milli.{Milli, milli_float}
use astro_photo_power_box.Communication.Types.{TxContent, no_tx}
use astro_photo_power_box.Communication.Convert.{tx_to_json}
use astro_photo_power_box.Json.Text.{exact-IsText}
use astro_photo_power_box.Gui.{esp_comm, append, handle_document, is_astro_mini_pc}
use astro_photo_power_box.Gui.Messages.{handle_document-tx_to_json}

abbrev message : TxContent Milli
message = record no_tx { shutdown_pc = true; timestamp = 60000 }

handle_document-tx_to_json_example :
    let g = esp_comm [] in
    let g' = handle_document (λ doc. "{}") true (tx_to_json message) g in
    let time = if leb 2147483648 message.timestamp then 0 else message.timestamp in
    (g'.shutdowns ≡ (
      if message.shutdown_pc && (is_astro_mini_pc true g.settings).0
      then suc g.shutdowns
      else g.shutdowns))
    × (g'.log ≡ (
        if true && true && milli_float.le (whole 1) message.battery_info.voltage
        then append (pos time) message.battery_info.voltage message.battery_info.current g.log
        else g.log))
handle_document-tx_to_json_example =
    handle_document-tx_to_json (λ doc. "{}") exact-IsText true message (esp_comm []) (omega arith)
