-- ===== src/Communication/Capacity.antt =====
-- What of a status message the pool of its document has room for.
use astro_photo_power_box.Prelude.{◌≡◌, refl}
use astro_photo_power_box.Json.{bool, obj, end, field, member}
use astro_photo_power_box.Communication.Types.{TxContent}
use astro_photo_power_box.Communication.Convert.{
  battery_to_json, dew_to_json, consumer_to_json, tx_to_json,
}

module _ {F : Type 0} where
  -- The message has room for the battery, the dew sensor and the first five consumers with all their
  -- members, and for the first two members of the second heater only: whether it is powered, and whether
  -- it is active.
  pub tx_to_json_lem :
      (tx : TxContent F)
      → let doc = tx_to_json tx in
        let consumers = member "consumers" doc in
        (member "battery info" doc ≡ battery_to_json tx.battery_info)
        × (member "dew info" doc ≡ dew_to_json tx.dew_info)
        × (member "charger" consumers ≡ consumer_to_json tx.charger_info)
        × (member "pc" consumers ≡ consumer_to_json tx.pc_info)
        × (member "mount" consumers ≡ consumer_to_json tx.mount_info)
        × (member "camera" consumers ≡ consumer_to_json tx.camera_info)
        × (member "heater1" consumers ≡ consumer_to_json tx.heater1_info)
        × (member "heater2" consumers
            ≡ obj (
                field "is powered"
                  (bool tx.heater2_info.is_powered)
                  (field "is active" (bool tx.heater2_info.is_active) end)))
  unfolding tx_to_json member battery_to_json dew_to_json consumer_to_json
  tx_to_json_lem tx = (refl, refl, refl, refl, refl, refl, refl, refl)
