-- ===== src/Communication/Convert.antt =====
-- The converters of src/communication/communication_types.cpp, into the empty members that the
-- document has when it is filled.
use Prim.Native.String.{String}
use astro_photo_power_box.Prelude.{pos, signed16}
use astro_photo_power_box.Json.{Json, null, bool, int, num, str, set_member}
use astro_photo_power_box.Json.Pool.{fit, literal_key}
use astro_photo_power_box.Communication.Types.{
  InfoQuality, BatInfo, ConsumerInfo, DewSensorInfo, TxContent, good, medium, bad,
}

-- The text that the cases of `qualityToJson` write.
unfoldable pub quality_text : InfoQuality → String
quality_text good = "good"
quality_text medium = "medium"
quality_text bad = "bad"

module _ {F : Type 0} where
  unfoldable pub quality_to_json : InfoQuality → Json F → Json F
  unfolding set_member quality_text
  quality_to_json src dst = set_member "quality" (str (quality_text src)) dst

  unfoldable pub consumer_to_json : ConsumerInfo F → Json F
  unfolding set_member
  consumer_to_json src = set_member "shunt ADC" (int (signed16 src.shunt_adc)) (
      set_member "average power" (num src.avg_power) (
        set_member "power" (num src.power) (
          set_member "current" (num src.current) (
            set_member "voltage" (num src.voltage) (
              set_member "is active" (bool src.is_active)
                (set_member "is powered" (bool src.is_powered) null))))))

  unfoldable pub battery_to_json : BatInfo F → Json F
  unfolding set_member quality_to_json
  battery_to_json src =
      set_member "seconds to reserved" (int (pos src.discharge_seconds_remaining_to_reserved)) (
        set_member "seconds to empty" (int (pos src.discharge_seconds_remaining_to_empty)) (
          set_member "seconds to bulk" (int (pos src.charge_seconds_remaining_to_bulk_soc)) (
            set_member "seconds to full" (int (pos src.charge_seconds_remaining_to_full_soc)) (
              set_member "shunt ADC" (int (signed16 src.shunt_adc)) (
                set_member "current" (num src.current) (
                  set_member "voltage" (num src.voltage) (
                    set_member "energy" (num src.energy)
                      (set_member "SoC" (num src.soc) (quality_to_json src.quality null)))))))))

  unfoldable pub dew_to_json : DewSensorInfo F → Json F
  unfolding set_member quality_to_json
  dew_to_json src =
      set_member "relative humidity" (num src.rel_humidity)
        (set_member "temperature" (num src.temperature) (quality_to_json src.quality null))

  unfoldable pub tx_members : TxContent F → Json F
  unfolding set_member consumer_to_json battery_to_json dew_to_json
  tx_members src =
      let consumers = set_member "heater2" (consumer_to_json src.heater2_info) (
        set_member "heater1" (consumer_to_json src.heater1_info) (
          set_member "camera" (consumer_to_json src.camera_info) (
            set_member "mount" (consumer_to_json src.mount_info) (
              set_member "pc" (consumer_to_json src.pc_info)
                (set_member "charger" (consumer_to_json src.charger_info) null))))) in
      set_member "consumers" consumers (
        set_member "dew info" (dew_to_json src.dew_info) (
          set_member "battery info" (battery_to_json src.battery_info) (
            set_member "wifi dbm" (int src.wifi_strength) (
              set_member "press count" (int (pos src.press_count)) (
                set_member "shutdown PC" (bool src.shutdown_pc) (
                  set_member "button pressed" (bool src.button_pressed)
                    (set_member "time" (int (pos src.timestamp)) null)))))))

  -- `_doc.set(tx)`: the converter fills the cleared document, whose pool has 1024 bytes.
  unfoldable pub tx_to_json : TxContent F → Json F
  unfolding tx_members fit
  tx_to_json src = fit literal_key 1024 (tx_members src)
