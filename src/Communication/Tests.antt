-- ===== src/Communication/Tests.antt =====
-- Runs of the status messages.
use astro_photo_power_box.Prelude.{ℕ, ◌≡◌, not, refl, pos, true, false, Bool, negsuc}
use astro_photo_power_box.Float.{nought}
use astro_photo_power_box.Float.Milli.{Milli, milli_float}
use astro_photo_power_box.Board.{Log, level}
use astro_photo_power_box.Switcher.Types.{
  pin_consumers, pin_mount, pin_camera, pin_charger, Switcher, ConsumersState,
  start as switcher_start,
}
use astro_photo_power_box.Switcher.Pins.{get_heater}
use astro_photo_power_box.Battery.{battery}
use astro_photo_power_box.Sensors.Types.{
  Psensors, psens_ch3_dew_heater_2, psens_ch4_pc, psens_ch5_mount, psens_ch6_imaging_cam,
}
use astro_photo_power_box.Communication.{compose}
use astro_photo_power_box.Communication.Types.{TxContent, no_consumer, no_tx}
use astro_photo_power_box.Json.{obj, field, end, bool, member}
use astro_photo_power_box.Communication.Readings.{Readings, IsSteady, measured, compose_lem}
use astro_photo_power_box.Communication.Capacity.{tx_to_json_lem}
use astro_photo_power_box.Communication.Convert.{
  battery_to_json, dew_to_json, consumer_to_json, tx_to_json,
}

abbrev sensors : Psensors Milli ℕ
sensors = record {
  reader = record { get_voltage = λ c n. (12800, n); get_current = λ c n. (150, n) };
  get_power = λ c n. 1920;
  get_adc_shunt = λ c n. 100;
}

-- what was written last to a pin
unfoldable digital_read : Log → ℕ → Bool
digital_read log pin = level false pin log

abbrev waiting : Switcher Milli
waiting = record switcher_start { consumers_state = ConsumersState.consumers_on_wait4pc_shutdown }

abbrev readings : Readings Milli
readings = record {
  voltage = λ c. 12800;
  current = λ c. 150;
  power = λ c. 1920;
  adc_shunt = λ c. 100;
}

sensors-IsSteady : IsSteady sensors readings
sensors-IsSteady = record {
  voltage = λ e p. refl;
  current = λ e p. refl;
  power = λ e p. refl;
  adc_shunt = λ e p. refl;
}

compose_lem_example :
    let (tx, _) = compose sensors digital_read 5000 (negsuc 59) waiting battery 7 in
    let charging = milli_float.fmaxf 150 nought in
    (tx.shutdown_pc ≡ true → waiting.consumers_state ≡ ConsumersState.consumers_on_wait4pc_shutdown)
    × (waiting.consumers_state ≡ ConsumersState.consumers_on_wait4pc_shutdown
        → tx.shutdown_pc ≡ true)
    × (tx.battery_info.voltage ≡ 12800)
    × (tx.battery_info.current ≡ 150)
    × (tx.charger_info ≡ record {
      is_powered = not (digital_read waiting.log pin_charger);
      is_active = milli_float.lt (milli_float.lit (pos 1) 1) 150;
      voltage = 12800;
      current = charging;
      power = milli_float.mul 12800 charging;
      avg_power = milli_float.mul 12800 charging;
      shunt_adc = 100;
    })
    × (tx.pc_info
        ≡ measured readings psens_ch4_pc
            (digital_read waiting.log pin_consumers)
            (milli_float.lit (pos 4) 1))
    × (tx.mount_info
        ≡ measured readings psens_ch5_mount
            (not (digital_read waiting.log pin_mount))
            (milli_float.lit (pos 4) 1))
    × (tx.camera_info
        ≡ measured readings psens_ch6_imaging_cam
            (digital_read waiting.log pin_camera)
            (milli_float.lit (pos 2) 1))
    × (tx.heater1_info
        ≡ measured readings psens_ch3_dew_heater_2
            (milli_float.lt nought (get_heater 1 waiting))
            (milli_float.lit (pos 2) 1))
    × (tx.heater2_info ≡ no_consumer)
compose_lem_example =
    compose_lem sensors readings sensors-IsSteady digital_read 5000 (negsuc 59) waiting battery 7

abbrev idle : TxContent Milli
idle = no_tx

tx_to_json_lem_example :
    let doc = tx_to_json idle in
    let consumers = member "consumers" doc in
    (member "battery info" doc ≡ battery_to_json idle.battery_info)
    × (member "dew info" doc ≡ dew_to_json idle.dew_info)
    × (member "charger" consumers ≡ consumer_to_json idle.charger_info)
    × (member "pc" consumers ≡ consumer_to_json idle.pc_info)
    × (member "mount" consumers ≡ consumer_to_json idle.mount_info)
    × (member "camera" consumers ≡ consumer_to_json idle.camera_info)
    × (member "heater1" consumers ≡ consumer_to_json idle.heater1_info)
    × (member "heater2" consumers
        ≡ obj (
            field "is powered"
              (bool idle.heater2_info.is_powered)
              (field "is active" (bool idle.heater2_info.is_active) end)))
tx_to_json_lem_example = tx_to_json_lem idle
