-- ===== src/Communication.antt =====
-- The UDP status messages (src/communication/communication.hpp, communication.cpp,
-- communication_types.hpp, communication_types.cpp). The packets are handed to the UDP library as JSON
-- documents; of the last sender the port is kept. The name of the device is an argument.
pub mod Types
pub mod Convert
pub mod Status
pub mod Capacity
pub mod Readings
mod Tests
use Prim.Native.String.{String}
use astro_photo_power_box.Prelude.{
  ◌-◌, ℕ, ◌==◌, Bool, true, false, Option, some, none, List, [], ◌∷◌, ltb, pos, negsuc, ℤ, sub32,
  if◌then◌else◌,
}
use astro_photo_power_box.Float.{Float, nought}
use astro_photo_power_box.Board.{Log}
use astro_photo_power_box.Json.{Json}
use astro_photo_power_box.Sensors.Types.{
  PsensChannel, Psensors, psens_ch1_battery, psens_ch2_dew_heater_1, psens_ch3_dew_heater_2,
  psens_ch4_pc, psens_ch5_mount, psens_ch6_imaging_cam,
}
use astro_photo_power_box.Switcher.Types.{Switcher, ConsumersState, state_number}
use astro_photo_power_box.Switcher.Pins.{
  get_consumers, get_mount, get_camera, get_charger, get_heater,
}
use astro_photo_power_box.Battery.{Battery}
use astro_photo_power_box.Communication.Types.{
  InfoQuality, BatInfo, ConsumerInfo, DewSensorInfo, TxContent, no_tx, good, medium, bad,
}
use astro_photo_power_box.Communication.Convert.{tx_to_json}

-- What is announced to mDNS.
pub record Service : Type 0 where
  pub name : String
  pub kind : String
  pub protocol : String
  pub port : ℕ
  pub texts : List (String × String)

-- `udp_port` is 0 before the socket is opened; `sent` are the documents handed to the UDP library, the newest first.
pub record Communication (F : Type 0) : Type 0 where
  pub service : Option Service
  pub udp_port : ℕ
  pub remote_port : ℕ
  pub has_new_data : Bool
  pub last_rx_time : ℕ  -- uint32_t
  pub last_tx_time : ℕ  -- uint32_t
  pub sent : List (Json F)

module _ {F : Type 0} where
  unfoldable pub start : Communication F
  start = record {
    service = none;
    udp_port = 0;
    remote_port = 0;
    has_new_data = false;
    last_rx_time = 0;
    last_tx_time = 0;
    sent = [];
  }

  -- `_configureService`; `added` is whether mDNS takes the service, which gets its texts then.
  unfoldable pub configure_service : String → String → Bool → Communication F → Communication F
  configure_service device_name mac added c = record c {
    service =
        if added
        then some (record {
          name = device_name;
          kind = "AstroPowerBox";
          protocol = "udp";
          port = 5051;
          texts = ("author", "Pliskin707") ∷ ("version", "1.0.3") ∷ ("mac", mac) ∷ [];
        })
        else none;
  }

  -- The UDP socket listens one port below that of the messages.
  unfoldable pub setup : String → String → Bool → Communication F → Communication F
  unfolding configure_service
  setup device_name mac added c = record (configure_service device_name mac added c) {
    udp_port = 5051 - 1;
  }

  unfoldable pub get_ms_since_last_rx : ℕ → Communication F → ℕ
  get_ms_since_last_rx sys_time c = sub32 sys_time c.last_rx_time

  -- `_read`: the port that the packet came from, if there is a packet and it can be parsed.
  unfoldable pub read : ℕ → Option ℕ → Communication F → Bool × Communication F
  read sys_time none c = (false, c)
  read sys_time (some port) c = (true, record c { remote_port = port; last_rx_time = sys_time })

  unfoldable pub loop : ℕ → Option ℕ → Communication F → Communication F
  unfolding read
  loop sys_time packet c =
      let (has_new_data, c) = read sys_time packet c in record c { has_new_data = has_new_data }

module _ {F P : Type 0} ⦃f : Float F⦄ (sensors : Psensors F P) where
  -- The part of `_send` on one consumer: its current is read first.
  unfoldable pub consumer_info : PsensChannel → Bool → F → P → ConsumerInfo F × P
  consumer_info e_channel is_powered active_limit p =
      let (current, p) = sensors.reader.get_current e_channel p in
      let (voltage, p) = sensors.reader.get_voltage e_channel p in
      (
        record {
          is_powered = is_powered;
          is_active = f.lt active_limit current;
          voltage = voltage;
          current = current;
          power = sensors.get_power e_channel p;
          avg_power = sensors.get_power e_channel p;
          shunt_adc = sensors.get_adc_shunt e_channel p;
        },
        p,
      )

  -- `_send`: the message that it composes; `rssi` is `WiFi.RSSI()`.
  unfoldable pub compose : (Log → ℕ → Bool) → ℕ → ℤ → Switcher F → Battery F → P → TxContent F × P
  unfolding consumer_info get_consumers get_mount get_camera get_charger get_heater state_number
  compose digital_read sys_time rssi s b p =
      let (current, p) = sensors.reader.get_current psens_ch1_battery p in
      let (voltage, p) = sensors.reader.get_voltage psens_ch1_battery p in
      let tx = no_tx in
      let battery_info = record tx.battery_info {
        quality = if b.soc_good then good else medium;
        soc = b.soc;
        energy = b.charge_remaining;
        voltage = voltage;
        current = current;
        shunt_adc = sensors.get_adc_shunt psens_ch1_battery p;
      } in
      let charger_current = f.fmaxf current nought in
      let charger = record tx.charger_info {
        is_powered = get_charger digital_read s;
        is_active = f.lt (f.lit (pos 1) 1) current;
        voltage = voltage;
        current = charger_current;
        power = f.mul voltage charger_current;
        avg_power = f.mul voltage charger_current;
        shunt_adc = sensors.get_adc_shunt psens_ch1_battery p;
      } in
      let (pc, p) = consumer_info psens_ch4_pc (get_consumers digital_read s) (f.lit (pos 4) 1) p in
      let (mount, p) =
        consumer_info psens_ch5_mount (get_mount digital_read s) (f.lit (pos 4) 1) p in
      let (camera, p) =
        consumer_info psens_ch6_imaging_cam (get_camera digital_read s) (f.lit (pos 2) 1) p in
      let (heater1, p) =
        consumer_info psens_ch2_dew_heater_1 (f.lt nought (get_heater 0 s)) (f.lit (pos 2) 1) p in
      let (heater1_again, p) =
        consumer_info psens_ch3_dew_heater_2 (f.lt nought (get_heater 1 s)) (f.lit (pos 2) 1) p in
      (
        record tx {
          timestamp = sys_time;
          press_count = s.btn_info.num_presses_since_start;
          button_pressed = s.btn_info.pressed;
          shutdown_pc =
              state_number s.consumers_state
              == state_number ConsumersState.consumers_on_wait4pc_shutdown;
          wifi_strength = rssi;
          battery_info = battery_info;
          charger_info = charger;
          pc_info = pc;
          mount_info = mount;
          camera_info = camera;
          heater1_info = heater1_again;
        },
        p,
      )

  -- `transmit`
  unfoldable pub transmit :
      (Log → ℕ → Bool)
      → ℕ
      → ℕ
      → ℤ
      → Switcher F
      → Battery F
      → P
      → Communication F
      → Communication F × P
  unfolding compose
  transmit digital_read sys_time send_time rssi s b p c =
      let (tx, p') = compose digital_read send_time rssi s b p in
      if ltb 1000 (sub32 sys_time c.last_tx_time)
      then (record c { last_tx_time = sys_time; sent = tx_to_json tx ∷ c.sent }, p')
      else (c, p)
