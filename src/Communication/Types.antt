-- ===== src/Communication/Types.antt =====
-- The records of src/communication/communication_types.hpp.
use astro_photo_power_box.Prelude.{ℕ, Bool, false, ℤ, pos}
use astro_photo_power_box.Float.{Float, nought}

pub data InfoQuality : Type 0 where
  bad medium good : InfoQuality

pub record BatInfo (F : Type 0) : Type 0 where
  pub quality : InfoQuality
  pub soc : F
  pub energy : F
  pub voltage : F
  pub current : F
  pub shunt_adc : ℕ  -- int16_t
  pub charge_seconds_remaining_to_full_soc : ℕ  -- uint32_t
  pub charge_seconds_remaining_to_bulk_soc : ℕ  -- uint32_t
  pub discharge_seconds_remaining_to_empty : ℕ  -- uint32_t
  pub discharge_seconds_remaining_to_reserved : ℕ  -- uint32_t

pub record ConsumerInfo (F : Type 0) : Type 0 where
  pub is_powered : Bool
  pub is_active : Bool
  pub voltage : F
  pub current : F
  pub power : F
  pub avg_power : F
  pub shunt_adc : ℕ  -- int16_t

pub record DewSensorInfo (F : Type 0) : Type 0 where
  pub quality : InfoQuality
  pub temperature : F
  pub rel_humidity : F

pub record TxContent (F : Type 0) : Type 0 where
  pub timestamp : ℕ  -- uint32_t
  pub press_count : ℕ  -- uint32_t
  pub button_pressed : Bool
  pub shutdown_pc : Bool
  pub wifi_strength : ℤ  -- int8_t
  pub battery_info : BatInfo F
  pub dew_info : DewSensorInfo F
  pub charger_info : ConsumerInfo F
  pub pc_info : ConsumerInfo F
  pub mount_info : ConsumerInfo F
  pub camera_info : ConsumerInfo F
  pub heater1_info : ConsumerInfo F
  pub heater2_info : ConsumerInfo F

-- The default values of the members.
module _ {F : Type 0} ⦃f : Float F⦄ where
  unfoldable pub no_consumer : ConsumerInfo F
  no_consumer = record {
    is_powered = false;
    is_active = false;
    voltage = nought;
    current = nought;
    power = nought;
    avg_power = nought;
    shunt_adc = 0;
  }

  unfoldable pub no_tx : TxContent F
  unfolding no_consumer
  no_tx = record {
    timestamp = 0;
    press_count = 0;
    button_pressed = false;
    shutdown_pc = false;
    wifi_strength = pos 0;
    battery_info = record {
      quality = bad;
      soc = nought;
      energy = nought;
      voltage = nought;
      current = nought;
      shunt_adc = 0;
      charge_seconds_remaining_to_full_soc = 0;
      charge_seconds_remaining_to_bulk_soc = 0;
      discharge_seconds_remaining_to_empty = 0;
      discharge_seconds_remaining_to_reserved = 0;
    };
    dew_info = record { quality = bad; temperature = nought; rel_humidity = nought };
    charger_info = no_consumer;
    pc_info = no_consumer;
    mount_info = no_consumer;
    camera_info = no_consumer;
    heater1_info = no_consumer;
    heater2_info = no_consumer;
  }
