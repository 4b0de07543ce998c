-- ===== src/Sensors/Types.antt =====
-- `e_psens_channel` (src/sensors/power/psens.hpp), and the part of `psens` that the other
-- components call.
use astro_photo_power_box.Prelude.{ℕ}

pub data PsensChannel : Type 0 where
  psens_ch1_battery psens_ch2_dew_heater_1 psens_ch3_dew_heater_2 psens_ch4_pc : PsensChannel
  psens_ch5_mount psens_ch6_imaging_cam psens_num_channels : PsensChannel

-- `static_cast<uint8_t>(channel)`
unfoldable pub channel_number : PsensChannel → ℕ
channel_number psens_ch1_battery = 0
channel_number psens_ch2_dew_heater_1 = 1
channel_number psens_ch3_dew_heater_2 = 2
channel_number psens_ch4_pc = 3
channel_number psens_ch5_mount = 4
channel_number psens_ch6_imaging_cam = 5
channel_number psens_num_channels = 6

-- `powersensors` as its clients see it: reading a value may talk to the sensors (state `P`).
pub record PowerReader (F P : Type 0) : Type 0 where
  pub get_voltage : PsensChannel → P → F × P
  pub get_current : PsensChannel → P → F × P

-- The same with what needs no reading.
pub record Psensors (F P : Type 0) : Type 0 where
  pub reader : PowerReader F P
  pub get_power : PsensChannel → P → F
  pub get_adc_shunt : PsensChannel → P → ℕ
