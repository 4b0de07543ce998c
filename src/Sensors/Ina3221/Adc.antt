-- ===== src/Sensors/Ina3221/Adc.antt =====
-- The conversion of a register to the value of the ADC.
use astro_photo_power_box.Prelude.{ℕ, ◌/◌, ◌<◌, ◌≡◌, ℤ, pos, negsuc, ◌≤ℤ◌, signed16, arith}
use astro_photo_power_box.Sensors.Ina3221.{parse_adc}

-- The shift by three places that keeps the sign: division by eight, rounded down.
abbrev pub shift3 : ℤ → ℤ
shift3 (pos n) = pos (n / 8)
shift3 (negsuc n) = negsuc (n / 8)

-- The ADC value is the register's two's complement number shifted by three places, rounded down: a
-- number of 13 bits with its sign.
pub signed16-parse_adc :
    (raw : ℕ)
    → raw < 65536
    → (signed16 (parse_adc raw) ≡ shift3 (signed16 raw))
      × (negsuc 4095 ≤ℤ signed16 (parse_adc raw))
      × (signed16 (parse_adc raw) ≤ℤ pos 4095)
unfolding parse_adc
signed16-parse_adc raw h = ground arith
