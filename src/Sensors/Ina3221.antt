-- ===== src/Sensors/Ina3221.antt =====
-- The driver of the INA3221 chip (src/sensors/power/ina3221.hpp, ina3221.cpp, ina3221_types.hpp).
-- A method that talks to the bus takes and returns the state `W` of the bus. An ADC value
-- (`int16_t`) is its bit pattern.
pub mod Adc
pub mod Bus
pub mod Channels
use astro_photo_power_box.Prelude.{
  ℕ, zero, suc, ◌+◌, ◌-◌, ◌*◌, ◌/◌, ◌%◌, Bool, true, false, not, ◌&&◌, List, [], ◌∷◌, ℤ, pos,
  negsuc, signed16, leb, ltb, ◌==◌, if◌then◌else◌, get_or, set, replicate, u8, u16, u32,
}
use Prim.Native.Nat.{bit_or, ◌^◌}
use astro_photo_power_box.Float.{Float, nought}
use astro_photo_power_box.Sensors.Wire.{TwoWire}

abbrev pub num_ch : ℕ
num_ch = 3

-- e_ina3221_avg_64 and e_ina3221_conv_1100us
abbrev pub avg_64 : ℕ
avg_64 = 3

abbrev pub conv_1100us : ℕ
conv_1100us = 4

pub record Value (F : Type 0) : Type 0 where
  pub value : F
  pub time : ℕ  -- uint32_t
  pub adc : ℕ  -- int16_t
  pub valid : Bool

pub record AdcCorrection (F : Type 0) : Type 0 where
  pub factor : F
  pub offset : F

pub record Sensor (F : Type 0) : Type 0 where
  pub addr : ℕ  -- uint8_t
  pub voltages : List (Value F)
  pub currents : List (Value F)
  pub v_adc_correction : List (AdcCorrection F)
  pub i_adc_correction : List (AdcCorrection F)
  pub min_read_delay : ℕ  -- uint32_t
  pub config_register : ℕ  -- uint16_t

-- `raw >> 3`, with the sign of a negative value filled up by `|= 0xF000`, which sets the upper four
-- bits and leaves the lower twelve.
unfoldable pub parse_adc : ℕ → ℕ
parse_adc raw = if leb 32768 raw then raw / 8 % 4096 + 0xf000 else raw / 8

module _ {F : Type 0} ⦃f : Float F⦄ where
  -- `dummy`, and the initial entry of a cache
  abbrev pub dummy : Value F
  dummy = record { value = nought; time = 0; adc = 0; valid = false }

  abbrev pub uncorrected : AdcCorrection F
  uncorrected = record { factor = f.lit (pos 1) 0; offset = nought }

  -- 40 µV for each step of the ADC. `std::isnan x` is `x != x`.
  unfoldable pub calc_current_factor_from_shunt : F → F
  calc_current_factor_from_shunt shunt_ohm =
      if f.le shunt_ohm shunt_ohm then f.div (f.lit (pos 4) 5) shunt_ohm else nought

  -- The setters ignore a channel out of range.
  unfoldable pub set_voltage_correction : ℕ → F → F → Sensor F → Sensor F
  set_voltage_correction channel factor offset s = if leb num_ch channel then s else record s {
    v_adc_correction = set s.v_adc_correction channel (record { factor = factor; offset = offset });
  }

  unfoldable pub set_current_correction : ℕ → F → F → Sensor F → Sensor F
  set_current_correction channel factor offset s = if leb num_ch channel then s else record s {
    i_adc_correction = set s.i_adc_correction channel (record { factor = factor; offset = offset });
  }

  -- The constructor: the members' initial values, and the default corrections of its loop over the
  -- channels. `_addr` is not initialised by it.
  unfoldable pub set_defaults : ℕ → Sensor F → Sensor F
  unfolding set_voltage_correction set_current_correction calc_current_factor_from_shunt
  set_defaults zero s = s
  set_defaults (suc left) s =
      let s = set_defaults left s in
      set_current_correction left (calc_current_factor_from_shunt (f.lit (pos 1) 1)) nought
        (set_voltage_correction left (f.lit (pos 8) 3) nought s)

  unfoldable pub sensor : ℕ → Sensor F
  unfolding set_defaults
  sensor addr = set_defaults num_ch (record {
    addr = addr;
    voltages = replicate 3 dummy;
    currents = replicate 3 dummy;
    v_adc_correction = replicate 3 uncorrected;
    i_adc_correction = replicate 3 uncorrected;
    min_read_delay = 10;
    config_register =
        bit_or (bit_or (bit_or 0x7007 (avg_64 * 2 ^ 9)) (conv_1100us * 2 ^ 6))
          (conv_1100us * 2 ^ 3);
  })

  -- This does not read new values.
  unfoldable pub get_adc_shunt : ℕ → Sensor F → ℕ
  get_adc_shunt channel s =
      if leb num_ch channel then 32767 else (get_or s.currents channel dummy).adc

module _ {W : Type 0} (wire : TwoWire W) where
  -- `while (_wire->available()) _wire->read();`, on fuel
  unfoldable pub drain : ℕ → W → W
  drain zero w = w
  drain (suc fuel) w =
      let (n, w) = wire.available w in
      let rest = drain fuel (wire.read w).1 in if n == 0 then w else rest

  unfoldable pub prepare_wire : ℕ → W → W
  unfolding drain
  prepare_wire fuel w = drain fuel (wire.flush (wire.set_clock 400000 (wire.begin w)))

  -- A byte that does not go out ends the transmission.
  unfoldable pub set_register_pointer : ℕ → ℕ → W → Bool × W
  set_register_pointer addr reg_addr w =
      let (written, w) = wire.write reg_addr (wire.begin_transmission addr w) in
      if written == 1 then (true, w) else (false, (wire.end_transmission true w).1)

  -- `success` stays as `_setRegisterPointer` left it, also where no two bytes came. The low byte of
  -- `rx` is clear after the shift, so `|=` by a byte is a sum.
  unfoldable pub read16 : ℕ → ℕ → W → Bool × ℕ × W
  unfolding set_register_pointer
  read16 addr reg_addr w =
      let (success, w) = set_register_pointer addr reg_addr w in
      let w1 = wire.request_from addr 2 true (wire.end_transmission false w).1 in
      let (bytes_available, w2) = wire.available w1 in
      let (high, w3) = wire.read w2 in
      let (low, w4) = wire.read w3 in
      if success
      then (if bytes_available == 2
          then (true, u16 (u16 (u16 high * 256) + low), w4)
          else (true, 0, w2))
      else (false, 0, w)

  unfoldable pub write16 : ℕ → ℕ → ℕ → W → Bool × W
  unfolding set_register_pointer
  write16 addr word reg_addr w =
      let (success, w) = set_register_pointer addr reg_addr w in
      let (n1, w1) = wire.write (u8 (word / 256)) w in
      let (n2, w2) = wire.write (u8 word) w1 in
      let (result, w3) = wire.end_transmission true w2 in
      if success then (result == 0, w3) else (false, w)

module _ {F W : Type 0} ⦃f : Float F⦄ (wire : TwoWire W) (fuel : ℕ) where
  unfoldable pub reset : Sensor F → W → Bool × W
  unfolding prepare_wire write16
  reset s w = write16 wire s.addr s.config_register 0 (prepare_wire wire fuel w)

  -- `setup`; the timeout is half a million microseconds.
  unfoldable pub setup : ℕ → Sensor F → W → Bool × Sensor F × W
  unfolding reset
  setup addr s w =
      let s = record s { addr = addr } in
      let (success, w) = reset s (wire.set_timeout 500000 (wire.begin w)) in (success, s, w)

  -- The power down mode clears the lower three bits, for this one write.
  unfoldable pub power_down : Sensor F → W → W
  unfolding reset
  power_down s w =
      (reset (record s { config_register = s.config_register - s.config_register % 8 }) w).1

module _ {F W : Type 0} ⦃f : Float F⦄ (wire : TwoWire W) where
  -- `_readValue`: the entry that it leaves. A reading that is young enough is kept.
  unfoldable pub read_value : Sensor F → ℕ → AdcCorrection F → Value F → W → Value F × W
  unfolding read16 parse_adc
  read_value s reg_addr correction dest w =
      let (sys_time, w) = wire.millis w in
      let (success, raw, w') = read16 wire s.addr reg_addr w in
      let adc = parse_adc raw in
      if ltb sys_time (u32 (dest.time + s.min_read_delay)) && dest.valid
      then (record dest { valid = true }, w)
      else if success
      then (
        record {
          value = f.fmaf (f.of_int (signed16 adc)) correction.factor correction.offset;
          time = sys_time;
          adc = adc;
          valid = true;
        },
        w',
      )
      else (record dest { valid = false }, w')

  unfoldable pub get_voltage : ℕ → Sensor F → W → Value F × Sensor F × W
  unfolding read_value
  get_voltage channel s w =
      let reg_addr = u8 (2 + 2 * channel) in
      let (val, w') =
        read_value s reg_addr (get_or s.v_adc_correction channel uncorrected)
          (get_or s.voltages channel dummy) w in
      if leb num_ch channel
      then (dummy, s, w)
      else (val, record s { voltages = set s.voltages channel val }, w')

  unfoldable pub get_current : ℕ → Sensor F → W → Value F × Sensor F × W
  unfolding read_value
  get_current channel s w =
      let reg_addr = u8 (1 + 2 * channel) in
      let (val, w') =
        read_value s reg_addr (get_or s.i_adc_correction channel uncorrected)
          (get_or s.currents channel dummy) w in
      if leb num_ch channel
      then (dummy, s, w)
      else (val, record s { currents = set s.currents channel val }, w')
