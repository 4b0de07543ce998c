-- ===== src/Sensors/Psens.antt =====
-- The six channels of the two chips (src/sensors/power/psens.hpp, psens.cpp).
pub mod Routing
pub mod Products
pub mod Powers
use astro_photo_power_box.Prelude.{
  ℕ, zero, suc, ◌+◌, ◌*◌, ◌/◌, ◌%◌, Bool, true, false, List, get_or, set, replicate, leb, ltb, pos,
  ◌&&◌, Option, some, none, if◌then◌else◌, u32, ◌==◌, ◌∷◌, [],
}
use astro_photo_power_box.Float.{Float, nought}
use astro_photo_power_box.Sensors.Types.{PsensChannel, PowerReader, channel_number}
use astro_photo_power_box.Sensors.Wire.{TwoWire}
use astro_photo_power_box.Sensors.Ina3221.{
  Sensor, sensor, calc_current_factor_from_shunt, set_current_correction, get_voltage, get_current,
  get_adc_shunt, setup as sensor_setup,
}

-- The sensor objects, `_sensors[0]` and `[1]`.
pub record Psens (F : Type 0) : Type 0 where
  pub sensors : List (Sensor F)
  pub next_update : ℕ  -- uint32_t
  pub update_delay : ℕ  -- uint32_t
  pub powers : List F

-- The test of `getSensor`.
unfoldable pub index_accepted : ℕ → Bool
index_accepted index = if ltb 2 index then false else true

module _ {F : Type 0} ⦃f : Float F⦄ where
  -- The object before `setup`; its pointers are null then.
  unfoldable pub psens : Psens F
  psens = record { sensors = []; next_update = 0; update_delay = 100; powers = replicate 6 nought }

  -- `addr` of an object that does not exist is not used by the code.
  abbrev pub at : Psens F → ℕ → Sensor F
  at p index = get_or p.sensors index (sensor 0)

  -- `getSensor`; `none` is the null pointer. An index that passes but is out of bounds has no object.
  unfoldable pub get_sensor : ℕ → Psens F → Option (Sensor F)
  unfolding index_accepted
  get_sensor index p = if index_accepted index then some (at p index) else none

  unfoldable pub get_power : PsensChannel → Psens F → F
  unfolding channel_number
  get_power channel p = get_or p.powers (channel_number channel) nought

-- `_getSensorAndChannel`: the quotient and the remainder.
unfoldable pub sensor_and_channel : PsensChannel → ℕ × ℕ
unfolding channel_number
sensor_and_channel channel = (channel_number channel / 3, channel_number channel % 3)

module _ {F : Type 0} ⦃f : Float F⦄ where
  unfoldable pub psens_adc_shunt : PsensChannel → Psens F → ℕ
  unfolding sensor_and_channel get_adc_shunt
  psens_adc_shunt channel p =
      let (index, sens_channel) = sensor_and_channel channel in
      get_adc_shunt sens_channel (at p index)

module _ {F W : Type 0} ⦃f : Float F⦄ (wire : TwoWire W) where
  unfoldable pub psens_voltage : PsensChannel → Psens F → W → F × Psens F × W
  unfolding sensor_and_channel get_voltage
  psens_voltage channel p w =
      let (index, sens_channel) = sensor_and_channel channel in
      let (val, s, w) = get_voltage wire sens_channel (at p index) w in
      (val.value, record p { sensors = set p.sensors index s }, w)

  unfoldable pub psens_current : PsensChannel → Psens F → W → F × Psens F × W
  unfolding sensor_and_channel get_current
  psens_current channel p w =
      let (index, sens_channel) = sensor_and_channel channel in
      let (val, s, w) = get_current wire sens_channel (at p index) w in
      (val.value, record p { sensors = set p.sensors index s }, w)

  -- The inner loop of `loop`: the channels of one sensor from `sens_channel` on. The operands of the
  -- product may be read in either order; here the voltage is read first.
  unfoldable pub update_channels : ℕ → ℕ → ℕ → ℕ → Psens F → W → ℕ × Psens F × W
  unfolding get_voltage get_current
  update_channels zero index sens_channel total p w = (total, p, w)
  update_channels (suc fuel) index sens_channel total p w =
      let (voltage, s, w1) = get_voltage wire sens_channel (at p index) w in
      let (current, s, w1) = get_current wire sens_channel s w1 in
      let p1 = record p {
        sensors = set p.sensors index s;
        powers = set p.powers total (f.mul voltage.value current.value);
      } in
      let rest = update_channels fuel index (suc sens_channel) (suc total) p1 w1 in
      if ltb sens_channel 3 && ltb total 6 then rest else (total, p, w)

  -- `loop`, at the time that it reads first
  unfoldable pub psens_loop : ℕ → Psens F → W → Psens F × W
  unfolding update_channels
  psens_loop sys_time p w =
      let p1 = record p { next_update = u32 (sys_time + p.update_delay) } in
      let (total, p1, w1) = update_channels 4 0 0 0 p1 w in
      let (_, p1, w1) = update_channels 4 1 0 total p1 w1 in
      if leb p.next_update sys_time then (p1, w1) else (p, w)

module _ {F W : Type 0} ⦃f : Float F⦄ (wire : TwoWire W) (fuel : ℕ) where
  -- The body of the loop of `setup`: sensor `index` at its address, with the shunt of 12 mOhm on its
  -- first channel, and the shunt of 50 mOhm on the second channel of the second sensor.
  unfoldable pub setup_sensor : ℕ → ℕ → W → Sensor F × W
  unfolding sensor sensor_setup set_current_correction calc_current_factor_from_shunt
  setup_sensor index addr w =
      let (_, s, w) = sensor_setup wire fuel addr (sensor 0) w in
      let s =
        set_current_correction 0 (calc_current_factor_from_shunt (f.lit (pos 12) 3)) nought s in
      (
        if index == 1
            then set_current_correction 1 (calc_current_factor_from_shunt (f.lit (pos 5) 2)) nought
                s
            else s,
        w,
      )

  unfoldable pub psens_setup : ℕ → ℕ → Psens F → W → Psens F × W
  unfolding setup_sensor
  psens_setup addr1 addr2 p w =
      let (s1, w) = setup_sensor 0 addr1 w in
      let (s2, w) = setup_sensor 1 addr2 w in (record p { sensors = s1 ∷ s2 ∷ [] }, w)

module _ {F W : Type 0} ⦃f : Float F⦄ (wire : TwoWire W) where
  -- The readings that the other components call.
  abbrev pub power_reader : PowerReader F (Psens F × W)
  power_reader = record {
    get_voltage = λ c s. let (v, p, w) = psens_voltage wire c s.0 s.1 in (v, (p, w));
    get_current = λ c s. let (v, p, w) = psens_current wire c s.0 s.1 in (v, (p, w));
  }
