-- ===== src/Sensors/Ina3221/Channels.antt =====
-- The channels of one chip: what `getVoltage` and `getCurrent` return and keep.
use astro_photo_power_box.Prelude.{
  refl, sym, ◌∙◌, ltb→lt, ltb, ◌*◌, ℕ, ◌+◌, ◌≤◌, ◌<◌, ◌≡◌, ◌≢◌, true, false, length, get_or, set,
  length-set, get_or-set_self, get_or-set_ne, u32, signed16, ◌⊎◌, if◌then◌else◌, arith,
}
use astro_photo_power_box.Float.{Float}
use astro_photo_power_box.Sensors.Wire.{TwoWire}
use astro_photo_power_box.Sensors.Ina3221.{
  Value, AdcCorrection, Sensor, parse_adc, dummy, uncorrected, read16, read_value, get_voltage,
  get_current,
}

module _ {F : Type 0} where
  -- Three entries in each table.
  pub record IsWellFormed (s : Sensor F) : Type 0 where
    pub three_voltages : length s.voltages ≡ 3
    pub three_currents : length s.currents ≡ 3
    pub three_v : length s.v_adc_correction ≡ 3
    pub three_i : length s.i_adc_correction ≡ 3

-- What a fresh read of a register leaves in an entry.
module _ {F W : Type 0} ⦃f : Float F⦄ (wire : TwoWire W) where
  read_value_cached :
      (s : Sensor F) (reg_addr : ℕ) (c : AdcCorrection F) (old : Value F) (w : W)
      → old.valid ≡ true
      → (wire.millis w).0 < u32 (old.time + s.min_read_delay)
      → read_value wire s reg_addr c old w ≡ (old, (wire.millis w).1)
  unfolding read_value
  read_value_cached s reg_addr c old w v h = ground arith

  -- The value that a register read makes of a word.
  abbrev pub fresh : AdcCorrection F → ℕ → ℕ → Value F
  fresh c time raw = record {
    value = f.fmaf (f.of_int (signed16 (parse_adc raw))) c.factor c.offset;
    time = time;
    adc = parse_adc raw;
    valid = true;
  }

  read_value_read :
      (s : Sensor F) (reg_addr : ℕ) (c : AdcCorrection F) (old : Value F) (w : W)
      → (old.valid ≡ false) ⊎ (u32 (old.time + s.min_read_delay) ≤ (wire.millis w).0)
      → let (time, w1) = wire.millis w in
        let (success, raw, w2) = read16 wire s.addr reg_addr w1 in
        read_value wire s reg_addr c old w
        ≡ ((if success then fresh c time raw else record old { valid = false }), w2)
  unfolding read_value
  read_value_read s reg_addr c old w h = ground arith

  -- The register address of a channel does not wrap.
  get_voltage_in :
      (channel : ℕ) (s : Sensor F) (w : W)
      → channel < 3
      → let (val, w') =
          read_value wire s
            (2 + 2 * channel)
            (get_or s.v_adc_correction channel uncorrected)
            (get_or s.voltages channel dummy)
            w in
        get_voltage wire channel s w ≡ (val, record s { voltages = set s.voltages channel val }, w')
  unfolding get_voltage
  get_voltage_in channel s w h = ground arith

  get_current_in :
      (channel : ℕ) (s : Sensor F) (w : W)
      → channel < 3
      → let (val, w') =
          read_value wire s
            (1 + 2 * channel)
            (get_or s.i_adc_correction channel uncorrected)
            (get_or s.currents channel dummy)
            w in
        get_current wire channel s w ≡ (val, record s { currents = set s.currents channel val }, w')
  unfolding get_current
  get_current_in channel s w h = ground arith

  get_voltage_out :
      (channel : ℕ) (s : Sensor F) (w : W)
      → 3 ≤ channel
      → get_voltage wire channel s w ≡ (dummy, s, w)
  unfolding get_voltage
  get_voltage_out channel s w h = ground arith

  get_current_out :
      (channel : ℕ) (s : Sensor F) (w : W)
      → 3 ≤ channel
      → get_current wire channel s w ≡ (dummy, s, w)
  unfolding get_current
  get_current_out channel s w h = ground arith

  -- `getVoltage` on a channel out of range reads nothing and returns an invalid value. On a channel
  -- in range it returns the entry that it leaves in the cache and touches no other entry. That entry
  -- is the old one, with nothing done on the bus, while it is valid and the clock reads less than the
  -- entry's time plus the read delay, a sum that wraps at 2 ^ 32 ms, which the clock does not follow.
  -- Otherwise it is the corrected ADC value of the channel's bus register if the read reports
  -- success, and the old value marked invalid if it does not.
  pub get_voltage_lem :
      (channel : ℕ) (s : Sensor F) (w : W)
      → IsWellFormed s
      → let (val, s', w') = get_voltage wire channel s w in
        let (time, w1) = wire.millis w in
        let old = get_or s.voltages channel dummy in
        let young = ltb time (u32 (old.time + s.min_read_delay)) in
        let (success, raw, w2) = read16 wire s.addr (2 + 2 * channel) w1 in
        let correction = get_or s.v_adc_correction channel uncorrected in
        (3 ≤ channel → (val ≡ dummy) × (s' ≡ s) × (w' ≡ w))
        × (channel < 3
            → (get_or s'.voltages channel dummy ≡ val)
              × ((c : ℕ) → c ≢ channel → get_or s'.voltages c dummy ≡ get_or s.voltages c dummy)
              × (s'.currents ≡ s.currents)
              × IsWellFormed s')
        × (channel < 3 → old.valid ≡ true → young ≡ true → (val ≡ old) × (w' ≡ w1))
        × (channel < 3
            → (old.valid ≡ false) ⊎ (young ≡ false)
            → (w' ≡ w2)
              × (val
                  ≡ (if success then fresh correction time raw else record old { valid = false })))
  get_voltage_lem channel s w f3 = (
    λ h. rw (get_voltage_out channel s w h) (refl, refl, refl),
    λ h.
        let val =
          (read_value wire s (2 + 2 * channel) (get_or s.v_adc_correction channel uncorrected)
            (get_or s.voltages channel dummy) w).0 in
        rw (get_voltage_in channel s w h) (
          get_or-set_self s.voltages channel val dummy (omega arith),
          λ c ne. get_or-set_ne s.voltages channel c val dummy (λ e. ne (sym e)),
          refl,
          record {
            three_voltages = length-set s.voltages channel val ∙ f3.three_voltages;
            three_currents = f3.three_currents;
            three_v = f3.three_v;
            three_i = f3.three_i;
          },
        ),
    λ h v y.
        let cached =
          read_value_cached s (2 + 2 * channel) (get_or s.v_adc_correction channel uncorrected)
            (get_or s.voltages channel dummy) w v (ltb→lt _ _ y) in
        rw (get_voltage_in channel s w h, cached) (refl, refl),
    λ h o.
        let read =
          read_value_read s (2 + 2 * channel) (get_or s.v_adc_correction channel uncorrected)
            (get_or s.voltages channel dummy) w (ground arith) in
        rw (get_voltage_in channel s w h, read) (refl, refl),
  )

  -- `getCurrent` on a channel out of range reads nothing and returns an invalid value. On a channel
  -- in range it returns the entry that it leaves in the cache and touches no other entry. That entry
  -- is the old one, with nothing done on the bus, while it is valid and the clock reads less than the
  -- entry's time plus the read delay, a sum that wraps at 2 ^ 32 ms, which the clock does not follow.
  -- Otherwise it is the corrected ADC value of the channel's shunt register if the read reports
  -- success, and the old value marked invalid if it does not.
  pub get_current_lem :
      (channel : ℕ) (s : Sensor F) (w : W)
      → IsWellFormed s
      → let (val, s', w') = get_current wire channel s w in
        let (time, w1) = wire.millis w in
        let old = get_or s.currents channel dummy in
        let young = ltb time (u32 (old.time + s.min_read_delay)) in
        let (success, raw, w2) = read16 wire s.addr (1 + 2 * channel) w1 in
        let correction = get_or s.i_adc_correction channel uncorrected in
        (3 ≤ channel → (val ≡ dummy) × (s' ≡ s) × (w' ≡ w))
        × (channel < 3
            → (get_or s'.currents channel dummy ≡ val)
              × ((c : ℕ) → c ≢ channel → get_or s'.currents c dummy ≡ get_or s.currents c dummy)
              × (s'.voltages ≡ s.voltages)
              × IsWellFormed s')
        × (channel < 3 → old.valid ≡ true → young ≡ true → (val ≡ old) × (w' ≡ w1))
        × (channel < 3
            → (old.valid ≡ false) ⊎ (young ≡ false)
            → (w' ≡ w2)
              × (val
                  ≡ (if success then fresh correction time raw else record old { valid = false })))
  get_current_lem channel s w f3 = (
    λ h. rw (get_current_out channel s w h) (refl, refl, refl),
    λ h.
        let val =
          (read_value wire s (1 + 2 * channel) (get_or s.i_adc_correction channel uncorrected)
            (get_or s.currents channel dummy) w).0 in
        rw (get_current_in channel s w h) (
          get_or-set_self s.currents channel val dummy (omega arith),
          λ c ne. get_or-set_ne s.currents channel c val dummy (λ e. ne (sym e)),
          refl,
          record {
            three_currents = length-set s.currents channel val ∙ f3.three_currents;
            three_voltages = f3.three_voltages;
            three_v = f3.three_v;
            three_i = f3.three_i;
          },
        ),
    λ h v y.
        let cached =
          read_value_cached s (1 + 2 * channel) (get_or s.i_adc_correction channel uncorrected)
            (get_or s.currents channel dummy) w v (ltb→lt _ _ y) in
        rw (get_current_in channel s w h, cached) (refl, refl),
    λ h o.
        let read =
          read_value_read s (1 + 2 * channel) (get_or s.i_adc_correction channel uncorrected)
            (get_or s.currents channel dummy) w (ground arith) in
        rw (get_current_in channel s w h, read) (refl, refl),
  )
