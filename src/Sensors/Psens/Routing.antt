-- ===== src/Sensors/Psens/Routing.antt =====
-- Which chip and which of its channels a channel of the box belongs to.
use astro_photo_power_box.Prelude.{
  gt→leb, ℕ, ◌+◌, ◌*◌, ◌≤◌, ◌<◌, ◌≡◌, ◌≢◌, ◌↔◌, ◌∙◌, true, arith, length, refl, sym,
  get_or-set_self, get_or-set_ne, length-set,
}
use astro_photo_power_box.Float.{Float}
use astro_photo_power_box.Sensors.Types.{PsensChannel, channel_number, psens_num_channels}
use astro_photo_power_box.Sensors.Wire.{TwoWire}
use astro_photo_power_box.Sensors.Ina3221.{sensor, get_voltage, get_current}
use astro_photo_power_box.Sensors.Psens.{
  Psens, at, sensor_and_channel, index_accepted, psens_voltage, psens_current, psens_loop,
}

-- A channel of the box has its own channel on one of the two chips; the bound of the enumeration,
-- `e_psens_num_channels`, leads to a third chip.
pub sensor_and_channel_lem :
    (c : PsensChannel)
    → let (index, sens_channel) = sensor_and_channel c in
      (sens_channel < 3)
      × (index * 3 + sens_channel ≡ channel_number c)
      × (c ≢ psens_num_channels → index < 2)
      × (c ≡ psens_num_channels → index ≡ 2)
unfolding sensor_and_channel channel_number
sensor_and_channel_lem c = ground arith

-- `getSensor` returns no null pointer just for the indices up to two, the third of which is out of
-- the bounds of its array of two sensors.
pub index_accepted_lem : (index : ℕ) → (index_accepted index ≡ true) ↔ (index ≤ 2)
unfolding index_accepted
index_accepted_lem index = ground arith

module _ {F W : Type 0} ⦃f : Float F⦄ (wire : TwoWire W) where
  index-InBounds :
      (c : PsensChannel) (p : Psens F)
      → length p.sensors ≡ 2
      → c ≢ psens_num_channels
      → (sensor_and_channel c).0 < length p.sensors
  index-InBounds c p l ne = omega (arith, l, (sensor_and_channel_lem c).2 ne)

  -- `getVoltage` of a channel returns the value of the channel of its chip, keeps what the chip's
  -- driver keeps, and leaves the other chip alone.
  psens_voltage_lem :
      (c : PsensChannel) (p : Psens F) (w : W)
      → length p.sensors ≡ 2
      → c ≢ psens_num_channels
      → let (index, sens_channel) = sensor_and_channel c in
        let (val, s, w1) = get_voltage wire sens_channel (at p index) w in
        let (v, p', w2) = psens_voltage wire c p w in
        (v ≡ val.value)
        × (w2 ≡ w1)
        × (at p' index ≡ s)
        × ((i : ℕ) → i ≢ index → at p' i ≡ at p i)
        × (p'.powers ≡ p.powers)
        × (length p'.sensors ≡ 2)
  unfolding psens_voltage
  psens_voltage_lem c p w l ne =
      let (index, sens_channel) = sensor_and_channel c in
      let s = (get_voltage wire sens_channel (at p index) w).1 in
      (
        refl,
        refl,
        get_or-set_self p.sensors index s (sensor 0) (index-InBounds c p l ne),
        λ i h. get_or-set_ne p.sensors index i s (sensor 0) (λ e. h (sym e)),
        refl,
        length-set p.sensors index s ∙ l,
      )

  -- `getCurrent` of a channel returns the value of the channel of its chip, keeps what the chip's
  -- driver keeps, and leaves the other chip alone.
  pub psens_current_lem :
      (c : PsensChannel) (p : Psens F) (w : W)
      → length p.sensors ≡ 2
      → c ≢ psens_num_channels
      → let (index, sens_channel) = sensor_and_channel c in
        let (val, s, w1) = get_current wire sens_channel (at p index) w in
        let (v, p', w2) = psens_current wire c p w in
        (v ≡ val.value)
        × (w2 ≡ w1)
        × (at p' index ≡ s)
        × ((i : ℕ) → i ≢ index → at p' i ≡ at p i)
        × (p'.powers ≡ p.powers)
        × (length p'.sensors ≡ 2)
  unfolding psens_current
  psens_current_lem c p w l ne =
      let (index, sens_channel) = sensor_and_channel c in
      let s = (get_current wire sens_channel (at p index) w).1 in
      (
        refl,
        refl,
        get_or-set_self p.sensors index s (sensor 0) (index-InBounds c p l ne),
        λ i h. get_or-set_ne p.sensors index i s (sensor 0) (λ e. h (sym e)),
        refl,
        length-set p.sensors index s ∙ l,
      )

  -- Where the time of the next update lies ahead, `loop` does nothing: also where it lies ahead only
  -- because the millisecond counter has wrapped since.
  pub psens_loop_waits :
      (sys_time : ℕ) (p : Psens F) (w : W)
      → sys_time < p.next_update
      → psens_loop wire sys_time p w ≡ (p, w)
  unfolding psens_loop
  psens_loop_waits sys_time p w h = rw (gt→leb p.next_update sys_time h)
