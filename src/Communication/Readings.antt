-- ===== src/Communication/Readings.antt =====
-- Which reading of the sensors, and which pin, each member of the status message reports.
use astro_photo_power_box.Prelude.{ℕ, ◌≡◌, refl, not, Bool, true, ℤ, pos}
use astro_photo_power_box.Float.{Float, nought}
use astro_photo_power_box.Board.{Log}
use astro_photo_power_box.Sensors.Types.{
  PsensChannel, psens_ch1_battery, psens_ch3_dew_heater_2, psens_ch4_pc, psens_ch5_mount,
  psens_ch6_imaging_cam,
}
use astro_photo_power_box.Switcher.Types.{
  Switcher, ConsumersState, pin_consumers, pin_mount, pin_camera, pin_charger,
}
use astro_photo_power_box.Switcher.Pins.{get_heater}
use astro_photo_power_box.Battery.{Battery}
use astro_photo_power_box.Communication.{Psensors, consumer_info, compose}
use astro_photo_power_box.Communication.Types.{ConsumerInfo, no_consumer, no_tx}
use astro_photo_power_box.Communication.Status.{compose_asks}

-- The readings of the six channels while the message is composed.
pub record Readings (F : Type 0) : Type 0 where
  pub voltage : PsensChannel → F
  pub current : PsensChannel → F
  pub power : PsensChannel → F
  pub adc_shunt : PsensChannel → ℕ

pub record IsSteady {F P : Type 0} (sensors : Psensors F P) (r : Readings F) : Type 0 where
  pub voltage : (e : PsensChannel) (p : P) → (sensors.reader.get_voltage e p).0 ≡ r.voltage e
  pub current : (e : PsensChannel) (p : P) → (sensors.reader.get_current e p).0 ≡ r.current e
  pub power : (e : PsensChannel) (p : P) → sensors.get_power e p ≡ r.power e
  pub adc_shunt : (e : PsensChannel) (p : P) → sensors.get_adc_shunt e p ≡ r.adc_shunt e

module _ {F : Type 0} ⦃f : Float F⦄ (r : Readings F) where
  -- A consumer behind a relay or a heater, on a channel: active above this current.
  unfoldable pub measured : PsensChannel → Bool → F → ConsumerInfo F
  measured e is_powered active_limit = record {
    is_powered = is_powered;
    is_active = f.lt active_limit (r.current e);
    voltage = r.voltage e;
    current = r.current e;
    power = r.power e;
    avg_power = r.power e;
    shunt_adc = r.adc_shunt e;
  }

module _ {F P : Type 0} ⦃f : Float F⦄ (sensors : Psensors F P) (r : Readings F)
    (steady : IsSteady sensors r) where
  consumer_info-measured :
      (e : PsensChannel) (on : Bool) (limit : F) (p : P)
      → (consumer_info sensors e on limit p).0 ≡ measured r e on limit
  unfolding consumer_info measured
  consumer_info-measured e on limit p =
      let p1 = (sensors.reader.get_current e p).1 in
      let p2 = (sensors.reader.get_voltage e p1).1 in
      λ i. record {
        is_powered = on;
        is_active = f.lt limit (steady.current e p i);
        voltage = steady.voltage e p1 i;
        current = steady.current e p i;
        power = steady.power e p2 i;
        avg_power = steady.power e p2 i;
        shunt_adc = steady.adc_shunt e p2 i;
      }

  -- The message asks for the shutdown of the PC just while the power sequence waits for it. With steady
  -- readings, the PC, the mount and the camera are reported with the level of their pin (the mount's
  -- inverted) and with the readings of their own channels, and active above 0.4 A, 0.4 A and 0.2 A. The
  -- charger is reported with the inverted level of its pin and with the battery's readings, its current not
  -- below zero, and active above 0.1 A. The member of the first heater reports the second heater, on the
  -- channel of that; the member of the second heater keeps its default values.
  pub compose_lem :
      (digital_read : Log → ℕ → Bool) (sys_time : ℕ) (rssi : ℤ) (s : Switcher F) (b : Battery F)
      (p : P)
      → let (tx, _) = compose sensors digital_read sys_time rssi s b p in
        let voltage = r.voltage psens_ch1_battery in
        let current = r.current psens_ch1_battery in
        let charging = f.fmaxf current nought in
        (tx.shutdown_pc ≡ true → s.consumers_state ≡ ConsumersState.consumers_on_wait4pc_shutdown)
        × (s.consumers_state ≡ ConsumersState.consumers_on_wait4pc_shutdown → tx.shutdown_pc ≡ true)
        × (tx.battery_info.voltage ≡ voltage)
        × (tx.battery_info.current ≡ current)
        × (tx.charger_info ≡ record {
          is_powered = not (digital_read s.log pin_charger);
          is_active = f.lt (f.lit (pos 1) 1) current;
          voltage = voltage;
          current = charging;
          power = f.mul voltage charging;
          avg_power = f.mul voltage charging;
          shunt_adc = r.adc_shunt psens_ch1_battery;
        })
        × (tx.pc_info
            ≡ measured r psens_ch4_pc (digital_read s.log pin_consumers) (f.lit (pos 4) 1))
        × (tx.mount_info
            ≡ measured r psens_ch5_mount (not (digital_read s.log pin_mount)) (f.lit (pos 4) 1))
        × (tx.camera_info
            ≡ measured r psens_ch6_imaging_cam (digital_read s.log pin_camera) (f.lit (pos 2) 1))
        × (tx.heater1_info
            ≡ measured r psens_ch3_dew_heater_2 (f.lt nought (get_heater 1 s)) (f.lit (pos 2) 1))
        × (tx.heater2_info ≡ no_consumer)
  unfolding compose no_tx
  compose_lem digital_read sys_time rssi s b p =
      let (asked, asks) = compose_asks sensors digital_read sys_time rssi s b p in
      let p1 = (sensors.reader.get_current psens_ch1_battery p).1 in
      let p2 = (sensors.reader.get_voltage psens_ch1_battery p1).1 in
      let i1 = steady.current psens_ch1_battery p in
      let v1 = steady.voltage psens_ch1_battery p1 in
      (
        asked,
        asks,
        v1,
        i1,
        λ i. record {
          is_powered = not (digital_read s.log pin_charger);
          is_active = f.lt (f.lit (pos 1) 1) (i1 i);
          voltage = v1 i;
          current = f.fmaxf (i1 i) nought;
          power = f.mul (v1 i) (f.fmaxf (i1 i) nought);
          avg_power = f.mul (v1 i) (f.fmaxf (i1 i) nought);
          shunt_adc = steady.adc_shunt psens_ch1_battery p2 i;
        },
        consumer_info-measured psens_ch4_pc _ _ _,
        consumer_info-measured psens_ch5_mount _ _ _,
        consumer_info-measured psens_ch6_imaging_cam _ _ _,
        consumer_info-measured psens_ch3_dew_heater_2 _ _ _,
        refl,
      )
