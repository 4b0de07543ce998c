-- ===== src/Sensors/Tests.antt =====
-- Runs of the sensors on a small bus: its state is the receive buffer, every byte that is written
-- goes out, every request is answered by two bytes, and the clock stands at 1000 ms.
use astro_photo_power_box.Prelude.{
  ℕ, zero, suc, ◌+◌, ◌-◌, ◌*◌, ◌≤◌, ◌<◌, ◌≡◌, ◌≢◌, ◌⊎◌, refl, true, false, List, [], ◌∷◌, ◌++◌,
  length, get_or, ltb, u32, signed16, pos, negsuc, ◌≤ℤ◌, arith, if◌then◌else◌,
}
use astro_photo_power_box.Float.Milli.{Milli, milli_float}
use astro_photo_power_box.Sensors.Wire.{TwoWire, IsBuffered}
use astro_photo_power_box.Sensors.Ina3221.{
  Sensor, dummy, uncorrected, parse_adc, prepare_wire, set_register_pointer, read16, get_voltage,
}
use astro_photo_power_box.Sensors.Ina3221.Adc.{shift3, signed16-parse_adc}
use astro_photo_power_box.Sensors.Ina3221.Bus.{prepare_wire-pending, requested, read16_reports}
use astro_photo_power_box.Sensors.Ina3221.Channels.{IsWellFormed, fresh, get_voltage_lem}
use astro_photo_power_box.Sensors.Psens.{Psens, at, psens_loop}
use astro_photo_power_box.Sensors.Psens.Products.{IsMeasured}
use astro_photo_power_box.Sensors.Psens.Powers.{psens_loop-IsMeasured}

abbrev bytes_left : List ℕ → List ℕ
bytes_left [] = []
bytes_left (b ∷ bs) = bs

abbrev wire : TwoWire (List ℕ)
wire = record {
  begin = λ w. w;
  set_clock = λ n w. w;
  set_timeout = λ n w. w;
  flush = λ w. w;
  available = λ w. (length w, w);
  read = λ w. (get_or w 0 255, bytes_left w);
  begin_transmission = λ a w. w;
  write = λ b w. (1, w);
  end_transmission = λ b w. (0, w);
  request_from = λ a n b w. w ++ (18 ∷ 52 ∷ []);
  millis = λ w. (1000, w);
}

wire-IsBuffered : IsBuffered (List ℕ) wire length
wire-IsBuffered = record { counts = λ w. refl; counting = λ w. refl; takes = left }
  where
    left : (w : List ℕ) → length (bytes_left w) ≡ length w - 1
    left [] = refl
    left (b ∷ bs) = omega arith

signed16-parse_adc_example :
    (signed16 (parse_adc 65528) ≡ shift3 (signed16 65528))
    × (negsuc 4095 ≤ℤ signed16 (parse_adc 65528))
    × (signed16 (parse_adc 65528) ≤ℤ pos 4095)
signed16-parse_adc_example = signed16-parse_adc 65528 (omega arith)

prepare_wire-pending_example : length (prepare_wire wire 4 (1 ∷ 2 ∷ 3 ∷ [])) ≡ 0
prepare_wire-pending_example =
    prepare_wire-pending wire length 4 (1 ∷ 2 ∷ 3 ∷ []) wire-IsBuffered (omega arith)

read16_reports_example :
    let (success, value, _) = read16 wire 64 2 [] in
    let w2 = requested wire 64 2 [] in
    let (high, w3) = wire.read (wire.available w2).1 in
    let set = (set_register_pointer wire 64 2 []).0 in
    (success ≡ set)
    × (set ≡ false → value ≡ 0)
    × (set ≡ true → (wire.available w2).0 ≢ 2 → value ≡ 0)
    × (set ≡ true
        → (wire.available w2).0 ≡ 2
        → high < 256
        → (wire.read w3).0 < 256
        → value ≡ high * 256 + (wire.read w3).0)
read16_reports_example = read16_reports wire 64 2 []

abbrev chip : Sensor Milli
chip = record {
  addr = 64;
  voltages = dummy ∷ dummy ∷ dummy ∷ [];
  currents = dummy ∷ dummy ∷ dummy ∷ [];
  v_adc_correction = uncorrected ∷ uncorrected ∷ uncorrected ∷ [];
  i_adc_correction = uncorrected ∷ uncorrected ∷ uncorrected ∷ [];
  min_read_delay = 10;
  config_register = 0x7727;
}

chip-IsWellFormed : IsWellFormed chip
chip-IsWellFormed = record {
  three_voltages = refl;
  three_currents = refl;
  three_v = refl;
  three_i = refl;
}

get_voltage_lem_example :
    let (val, s', w') = get_voltage wire 1 chip [] in
    let (time, w1) = wire.millis [] in
    let old = get_or chip.voltages 1 dummy in
    let young = ltb time (u32 (old.time + chip.min_read_delay)) in
    let (success, raw, w2) = read16 wire chip.addr (2 + 2 * 1) w1 in
    let correction = get_or chip.v_adc_correction 1 uncorrected in
    (3 ≤ 1 → (val ≡ dummy) × (s' ≡ chip) × (w' ≡ []))
    × (1 < 3
        → (get_or s'.voltages 1 dummy ≡ val)
          × ((c : ℕ) → c ≢ 1 → get_or s'.voltages c dummy ≡ get_or chip.voltages c dummy)
          × (s'.currents ≡ chip.currents)
          × IsWellFormed s')
    × (1 < 3 → old.valid ≡ true → young ≡ true → (val ≡ old) × (w' ≡ w1))
    × (1 < 3
        → (old.valid ≡ false) ⊎ (young ≡ false)
        → (w' ≡ w2)
          × (val
              ≡ (if success then fresh wire correction time raw else record old { valid = false })))
get_voltage_lem_example = get_voltage_lem wire 1 chip [] chip-IsWellFormed

abbrev two_chips : Psens Milli
two_chips = record {
  sensors = chip ∷ chip ∷ [];
  next_update = 0;
  update_delay = 100;
  powers = 0 ∷ 0 ∷ 0 ∷ 0 ∷ 0 ∷ 0 ∷ [];
}

two_chips-IsMeasured : IsMeasured 0 two_chips
two_chips-IsMeasured = record {
  two = refl;
  six = refl;
  formed = each;
  products = λ n h. absurd (omega arith);
}
  where
    each : (i : ℕ) → i < 2 → IsWellFormed (at two_chips i)
    each zero h = chip-IsWellFormed
    each (suc zero) h = chip-IsWellFormed
    each (suc (suc i)) h = absurd (omega arith)

psens_loop-IsMeasured_example : IsMeasured 6 (psens_loop wire 1000 two_chips []).0
psens_loop-IsMeasured_example =
    psens_loop-IsMeasured wire 1000 two_chips [] (omega arith) two_chips-IsMeasured
