-- ===== src/Sensors/Ina3221/Bus.antt =====
-- The bus: the receive buffer is emptied, and what a register read reports.
use astro_photo_power_box.Prelude.{ℕ, zero, suc, ◌+◌, ◌*◌, ◌<◌, ◌≡◌, ◌≢◌, true, false, arith}
use astro_photo_power_box.Sensors.Wire.{TwoWire, IsBuffered}
use astro_photo_power_box.Sensors.Ina3221.{drain, prepare_wire, set_register_pointer, read16}

module _ {W : Type 0} (wire : TwoWire W) where
  drain-pending :
      (pending : W → ℕ) (fuel : ℕ) (w : W)
      → IsBuffered W wire pending
      → pending w < fuel
      → pending (drain wire fuel w) ≡ 0
  unfolding drain
  drain-pending pending zero w b h = absurd (omega arith)
  drain-pending pending (suc fuel) w b h =
      let w' = (wire.available w).1 in
      ground
        (arith, b.counts w, b.counting w, b.takes w', drain-pending pending fuel (wire.read w').1 b)

  -- The loop of `_prepareWire` ends, with the receive buffer empty, if the fuel exceeds the number of
  -- bytes that wait once the bus is set up.
  pub prepare_wire-pending :
      (pending : W → ℕ) (fuel : ℕ) (w : W)
      → IsBuffered W wire pending
      → pending (wire.flush (wire.set_clock 400000 (wire.begin w))) < fuel
      → pending (prepare_wire wire fuel w) ≡ 0
  unfolding prepare_wire
  prepare_wire-pending pending fuel w b h =
      drain-pending pending fuel (wire.flush (wire.set_clock 400000 (wire.begin w))) b h

  -- The bus after the request for the two bytes of a register.
  abbrev pub requested : ℕ → ℕ → W → W
  requested addr reg_addr w =
      wire.request_from addr 2 true
        (wire.end_transmission false (set_register_pointer wire addr reg_addr w).1).1

  -- What a register read reports. If the register pointer cannot be set, it fails. Otherwise it
  -- reports success: the two bytes as a word, the first one above, if two bytes came, and the value
  -- zero if any other number came.
  pub read16_reports :
      (addr reg_addr : ℕ) (w : W)
      → let (success, value, _) = read16 wire addr reg_addr w in
        let w2 = requested addr reg_addr w in
        let (high, w3) = wire.read (wire.available w2).1 in
        let set = (set_register_pointer wire addr reg_addr w).0 in
        (success ≡ set)
        × (set ≡ false → value ≡ 0)
        × (set ≡ true → (wire.available w2).0 ≢ 2 → value ≡ 0)
        × (set ≡ true
            → (wire.available w2).0 ≡ 2
            → high < 256
            → (wire.read w3).0 < 256
            → value ≡ high * 256 + (wire.read w3).0)
  unfolding read16
  read16_reports addr reg_addr w = ground arith
