-- ===== src/Sensors/Wire.antt =====
-- What the driver uses of the Arduino core: the I2C bus (`TwoWire`) and `millis`. This code is not in
-- the repository; `W` is its state. `IsBuffered` is the documented behaviour of the receive buffer.
use astro_photo_power_box.Prelude.{ℕ, ◌-◌, ◌≡◌, Bool}

pub record TwoWire (W : Type 0) : Type 0 where
  pub begin : W → W
  pub set_clock : ℕ → W → W
  pub set_timeout : ℕ → W → W
  pub flush : W → W
  pub available : W → ℕ × W
  -- a byte, or -1 where the buffer is empty
  pub read : W → ℕ × W
  pub begin_transmission : ℕ → W → W
  pub write : ℕ → W → ℕ × W
  pub end_transmission : Bool → W → ℕ × W
  pub request_from : ℕ → ℕ → Bool → W → W
  pub millis : W → ℕ × W

pub record IsBuffered (W : Type 0) (wire : TwoWire W) (pending : W → ℕ) : Type 0 where
  pub counts : (w : W) → (wire.available w).0 ≡ pending w
  pub counting : (w : W) → pending (wire.available w).1 ≡ pending w
  pub takes : (w : W) → pending (wire.read w).1 ≡ pending w - 1
