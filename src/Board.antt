-- ===== src/Board.antt =====
-- What the firmware asks of the board through the Arduino core (code that is not in the
-- repository). The requests are kept in a log, the newest first. `digital_read` is a parameter of
-- the code that calls it, with `IsReadingBack` as the documented behaviour of an output pin.
use astro_photo_power_box.Prelude.{ℕ, ◌≡◌, ◌≢◌, Bool, List, [], ◌∷◌, ℤ, ◌==◌, if◌then◌else◌}

pub data Mode : Type 0 where
  output input : Mode

pub data Request : Type 0 where
  pin_mode : ℕ → Mode → Request
  digital_write : ℕ → Bool → Request
  analog_write : ℕ → ℤ → Request
  analog_write_resolution : ℕ → Request
  analog_write_freq : ℕ → Request
  attach_interrupt : ℕ → Request

abbrev pub Log : Type 0
Log = List Request

-- The level last written to a pin.
unfoldable pub level : Bool → ℕ → Log → Bool
level start pin [] = start
level start pin (digital_write p b ∷ log) = if p == pin then b else level start pin log
level start pin (_ ∷ log) = level start pin log

-- The PWM value last written to a pin.
unfoldable pub analog : ℤ → ℕ → Log → ℤ
analog start pin [] = start
analog start pin (analog_write p v ∷ log) = if p == pin then v else analog start pin log
analog start pin (_ ∷ log) = analog start pin log

pub record IsReadingBack (digital_read : Log → ℕ → Bool) : Type 0 where
  pub own : (log : Log) (pin : ℕ) (b : Bool) → digital_read (digital_write pin b ∷ log) pin ≡ b
  pub other :
      (log : Log) (pin p : ℕ) (b : Bool)
      → p ≢ pin
      → digital_read (digital_write p b ∷ log) pin ≡ digital_read log pin
