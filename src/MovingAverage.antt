-- ===== src/MovingAverage.antt =====
-- The moving average (lib/moving average/mavg.hpp, mavg.cpp), on the ring buffer. The buffer that
-- `new` hands out is there as long as the object is, so the tests for a null pointer pass. The values
-- of a ring buffer are read into a variable that is not initialised, `blank` here.
pub mod Window
pub mod Filling
mod Tests
use astro_photo_power_box.Prelude.{ℕ, zero, suc, Bool, true, false, pos, if◌then◌else◌, arith}
use astro_photo_power_box.Float.{Float, nought}
use astro_photo_power_box.RingBuffer.{RbBase, rb_base, read, write, peak, clear, remaining_elm}

pub record MovingAverage (F : Type 0) : Type 0 where
  pub buffer : RbBase F
  pub sum : F
  pub avg_value : F

module _ {F : Type 0} ⦃f : Float F⦄ where
  unfoldable pub moving_average : Bool → ℕ → MovingAverage F
  unfolding rb_base
  moving_average allocated size = record {
    buffer = rb_base nought allocated size;
    sum = nought;
    avg_value = nought;
  }

  unfoldable pub add_value : F → F → MovingAverage F → MovingAverage F
  unfolding read write remaining_elm
  add_value blank value m =
      let (_, old_val, taken) = read blank m.buffer in
      let (buffer, sum) =
        if m.buffer.full then (taken, f.sub m.sum old_val) else (m.buffer, m.sum) in
      let buffer = (write value buffer).1 in
      let sum = f.add sum value in
      record {
        buffer = buffer;
        sum = sum;
        avg_value = f.div sum (f.of_int (pos (remaining_elm buffer)));
      }

  unfoldable pub get_oldest_value : MovingAverage F → F
  unfolding peak
  get_oldest_value m = (peak nought m.buffer).1

  -- The loop of `reset`: it ends at the first write that is refused.
  unfoldable pub fill : ℕ → F → RbBase F → F → RbBase F × F
  unfolding write
  fill zero start_value buffer sum = (buffer, sum)
  fill (suc fuel) start_value buffer sum =
      let (written, b) = write start_value buffer in
      let rest = fill fuel start_value b (f.add sum start_value) in
      if written then rest else (buffer, sum)

  unfoldable pub reset : ℕ → F → MovingAverage F → MovingAverage F
  unfolding fill clear
  reset fuel start_value m =
      let (buffer, sum) = fill fuel start_value (clear m.buffer) nought in
      record { buffer = buffer; sum = sum; avg_value = start_value }
