-- ===== src/RingBuffer.antt =====
-- `pliskin_ringbuffer::rb_base` (lib/ringbuffer/rb.h and rb.cpp). The storage is a list of slots,
-- one for each `element_size` bytes that the code moves by `memcpy`; a slot is any type `A`. A
-- method that changes `*this` returns the new buffer, and an output parameter `void * element`
-- is passed in with the value that it has before the call, and handed back.
pub mod Inv
pub mod Queue
pub mod Contents
pub mod Refine
pub mod Trace
pub mod Peek
mod Tests
use astro_photo_power_box.Prelude.{
  ℕ, ◌+◌, ◌-◌, Bool, true, false, not, ◌&&◌, ◌||◌, List, leb, ◌==◌, if◌then◌else◌, get_or, set,
  replicate, u16,
}

pub record RbBase {ℓ} (A : Type ℓ) : Type ℓ where
  pub full : Bool
  pub empty : Bool
  pub mem_ok : Bool
  pub num_elements : ℕ  -- uint16_t
  pub read_ndx : ℕ  -- uint16_t
  pub write_ndx : ℕ  -- uint16_t
  pub rb_data : List A
  pub peak_all_ndx : ℕ  -- uint16_t
  pub peak_start : Bool

-- The increment and the return to slot 0.
abbrev pub advance : ℕ → ℕ → ℕ
advance num_elements ndx = if leb num_elements (u16 (ndx + 1)) then 0 else u16 (ndx + 1)

module _ {ℓ} {A : Type ℓ} where
  -- The constructor. `calloc` hands out cleared memory (`blank` is a slot of zero bytes) or fails.
  unfoldable pub rb_base : A → Bool → ℕ → RbBase A
  rb_base blank allocated num_of_elements = record {
    full = false;
    empty = true;
    mem_ok = allocated;
    num_elements = num_of_elements;
    read_ndx = 0;
    write_ndx = 0;
    rb_data = if allocated then replicate num_of_elements blank else replicate 0 blank;
    peak_all_ndx = 0;
    peak_start = false;
  }

  -- uint16_t arithmetic; `remaining_elements -= _read_ndx` and `+= _write_ndx` wrap.
  unfoldable pub remaining_elm : RbBase A → ℕ
  remaining_elm r =
      if not r.empty
      then (if not r.full
          then (if leb r.read_ndx r.write_ndx
              then r.write_ndx - r.read_ndx
              else u16 (u16 (r.num_elements + 65536 - r.read_ndx) + r.write_ndx))
          else r.num_elements)
      else 0

  unfoldable pub peak : A → RbBase A → Bool × A
  peak element r =
      if r.empty || not r.mem_ok
      then (false, element)
      else (true, get_or r.rb_data r.read_ndx element)

  unfoldable pub increment_rd_ndx : RbBase A → RbBase A
  increment_rd_ndx r =
      let ndx = advance r.num_elements r.read_ndx in
      record r { read_ndx = ndx; full = false; empty = r.empty || ndx == r.write_ndx }

  unfoldable pub increment_wr_ndx : RbBase A → RbBase A
  increment_wr_ndx r =
      let ndx = advance r.num_elements r.write_ndx in
      record r { write_ndx = ndx; empty = false; full = if ndx == r.read_ndx then true else r.full }

  unfoldable pub read : A → RbBase A → Bool × A × RbBase A
  unfolding peak increment_rd_ndx
  read element r =
      let (peak_ok, value) = peak element r in
      (peak_ok, value, if peak_ok then increment_rd_ndx r else r)

  unfoldable pub write : A → RbBase A → Bool × RbBase A
  unfolding increment_wr_ndx
  write element r =
      if r.full || not r.mem_ok
      then (false, r)
      else (true, increment_wr_ndx (record r { rb_data = set r.rb_data r.write_ndx element }))

  unfoldable pub write_lossy : A → RbBase A → Bool × RbBase A
  unfolding write increment_rd_ndx
  write_lossy element r = write element (if r.full then increment_rd_ndx r else r)

  unfoldable pub clear : RbBase A → RbBase A
  clear r = record r { read_ndx = 0; write_ndx = 0; full = false; empty = true }

  unfoldable pub peak_all_start : RbBase A → ℕ × RbBase A
  unfolding remaining_elm
  peak_all_start r =
      let r' = record r { peak_all_ndx = r.read_ndx; peak_start = true } in (remaining_elm r', r')

  unfoldable pub peak_all_next : A → RbBase A → Bool × A × RbBase A
  peak_all_next element r =
      if not r.mem_ok || r.empty || (not r.peak_start && r.peak_all_ndx == r.write_ndx)
      then (false, element, r)
      else (
        true,
        get_or r.rb_data r.peak_all_ndx element,
        record r { peak_start = false; peak_all_ndx = advance r.num_elements r.peak_all_ndx },
      )
