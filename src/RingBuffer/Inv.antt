-- ===== src/RingBuffer/Inv.antt =====
-- The representation invariant of `rb_base`: the flags agree with the indices, and every access
-- stays inside the storage.
use astro_photo_power_box.Prelude.{
  ℕ, ◌≤◌, ◌<◌, ◌≡◌, true, false, false, length, length-set, length-replicate, arith,
}
use astro_photo_power_box.RingBuffer.{
  RbBase, rb_base, increment_rd_ndx, remaining_elm, read, write, write_lossy, clear,
}

pub record IsValid {ℓ} {A : Type ℓ} (r : RbBase A) : Type ℓ where
  pub some_slots : 0 < r.num_elements
  pub is_word : r.num_elements < 65536
  pub storage : length r.rb_data ≡ r.num_elements
  pub allocated : r.mem_ok ≡ true
  pub read_in : r.read_ndx < r.num_elements
  pub write_in : r.write_ndx < r.num_elements
  pub full_meets : r.full ≡ true → (r.read_ndx ≡ r.write_ndx) × (r.empty ≡ false)
  pub empty_meets : r.empty ≡ true → r.read_ndx ≡ r.write_ndx
  pub flagged : r.read_ndx ≡ r.write_ndx → r.full ≡ false → r.empty ≡ true

module _ {ℓ} {A : Type ℓ} where
  pub rb_base-IsValid : (blank : A) (n : ℕ) → 0 < n → n < 65536 → IsValid (rb_base blank true n)
  unfolding rb_base
  rb_base-IsValid blank n h k = ground (arith, length-replicate n blank)

  pub increment_rd_ndx-IsValid :
      {r : RbBase A} → IsValid r → r.empty ≡ false → IsValid (increment_rd_ndx r)
  unfolding increment_rd_ndx
  increment_rd_ndx-IsValid v e = ground arith

  -- The number of unread elements never exceeds the capacity.
  pub remaining_elm-le : {r : RbBase A} → IsValid r → remaining_elm r ≤ r.num_elements
  unfolding remaining_elm
  remaining_elm-le v = ground arith

  pub remaining_elm_pos : {r : RbBase A} → IsValid r → r.empty ≡ false → 0 < remaining_elm r
  unfolding remaining_elm
  remaining_elm_pos v e = ground arith

  -- `read` keeps the representation invariant of a valid buffer, empty or not.
  pub read-IsValid : (element : A) {r : RbBase A} → IsValid r → IsValid (read element r).2
  unfolding read
  read-IsValid element v = ground arith

  -- `write` keeps the representation invariant of a valid buffer, full or not.
  pub write-IsValid : (element : A) {r : RbBase A} → IsValid r → IsValid (write element r).1
  unfolding write
  write-IsValid element {r} v = ground (arith, length-set r.rb_data r.write_ndx element)

  pub write_lossy-IsValid :
      (element : A) {r : RbBase A} → IsValid r → IsValid (write_lossy element r).1
  unfolding write_lossy
  write_lossy-IsValid element {r} v = ground (arith, length-set r.rb_data r.write_ndx element)

  pub clear-IsValid : {r : RbBase A} → IsValid r → IsValid (clear r)
  unfolding clear
  clear-IsValid v = ground arith
