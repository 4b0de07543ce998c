-- ===== src/RingBuffer/Refine.antt =====
-- A valid ring buffer behaves as the queue of its contents.
use astro_photo_power_box.Prelude.{
  suc, ◌≡◌, refl, ap, sym, inl, inr, true, false, [], ◌∷◌, ◌++◌, length, get_or, arith, Bool-cases,
  get_or_default,
}
use astro_photo_power_box.RingBuffer.{
  RbBase, remaining_elm, increment_rd_ndx, read, write, write_lossy, clear,
}
use astro_photo_power_box.RingBuffer.Inv.{IsValid, increment_rd_ndx-IsValid}
use astro_photo_power_box.RingBuffer.Queue
use astro_photo_power_box.RingBuffer.Contents.{
  elements, contents, length-elements, elements-set, write_ndx-slot, remaining_elm-lt,
  remaining_elm_full,
}

module _ {ℓ} {A : Type ℓ} (blank : A) where
  -- The number of unread elements is the length of the queue.
  pub remaining_elm-length : (r : RbBase A) → remaining_elm r ≡ length (contents blank r)
  remaining_elm-length r =
      sym (length-elements blank r.rb_data r.num_elements r.read_ndx (remaining_elm r))

  remaining_elm-increment_rd_ndx :
      {r : RbBase A}
      → IsValid r
      → r.empty ≡ false
      → suc (remaining_elm (increment_rd_ndx r)) ≡ remaining_elm r
  unfolding remaining_elm increment_rd_ndx
  remaining_elm-increment_rd_ndx v e = ground arith

  pub remaining_elm_after_write :
      (x : A) {r : RbBase A}
      → IsValid r
      → r.full ≡ false
      → remaining_elm (write x r).1 ≡ suc (remaining_elm r)
  unfolding remaining_elm write
  remaining_elm_after_write x v e = ground arith

  -- Dropping the oldest element is what the read index does when it advances.
  contents-increment_rd_ndx :
      {r : RbBase A}
      → IsValid r
      → r.empty ≡ false
      → contents blank r ≡ get_or r.rb_data r.read_ndx blank ∷ contents blank (increment_rd_ndx r)
  unfolding increment_rd_ndx elements
  contents-increment_rd_ndx {r} v e =
      ap (elements blank r.rb_data r.num_elements r.read_ndx)
        (sym (remaining_elm-increment_rd_ndx v e))

  pub contents_after_write :
      (x : A) {r : RbBase A}
      → IsValid r
      → r.full ≡ false
      → contents blank (write x r).1 ≡ contents blank r ++ (x ∷ [])
  unfolding write
  contents_after_write x {r} v f = ground (
    arith,
    remaining_elm_after_write x v f,
    elements-set blank r.rb_data r.num_elements x (remaining_elm r) r.read_ndx r.write_ndx v.storage
        v.is_word v.read_in (remaining_elm-lt v f) (write_ndx-slot v),
  )

  pub write_full : (x : A) (r : RbBase A) → r.full ≡ true → write x r ≡ (false, r)
  unfolding write
  write_full x r f = rw f

  pub written_room : (x : A) {r : RbBase A} → IsValid r → r.full ≡ false → (write x r).0 ≡ true
  unfolding write
  written_room x v f = ground arith

  read_empty : (element : A) (r : RbBase A) → r.empty ≡ true → read element r ≡ (false, element, r)
  unfolding read
  read_empty element r e = rw e

  read_some :
      (element : A) {r : RbBase A}
      → IsValid r
      → r.empty ≡ false
      → read element r ≡ (true, get_or r.rb_data r.read_ndx element, increment_rd_ndx r)
  unfolding read
  read_some element v e = rw (e, v.allocated)

  contents_empty : (r : RbBase A) → r.empty ≡ true → contents blank r ≡ []
  unfolding remaining_elm elements
  contents_empty r e = rw e

  -- The result of `write`, and the contents that it leaves, are those of `Queue.push`: an element
  -- enters at the end unless the buffer is full.
  pub write_refines :
      (x : A) {r : RbBase A}
      → IsValid r
      → let (written, r') = write x r in
        (written, contents blank r') ≡ Queue.push r.num_elements x (contents blank r)
  unfolding Queue.push
  write_refines x {r} v = elim (Bool-cases r.full) [
    | inl f ↦ ground (arith, write_full x r f, remaining_elm-length r, remaining_elm_full v f)
    | inr f ↦ ground (
      arith,
      written_room x v f,
      contents_after_write x v f,
      remaining_elm-length r,
      remaining_elm-lt v f,
    )
  ]

  -- The result of `read`, the element that it hands out and the contents that it leaves are those
  -- of `Queue.pop`: the oldest element, or nothing and the output untouched.
  pub read_refines :
      (element : A) {r : RbBase A}
      → IsValid r
      → let (taken, value, r') = read element r in
        (taken, value, contents blank r') ≡ Queue.pop element (contents blank r)
  unfolding Queue.pop
  read_refines element {r} v = elim (Bool-cases r.empty) [
    | inl e ↦ rw (read_empty element r e, contents_empty r e)
    | inr e ↦ rw (
      read_some element v e,
      contents-increment_rd_ndx v e,
      get_or_default r.rb_data r.read_ndx element blank (omega arith),
    )
  ]

  write_lossy_full :
      (x : A) (r : RbBase A) → r.full ≡ true → write_lossy x r ≡ write x (increment_rd_ndx r)
  unfolding write_lossy
  write_lossy_full x r f = rw f

  write_lossy_room : (x : A) (r : RbBase A) → r.full ≡ false → write_lossy x r ≡ write x r
  unfolding write_lossy
  write_lossy_room x r f = rw f

  increment_rd_ndx-room : (r : RbBase A) → (increment_rd_ndx r).full ≡ false
  unfolding increment_rd_ndx
  increment_rd_ndx-room r = refl

  -- `write_lossy` always stores the element, and drops the oldest one where the buffer is full.
  pub write_lossy_refines :
      (x : A) {r : RbBase A}
      → IsValid r
      → let (written, r') = write_lossy x r in
        (written ≡ true)
        × (contents blank r' ≡ Queue.push_lossy r.num_elements x (contents blank r))
  unfolding Queue.push_lossy Queue.tail
  write_lossy_refines x {r} v = elim (Bool-cases r.full) [
    | inl f ↦
        let e = (v.full_meets f).1 in
        let v' = increment_rd_ndx-IsValid v e in
        let room = increment_rd_ndx-room r in
        ground (
          arith,
          write_lossy_full x r f,
          written_room x v' room,
          contents_after_write x v' room,
          contents-increment_rd_ndx v e,
          remaining_elm-length r,
          remaining_elm_full v f,
        )
    | inr f ↦ ground (
      arith,
      write_lossy_room x r f,
      written_room x v f,
      contents_after_write x v f,
      remaining_elm-length r,
      remaining_elm-lt v f,
    )
  ]

  -- After `clear` nothing is left to read.
  pub contents-clear : (r : RbBase A) → contents blank (clear r) ≡ []
  unfolding clear remaining_elm elements
  contents-clear r = refl
