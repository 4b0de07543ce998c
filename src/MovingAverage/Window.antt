-- ===== src/MovingAverage/Window.antt =====
-- The window of the moving average.
use astro_photo_power_box.Prelude.{
  ◌<◌, ◌≡◌, Bool, true, false, List, [], ◌∷◌, ◌++◌, length, pos, arith, sym, ap, ◌∙◌, Bool-cases,
  inl, inr, gt→leb, if_true, if_false, le→leb, if◌then◌else◌, leb,
}
use astro_photo_power_box.Float.{Float, nought}
use astro_photo_power_box.RingBuffer.{RbBase, read, write}
use astro_photo_power_box.RingBuffer.Inv.{IsValid, read-IsValid, write-IsValid}
use astro_photo_power_box.RingBuffer.Queue as Queue
use astro_photo_power_box.RingBuffer.Contents.{contents, remaining_elm-lt, remaining_elm_full}
use astro_photo_power_box.RingBuffer.Refine.{
  contents_after_write, read_refines, remaining_elm-length,
}
use astro_photo_power_box.MovingAverage.{MovingAverage, add_value}

module _ {F : Type 0} ⦃f : Float F⦄ where
  abbrev pub window : MovingAverage F → List F
  window m = contents nought m.buffer

  -- The buffer and the sum once there is room for a value.
  abbrev make_room : F → MovingAverage F → RbBase F × F
  make_room blank m =
      let (_, old_val, taken) = read blank m.buffer in
      if m.buffer.full then (taken, f.sub m.sum old_val) else (m.buffer, m.sum)

  -- The sum once the oldest value has left a full window.
  abbrev pub reduced_sum : F → MovingAverage F → F
  reduced_sum blank m = if m.buffer.full then f.sub m.sum (Queue.pop blank (window m)).1 else m.sum

  record IsRoom (blank : F) (m : MovingAverage F) (b : RbBase F) (sum : F) : Type 0 where
    valid : IsValid b
    room : b.full ≡ false
    rest : contents nought b ≡ (
        if leb m.buffer.num_elements (length (window m)) then Queue.tail (window m) else window m)
    reduced : sum ≡ reduced_sum blank m

  read-room : (blank : F) (r : RbBase F) → IsValid r → r.full ≡ true → (read blank r).2.full ≡ false
  unfolding read
  read-room blank r v h = ground arith

  -- What is left of a list of which something was taken.
  taken-tail :
      (blank value : F) (w q : List F) (taken : Bool)
      → 0 < length w
      → (taken, value, q) ≡ Queue.pop blank w
      → q ≡ Queue.tail w
  unfolding Queue.pop Queue.tail
  taken-tail blank value [] q taken h e = absurd (omega arith)
  taken-tail blank value (x ∷ w) q taken h e = ap (λ r. r.2) e

  full-length :
      (m : MovingAverage F)
      → IsValid m.buffer
      → m.buffer.full ≡ true
      → length (window m) ≡ m.buffer.num_elements
  full-length m v e = sym (remaining_elm-length nought m.buffer) ∙ remaining_elm_full v e

  full-rest :
      (m : MovingAverage F)
      → IsValid m.buffer
      → m.buffer.full ≡ true
      → (if leb m.buffer.num_elements (length (window m)) then Queue.tail (window m) else window m)
        ≡ Queue.tail (window m)
  full-rest m v e =
      if_true (leb m.buffer.num_elements (length (window m))) (Queue.tail (window m)) (window m)
        (le→leb m.buffer.num_elements (length (window m)) (omega (arith, full-length m v e)))

  room-rest :
      (m : MovingAverage F)
      → IsValid m.buffer
      → m.buffer.full ≡ false
      → (if leb m.buffer.num_elements (length (window m)) then Queue.tail (window m) else window m)
        ≡ window m
  room-rest m v e =
      if_false (leb m.buffer.num_elements (length (window m))) (Queue.tail (window m)) (window m) (
        gt→leb m.buffer.num_elements (length (window m))
          (omega (arith, remaining_elm-length nought m.buffer, remaining_elm-lt v e)))

  make_room-IsRoom :
      (blank : F) (m : MovingAverage F)
      → IsValid m.buffer
      → IsRoom blank m (make_room blank m).0 (make_room blank m).1
  make_room-IsRoom blank m v = elim (Bool-cases m.buffer.full) [
    | inl e ↦
        let (taken, old_val, r) = read blank m.buffer in
        let refined = read_refines nought blank v in
        rw (if_true {A = RbBase F × F} m.buffer.full (r, f.sub m.sum old_val) (m.buffer, m.sum) e)
          (record {
            valid = read-IsValid blank v;
            room = read-room blank m.buffer v e;
            rest =
                taken-tail blank old_val (window m) (contents nought r) taken
                  (omega (arith, full-length m v e, v.some_slots)) refined
                ∙ sym (full-rest m v e);
            reduced =
                ap (λ q. f.sub m.sum q.1) refined
                ∙ sym (if_true m.buffer.full (f.sub m.sum (Queue.pop blank (window m)).1) m.sum e);
          })
    | inr e ↦
        let (_, old_val, r) = read blank m.buffer in
        rw (if_false {A = RbBase F × F} m.buffer.full (r, f.sub m.sum old_val) (m.buffer, m.sum) e)
          (record {
            valid = v;
            room = e;
            rest = sym (room-rest m v e);
            reduced =
                sym (if_false m.buffer.full (f.sub m.sum (Queue.pop blank (window m)).1) m.sum e);
          })
  ]

  -- `addValue` pushes the value into the window, and the oldest one out where the window is full. To
  -- the sum the value is added, once the oldest one has been subtracted where the window was full, and
  -- the average is the sum divided by the number of the window's values.
  pub add_value_lem :
      (blank value : F) (m : MovingAverage F)
      → IsValid m.buffer
      → let m' = add_value blank value m in
        (window m' ≡ Queue.push_lossy m.buffer.num_elements value (window m))
        × (m'.sum ≡ f.add (reduced_sum blank m) value)
        × (m'.avg_value ≡ f.div m'.sum (f.of_int (pos (length (window m')))))
        × IsValid m'.buffer
  unfolding add_value Queue.push_lossy
  add_value_lem blank value m v =
      let (b, sum) = make_room blank m in
      let r = make_room-IsRoom blank m v in
      let after = contents_after_write nought value r.valid r.room in
      (
        after ∙ ap (λ xs. xs ++ (value ∷ [])) r.rest,
        ap (λ s. f.add s value) r.reduced,
        ap (λ n. f.div (f.add sum value) (f.of_int (pos n)))
            (remaining_elm-length nought (write value b).1),
        write-IsValid value r.valid,
      )
