-- ===== src/RingBuffer/Peek.antt =====
-- Looking at all unread elements by `peak_all_start` and `peak_all_next`.
use astro_photo_power_box.Prelude.{
  ℕ, zero, suc, ◌-◌, ◌<◌, ◌≡◌, true, false, inl, inr, sym, List, [], ◌∷◌, length, get_or,
  if◌then◌else◌, arith, Bool-cases, get_or_default,
}
use astro_photo_power_box.RingBuffer.{RbBase, advance, remaining_elm, peak_all_start, peak_all_next}
use astro_photo_power_box.RingBuffer.Inv.{IsValid, remaining_elm-le, remaining_elm_pos}
use astro_photo_power_box.RingBuffer.Contents.{
  slot, slot_lem, slot_pos, write_ndx-slot, length-elements, elements, contents, elements_pos,
}

module _ {ℓ} {A : Type ℓ} where
  -- The loop of a client, for at most `rounds` elements: it goes on while `peak_all_next` succeeds.
  unfoldable pub peak_loop : ℕ → A → RbBase A → List A
  peak_loop zero element r = []
  peak_loop (suc rounds) element r =
      let (found, value, r') = peak_all_next element r in
      let rest = value ∷ peak_loop rounds value r' in if found then rest else []

  -- The place between two calls: `left` elements are still to be looked at, from `ndx` on.
  record IsPeeking (ndx left : ℕ) (r : RbBase A) : Type ℓ where
    valid : IsValid r
    unread : r.empty ≡ false
    begun : r.peak_start ≡ false
    at : r.peak_all_ndx ≡ ndx
    ndx_in : ndx < r.num_elements
    left_in : left < r.num_elements
    end : r.write_ndx ≡ slot r.num_elements ndx left

  abbrev peaked : RbBase A → ℕ → RbBase A
  peaked r ndx = record r { peak_start = false; peak_all_ndx = advance r.num_elements ndx }

  peak_all_next-IsPeeking :
      {ndx left : ℕ} (element : A) {r : RbBase A}
      → IsPeeking ndx (suc left) r
      → (peak_all_next element r ≡ (true, get_or r.rb_data ndx element, peaked r ndx))
        × IsPeeking (advance r.num_elements ndx) left (peaked r ndx)
  unfolding peak_all_next slot
  peak_all_next-IsPeeking {ndx} {left} element {r} p =
      let apart = slot_lem r.num_elements ndx (suc left) p.valid.is_word p.ndx_in (omega arith) in
      (ground (arith, apart), ground (arith, apart))

  peak_all_next_empty :
      (element : A) (r : RbBase A)
      → r.empty ≡ true
      → (peak_all_next element (peak_all_start r).1).0 ≡ false
  unfolding peak_all_next peak_all_start
  peak_all_next_empty element r e = ground arith

  remaining_elm_empty : (r : RbBase A) → r.empty ≡ true → remaining_elm r ≡ 0
  unfolding remaining_elm
  remaining_elm_empty r e = ground arith

  module _ (blank : A) where
    peak_loop-elements :
        (left ndx rounds : ℕ) (element : A) (r : RbBase A)
        → IsPeeking ndx left r
        → left < rounds
        → peak_loop rounds element r ≡ elements blank r.rb_data r.num_elements ndx left
    unfolding peak_loop elements
    peak_loop-elements left ndx zero element r p h = absurd (omega arith)
    peak_loop-elements zero ndx (suc rounds) element r p h =
        unfold slot peak_all_next in ground (arith, p.valid, p.end)
    peak_loop-elements (suc left) ndx (suc rounds) element r p h =
        let (step, p') = peak_all_next-IsPeeking element p in
        ground (
          arith,
          step,
          get_or_default r.rb_data ndx element blank (omega (arith, p.valid)),
          peak_loop-elements left (advance r.num_elements ndx) rounds (get_or r.rb_data ndx element)
              (peaked r ndx) p' (omega arith),
        )

    -- The place after the first of `suc left` elements, from the state that `peak_all_start` sets.
    IsPeeking-start :
        (r : RbBase A)
        → IsValid r
        → r.empty ≡ false
        → let s = (peak_all_start r).1 in
          let s' = peaked s r.read_ndx in
          ((element : A)
            → peak_all_next element s ≡ (true, get_or r.rb_data r.read_ndx element, s'))
          × IsPeeking (advance r.num_elements r.read_ndx) (remaining_elm r - 1) s'
    unfolding peak_all_start peak_all_next
    IsPeeking-start r v e = (
      λ element. ground arith,
      ground (
        arith,
        remaining_elm-le v,
        remaining_elm_pos v e,
        write_ndx-slot v,
        slot_pos r.num_elements r.read_ndx (remaining_elm r),
      ),
    )

    peak_loop-contents :
        (element : A) (rounds : ℕ) {r : RbBase A}
        → IsValid r
        → remaining_elm r < rounds
        → peak_loop rounds element (peak_all_start r).1 ≡ contents blank r
    unfolding peak_loop elements peak_all_start
    peak_loop-contents element zero v h = absurd (omega arith)
    peak_loop-contents element (suc rounds) {r} v h = elim (Bool-cases r.empty) [
      | inl e ↦ ground (arith, peak_all_next_empty element r e, remaining_elm_empty r e)
      | inr e ↦
          let (step, p) = IsPeeking-start r v e in
          ground (
            arith,
            step element,
            get_or_default r.rb_data r.read_ndx element blank (omega (arith, v)),
            remaining_elm_pos v e,
            elements_pos blank r.rb_data r.num_elements r.read_ndx (remaining_elm r),
            peak_loop-elements (remaining_elm r - 1) (advance r.num_elements r.read_ndx) rounds
                (get_or r.rb_data r.read_ndx element) (peaked (peak_all_start r).1 r.read_ndx) p
                (omega (arith, remaining_elm_pos v e)),
          )
    ]

    -- After `peak_all_start` the calls of `peak_all_next` hand out all unread elements, oldest
    -- first and each once, and then fail; and `peak_all_start` returns how many there are.
    pub peak_loop_lem :
        (element : A) (rounds : ℕ) {r : RbBase A}
        → IsValid r
        → remaining_elm r < rounds
        → let (count, s) = peak_all_start r in
          (count ≡ length (contents blank r)) × (peak_loop rounds element s ≡ contents blank r)
    unfolding peak_all_start
    peak_loop_lem element rounds {r} v h = (
      unfold remaining_elm in
          sym (length-elements blank r.rb_data r.num_elements r.read_ndx (remaining_elm r)),
      peak_loop-contents element rounds v h,
    )
