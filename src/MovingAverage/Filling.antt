-- ===== src/MovingAverage/Filling.antt =====
-- `reset` of the moving average: its loop ends, and leaves a full window.
use astro_photo_power_box.Prelude.{
  ℕ, zero, suc, ◌+◌, ◌<◌, ◌≡◌, ◌∙◌, true, false, List, [], ◌∷◌, ◌++◌, replicate, arith, ap, refl,
  Bool-cases, inl, inr,
}
use astro_photo_power_box.Float.{Float, nought}
use astro_photo_power_box.RingBuffer.{RbBase, write, remaining_elm, clear}
use astro_photo_power_box.RingBuffer.Inv.{IsValid, write-IsValid, clear-IsValid}
use astro_photo_power_box.RingBuffer.Contents.{contents, remaining_elm-lt, remaining_elm_full}
use astro_photo_power_box.RingBuffer.Refine.{
  write_full, written_room, contents_after_write, remaining_elm_after_write, contents-clear,
}
use astro_photo_power_box.MovingAverage.{MovingAverage, fill, reset}
use astro_photo_power_box.MovingAverage.Window.{window}

module _ {ℓ} {A : Type ℓ} where
  append_replicate :
      (q : List A) (x : A) (k : ℕ) → (q ++ (x ∷ [])) ++ replicate k x ≡ q ++ replicate (suc k) x
  append_replicate [] x k = refl
  append_replicate (y ∷ q) x k = ap (λ l. y ∷ l) (append_replicate q x k)

  append_nothing : (q : List A) → q ≡ q ++ []
  append_nothing [] = refl
  append_nothing (y ∷ q) = ap (λ l. y ∷ l) (append_nothing q)

  write-num_elements : (x : A) (r : RbBase A) → (write x r).1.num_elements ≡ r.num_elements
  unfolding write
  write-num_elements x r = ground arith

  clear-remaining :
      (r : RbBase A) → remaining_elm (clear r) + r.num_elements ≡ (clear r).num_elements
  unfolding clear remaining_elm
  clear-remaining r = ground arith

module _ {F : Type 0} ⦃f : Float F⦄ where
  -- A value added to a sum this often, one after the other.
  abbrev pub add_times : ℕ → F → F → F
  add_times zero x sum = sum
  add_times (suc k) x sum = add_times k x (f.add sum x)

  fill_full :
      (fuel : ℕ) (x : F) (r : RbBase F) (sum : F) → r.full ≡ true → fill fuel x r sum ≡ (r, sum)
  unfolding fill
  fill_full zero x r sum e = refl
  fill_full (suc fuel) x r sum e = rw (write_full nought x r e) refl

  fill_room :
      (fuel : ℕ) (x : F) (r : RbBase F) (sum : F)
      → IsValid r
      → r.full ≡ false
      → fill (suc fuel) x r sum ≡ fill fuel x (write x r).1 (f.add sum x)
  unfolding fill
  fill_room fuel x r sum v e = rw (written_room nought x v e) refl

  -- With `k` slots free, enough fuel lets the loop write `k` values.
  fill_lem :
      (k fuel : ℕ) (x : F) (r : RbBase F) (sum : F)
      → IsValid r
      → remaining_elm r + k ≡ r.num_elements
      → k < fuel
      → let (b, sum') = fill fuel x r sum in
        (contents nought b ≡ contents nought r ++ replicate k x) × (sum' ≡ add_times k x sum)
  fill_lem k zero x r sum v e h = absurd (omega arith)
  fill_lem zero (suc fuel) x r sum v e h = elim (Bool-cases r.full) [
    | inl full ↦ rw (fill_full (suc fuel) x r sum full) (append_nothing (contents nought r), refl)
    | inr room ↦ absurd (omega (arith, remaining_elm-lt v room))
  ]
  fill_lem (suc k) (suc fuel) x r sum v e h = elim (Bool-cases r.full) [
    | inl full ↦ absurd (omega (arith, remaining_elm_full v full))
    | inr room ↦
        let (rest, total) =
          fill_lem k fuel x (write x r).1 (f.add sum x) (write-IsValid x v)
            (omega (arith, remaining_elm_after_write nought x v room, write-num_elements x r))
            (omega arith) in
        rw (fill_room fuel x r sum v room) (
          rest
              ∙ ap (λ q. q ++ replicate k x) (contents_after_write nought x v room)
              ∙ append_replicate (contents nought r) x k,
          total,
        )
  ]

  -- The loop of `reset` ends after as many writes as the window is long: with more fuel than that, the
  -- window is full of the start value, whatever it held before, the sum is that of its values added one
  -- after the other, and the average is the start value.
  pub reset_lem :
      (fuel : ℕ) (x : F) (m : MovingAverage F)
      → IsValid m.buffer
      → m.buffer.num_elements < fuel
      → let n = m.buffer.num_elements in
        let m' = reset fuel x m in
        (window m' ≡ replicate n x) × (m'.sum ≡ add_times n x nought) × (m'.avg_value ≡ x)
  unfolding reset
  reset_lem fuel x m v h =
      let r = clear m.buffer in
      let (all, total) =
        fill_lem m.buffer.num_elements fuel x r nought (clear-IsValid v) (clear-remaining m.buffer)
          h in
      (
        all ∙ ap (λ q. q ++ replicate m.buffer.num_elements x) (contents-clear nought m.buffer),
        total,
        refl,
      )
