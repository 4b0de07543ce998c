-- ===== src/RingBuffer/Contents.antt =====
-- The elements that a ring buffer holds, oldest first, and where its indices point.
use astro_photo_power_box.Prelude.{
  ℕ, zero, suc, ◌+◌, ◌-◌, ◌≤◌, ◌<◌, ◌≡◌, refl, ap, ◌∙◌, ◌≢◌, ◌⊎◌, inl, true, false, List, [], ◌∷◌,
  ◌++◌, length, get_or, set, get_or-set_self, get_or-set_ne, arith,
}
use mathlib.Core.Path.{ap₂}
use astro_photo_power_box.RingBuffer.{RbBase, advance, remaining_elm}
use astro_photo_power_box.RingBuffer.Inv.{IsValid, remaining_elm-le}

-- The slot that is `k` places behind slot `i`.
unfoldable pub slot : ℕ → ℕ → ℕ → ℕ
slot n i zero = i
slot n i (suc k) = slot n (advance n i) k

pub slot_pos : (n i k : ℕ) → 0 < k → slot n i k ≡ slot n (advance n i) (k - 1)
unfolding slot
slot_pos n i zero h = absurd (omega arith)
slot_pos n i (suc k) h = let e : k ≡ suc k - 1 = omega arith in ap (slot n (advance n i)) e

-- Less than once around, `slot` is a sum or a sum less the capacity.
pub slot_lem :
    (n i k : ℕ)
    → n < 65536
    → i < n
    → k ≤ n
    → (slot n i k ≡ i + k) × (i + k < n) ⊎ (slot n i k + n ≡ i + k)
unfolding slot
slot_lem n i zero b h m = inl (omega arith)
slot_lem n i (suc k) b h m =
    ground (arith, slot_lem n (advance n i) k b (ground arith) (omega arith))

module _ {ℓ} {A : Type ℓ} (blank : A) where
  -- The `k` elements from slot `i` on.
  unfoldable pub elements : List A → ℕ → ℕ → ℕ → List A
  elements d n i zero = []
  elements d n i (suc k) = get_or d i blank ∷ elements d n (advance n i) k

  abbrev pub contents : RbBase A → List A
  contents r = elements r.rb_data r.num_elements r.read_ndx (remaining_elm r)

  pub length-elements : (d : List A) (n i k : ℕ) → length (elements d n i k) ≡ k
  unfolding elements
  length-elements d n i zero = refl
  length-elements d n i (suc k) = ap suc (length-elements d n (advance n i) k)

  -- The code tests for the empty buffer, `elements` matches on `suc`.
  pub elements_pos :
      (d : List A) (n i k : ℕ)
      → 0 < k
      → elements d n i k ≡ get_or d i blank ∷ elements d n (advance n i) (k - 1)
  unfolding elements
  elements_pos d n i zero h = absurd (omega arith)
  elements_pos d n i (suc k) h = ap (λ m. elements d n i (suc m)) (omega arith)

  -- Writing the slot behind the last element appends to the elements.
  pub elements-set :
      (d : List A) (n : ℕ) (x : A) (k i j : ℕ)
      → length d ≡ n
      → n < 65536
      → i < n
      → k < n
      → j ≡ slot n i k
      → elements (set d j x) n i (suc k) ≡ elements d n i k ++ (x ∷ [])
  unfolding elements slot
  elements-set d n x zero i j l b h m e =
      ap (λ y. y ∷ [])
        (ap (λ s. get_or (set d s x) i blank) e ∙ get_or-set_self d i x blank (omega arith))
  elements-set d n x (suc k) i j l b h m e =
      ap₂ ◌∷◌ (get_or-set_ne d j i x blank apart)
        (elements-set d n x k (advance n i) j l b (ground arith) (omega arith) e)
    where
      apart : j ≢ i
      apart = ground (arith, slot_lem n (advance n i) k b (ground arith) (omega arith))

module _ {ℓ} {A : Type ℓ} where
  -- The write index is the slot behind the last element.
  pub write_ndx-slot :
      {r : RbBase A} → IsValid r → r.write_ndx ≡ slot r.num_elements r.read_ndx (remaining_elm r)
  unfolding remaining_elm
  write_ndx-slot {r} v = ground (
    arith,
    slot_lem r.num_elements r.read_ndx (remaining_elm r) v.is_word v.read_in (remaining_elm-le v),
  )

  -- A buffer that is not marked as full has room for one more.
  pub remaining_elm-lt :
      {r : RbBase A} → IsValid r → r.full ≡ false → remaining_elm r < r.num_elements
  unfolding remaining_elm
  remaining_elm-lt v f = ground arith

  pub remaining_elm_full :
      {r : RbBase A} → IsValid r → r.full ≡ true → remaining_elm r ≡ r.num_elements
  unfolding remaining_elm
  remaining_elm_full v f = ground arith
