-- ===== src/RingBuffer/Queue.antt =====
-- What a client may expect of the ring buffer: a queue of at most `capacity` elements, oldest
-- first.
use astro_photo_power_box.Prelude.{
  ℕ, Bool, true, false, List, [], ◌∷◌, ◌++◌, length, leb, if◌then◌else◌,
}

module _ {ℓ} {A : Type ℓ} where
  -- A refused element changes nothing.
  unfoldable pub push : ℕ → A → List A → Bool × List A
  push capacity x q = if leb capacity (length q) then (false, q) else (true, q ++ (x ∷ []))

  -- The output keeps its old value where there is nothing to take.
  unfoldable pub pop : A → List A → Bool × A × List A
  pop element [] = (false, element, [])
  pop element (x ∷ q) = (true, x, q)

  unfoldable pub tail : List A → List A
  tail [] = []
  tail (x ∷ q) = q

  -- The element always enters; the oldest one leaves where there is no room.
  unfoldable pub push_lossy : ℕ → A → List A → List A
  unfolding tail
  push_lossy capacity x q = (if leb capacity (length q) then tail q else q) ++ (x ∷ [])
