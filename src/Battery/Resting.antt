-- ===== src/Battery/Resting.antt =====
-- The state of charge from the resting voltage.
use astro_photo_power_box.Prelude.{
  ◌≡◌, inl, inr, true, false, List, [], ◌∷◌, pos, refl, arith, Bool-cases,
}
use astro_photo_power_box.Float.{Float, ◌≼◌, whole, IsOrdered}
use astro_photo_power_box.Battery.{
  Entry, entry, interpolate, curve_loop, soc_from_resting_voltage, resting_voltage_curve,
}

module _ {F : Type 0} ⦃f : Float F⦄ where
  -- Two entries that stand side by side in a table.
  pub data IsNext : Entry F → Entry F → List (Entry F) → Type 0 where
    here : {a b : Entry F} {es : List (Entry F)} → IsNext a b (a ∷ b ∷ es)
    there : {a b c : Entry F} {es : List (Entry F)} → IsNext a b es → IsNext a b (c ∷ es)

  -- The segment of a table that holds a voltage, without its lower end.
  pub record IsSegment (es : List (Entry F)) (v : F) (prev e : Entry F) : Type 0 where
    pub next : IsNext prev e es
    pub above : f.lt prev.total_voltage v ≡ true
    pub below : f.lt e.total_voltage v ≡ false

  -- The voltage lies in a segment of the table, and the result on the line through its ends: the state
  -- of charge of the lower end, and of the rise to the upper end the share that the voltage has gone.
  abbrev pub IsOnSegment : List (Entry F) → F → F → Type 0
  IsOnSegment es v soc =
      (prev : Entry F) × (e : Entry F) × IsSegment es v prev e
      × (soc
          ≡ f.add prev.state_of_charge (
              f.div
                (f.mul (f.sub e.state_of_charge prev.state_of_charge) (f.sub v prev.total_voltage))
                (f.sub e.total_voltage prev.total_voltage)))

  widen :
      (c : Entry F) (es : List (Entry F)) (v soc : F)
      → IsOnSegment es v soc
      → IsOnSegment (c ∷ es) v soc
  widen c es v soc (prev, e, s, q) =
      (prev, e, record { next = there s.next; above = s.above; below = s.below }, q)

  abbrev last_of : Entry F → List (Entry F) → Entry F
  last_of e [] = e
  last_of e (e' ∷ es) = last_of e' es

  abbrev rest_of : List (Entry F) → List (Entry F)
  rest_of [] = []
  rest_of (e ∷ es) = es

  curve_loop_lem :
      (prev : Entry F) (es : List (Entry F)) (v : F)
      → f.lt prev.total_voltage v ≡ true
      → f.lt (last_of prev es).total_voltage v ≡ false
      → IsOnSegment (prev ∷ es) v (curve_loop prev es v)
  unfolding curve_loop interpolate
  curve_loop_lem prev [] v h k = absurd (ground arith)
  curve_loop_lem prev (e ∷ es) v h k = elim (Bool-cases (f.lt e.total_voltage v)) [
    | inl above ↦
        rw above (widen prev (e ∷ es) v (curve_loop e es v) (curve_loop_lem e es v above k))
    | inr below ↦ rw below (prev, e, record { next = here; above = h; below = below }, refl)
  ]

module _ {F : Type 0} ⦃f : Float F⦄ (ordered : IsOrdered F) where
  -- A voltage from 13.6 V on stands for 100 percent and one up to 10 V for 0 percent. Any other, if it
  -- is a number, lies in one segment of the resting voltage curve, above the segment's lower voltage
  -- and not above its upper one, and the result is the state of charge of the lower end, plus the rise to
  -- that of the upper end times the voltage above the lower end, by the difference of the two voltages.
  pub soc_from_resting_voltage_lem :
      (v : F)
      → (f.lit (pos 136) 1 ≼ v → soc_from_resting_voltage v ≡ whole 100)
        × (f.le (f.lit (pos 136) 1) v ≡ false
            → v ≼ f.lit (pos 100) 1
            → soc_from_resting_voltage v ≡ whole 0)
        × (v ≼ v
            → f.le (f.lit (pos 136) 1) v ≡ false
            → f.le v (f.lit (pos 100) 1) ≡ false
            → IsOnSegment resting_voltage_curve v (soc_from_resting_voltage v))
  unfolding soc_from_resting_voltage resting_voltage_curve
  soc_from_resting_voltage_lem v = (
    λ high. rw high,
    λ h low. rw (h, low),
    λ n h k.
        rw (h, k)
          (curve_loop_lem (entry 100 0) (rest_of resting_voltage_curve) v
            (ground (arith, ordered.not_le v (f.lit (pos 100) 1) n (ordered.lit_refl (pos 100) 1)))
            (ground (
              arith,
              ordered.not_le (f.lit (pos 136) 1) v (ordered.lit_refl (pos 136) 1) n,
              ordered.not_le v (f.lit (pos 136) 1) n (ordered.lit_refl (pos 136) 1),
              ordered.lt_le v (f.lit (pos 136) 1),
            ))),
  )
