-- ===== src/Gfx/Rows.antt =====
-- The rectangle, or the part with a slanted edge, that the loops over rows invert.
use astro_photo_power_box.Prelude.{
  ℕ, zero, suc, ◌+◌, ◌-◌, ◌≤◌, ◌<◌, ◌≡◌, ◌≢◌, ◌∙◌, not, ap, refl, ℤ, pos, pos_part, neg_part, ◌+ℤ◌,
  +ℤ_parts, ◌≤ℤ◌, arith, ◌⊎◌, inl, inr, ltb_ℤ, ltb→lt, Bool-cases,
}
use native.Mathlib.Decide.{ℕ_discrete}
use astro_photo_power_box.Gfx.{Canvas, Gfx, IsPixelMemory}
use astro_photo_power_box.Gfx.Invert.{invert_row, invert_row-outside, invert_row-inside}

-- How many steps of `++` lead from `start` to `stop`, if any.
abbrev pub span : ℤ → ℤ → ℕ
span start stop = pos_part stop + neg_part start - (neg_part stop + pos_part start)

row_ne : (y : ℤ) (p k : ℕ) → p ≢ k → (y +ℤ pos p) ≢ (y +ℤ pos k)
row_ne y p k ne e =
    ne (omega (arith, ap pos_part e, ap neg_part e, +ℤ_parts y (pos p), +ℤ_parts y (pos k)))

past_span :
    {A : Type 0} (start stop px : ℤ)
    → A ⊎ (px +ℤ pos 1 ≤ℤ start) ⊎ (stop ≤ℤ px)
    → A ⊎ (px +ℤ pos 1 ≤ℤ start) ⊎ (start +ℤ pos (span start stop) ≤ℤ px)
past_span start stop px (inl a) = inl a
past_span start stop px (inr (inl left)) = inr (inl left)
past_span start stop px (inr (inr right)) = elim (Bool-cases (ltb_ℤ px start)) [
  | inl t ↦ inr (inl (omega (arith, ltb→lt _ _ t, +ℤ_parts px (pos 1))))
  | inr f ↦ inr (inr (ground (arith, +ℤ_parts start (pos (span start stop)))))
]

module _ {F : Type 0} ⦃g : Gfx F⦄ where
  -- `n` rows from the k-th one on, the first of all being at `y`; a row runs from `start`, which
  -- depends on the row, to before `stop`.
  unfoldable pub invert_rows : ℕ → ℕ → (ℕ → ℤ) → ℤ → ℤ → Canvas F → Canvas F
  unfolding invert_row
  invert_rows zero k start stop y c = c
  invert_rows (suc n) k start stop y c =
      invert_rows n (suc k) start stop y (invert_row (span (start k) stop) (start k) (y +ℤ pos k) c)

  row_outside :
      (m : IsPixelMemory F) (start stop y px py : ℤ) (c : Canvas F)
      → (py ≢ y) ⊎ (px +ℤ pos 1 ≤ℤ start) ⊎ (stop ≤ℤ px)
      → g.get_pixel (invert_row (span start stop) start y c) px py ≡ g.get_pixel c px py
  row_outside m start stop y px py c h =
      invert_row-outside m (span start stop) start y px py c (past_span start stop px h)

  -- What the rows do not reach stays.
  pub invert_rows-outside :
      (m : IsPixelMemory F) (n k p : ℕ) (start : ℕ → ℤ) (stop y px : ℤ) (c : Canvas F)
      → (p < k) ⊎ (k + n ≤ p) ⊎ (px +ℤ pos 1 ≤ℤ start p) ⊎ (stop ≤ℤ px)
      → g.get_pixel (invert_rows n k start stop y c) px (y +ℤ pos p) ≡ g.get_pixel c px (y +ℤ pos p)
  unfolding invert_rows
  invert_rows-outside m zero k p start stop y px c h = refl
  invert_rows-outside m (suc n) k p start stop y px c h =
      let c' = invert_row (span (start k) stop) (start k) (y +ℤ pos k) c in
      let later = invert_rows-outside m n (suc k) p start stop y px c' in
      let row = row_outside m (start k) stop (y +ℤ pos k) px (y +ℤ pos p) c in
      elim h [
        | inl above ↦
            later (inl (omega arith)) ∙ row (inl (row_ne y p k (λ e. absurd (omega arith))))
        | inr (inl below) ↦
            later (inr (inl (omega arith))) ∙ row (inl (row_ne y p k (λ e. absurd (omega arith))))
        | inr (inr beside) ↦
            later (inr (inr beside))
            ∙ row (elim (ℕ_discrete p k) [
              | yes e ↦ inr (rw e at beside)
              | no ne ↦ inl (row_ne y p k ne)
            ])
      ]

  -- What the rows reach is inverted, once.
  pub invert_rows-inside :
      (m : IsPixelMemory F) (n k p : ℕ) (start : ℕ → ℤ) (stop y px : ℤ) (c : Canvas F)
      → k ≤ p
      → p < k + n
      → start p ≤ℤ px
      → px +ℤ pos 1 ≤ℤ stop
      → pos 0 ≤ℤ start p
      → stop ≤ℤ pos 128
      → pos 0 ≤ℤ y +ℤ pos p
      → y +ℤ pos p ≤ℤ pos 31
      → g.get_pixel (invert_rows n k start stop y c) px (y +ℤ pos p)
        ≡ not (g.get_pixel c px (y +ℤ pos p))
  unfolding invert_rows
  invert_rows-inside m zero k p start stop y px c h1 h2 h3 h4 h5 h6 h7 h8 = absurd (omega arith)
  invert_rows-inside m (suc n) k p start stop y px c h1 h2 h3 h4 h5 h6 h7 h8 =
      let c' = invert_row (span (start k) stop) (start k) (y +ℤ pos k) c in
      elim (ℕ_discrete p k) [
        | yes e ↦
            invert_rows-outside m n (suc k) p start stop y px c' (inl (omega arith))
            ∙ rw (← e) (
                invert_row-inside m (span (start p) stop) (start p) (y +ℤ pos p) px c h3
                  (omega
                    (arith, +ℤ_parts (start p) (pos (span (start p) stop)), +ℤ_parts px (pos 1)))
                  (omega (arith, +ℤ_parts px (pos 1)))
                  (omega
                    (arith, +ℤ_parts (start p) (pos (span (start p) stop)), +ℤ_parts px (pos 1))))
        | no ne ↦
            invert_rows-inside m n (suc k) p start stop y px c' (omega (arith, h1)) (omega arith) h3
              h4 h5 h6 h7 h8
            ∙ ap not (
                row_outside m (start k) stop (y +ℤ pos k) px (y +ℤ pos p) c (inl (row_ne y p k ne)))
      ]
