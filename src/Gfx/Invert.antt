-- ===== src/Gfx/Invert.antt =====
-- The loops that invert what is on the display: `printBarAt` of src/oled/oled.cpp and
-- `homeScreen::show` of src/oled/screen_content.cpp.
use astro_photo_power_box.Prelude.{
  ℕ, zero, suc, ◌≡◌, ◌≢◌, ◌∙◌, not, ap, refl, ℤ, pos, pos_part, neg_part, ◌+ℤ◌, +ℤ_parts, ◌≤ℤ◌,
  ≤ℤ_cases, arith, ◌⊎◌, inl, inr,
}
use astro_photo_power_box.Gfx.{Canvas, Gfx, IsPixelMemory, IsOnScreen, invert_pixel}

module _ {F : Type 0} ⦃g : Gfx F⦄ where
  -- `n` pixels from (x, y) to the right.
  unfoldable pub invert_row : ℕ → ℤ → ℤ → Canvas F → Canvas F
  invert_row zero x y c = c
  invert_row (suc n) x y c = invert_row n (x +ℤ pos 1) y (invert_pixel x y c)

  invert_pixel-other :
      (m : IsPixelMemory F) (x y px py : ℤ) (c : Canvas F)
      → (px ≢ x) ⊎ (py ≢ y)
      → g.get_pixel (invert_pixel x y c) px py ≡ g.get_pixel c px py
  invert_pixel-other m x y px py c h = m.other c x y px py (not (g.get_pixel c x y)) h

  -- Pixels of other rows, or before or behind these, stay.
  pub invert_row-outside :
      (m : IsPixelMemory F) (n : ℕ) (x y px py : ℤ) (c : Canvas F)
      → (py ≢ y) ⊎ (px +ℤ pos 1 ≤ℤ x) ⊎ (x +ℤ pos n ≤ℤ px)
      → g.get_pixel (invert_row n x y c) px py ≡ g.get_pixel c px py
  unfolding invert_row
  invert_row-outside m zero x y px py c h = refl
  invert_row-outside m (suc n) x y px py c (inl ne) =
      invert_row-outside m n (x +ℤ pos 1) y px py (invert_pixel x y c) (inl ne)
      ∙ invert_pixel-other m x y px py c (inr ne)
  invert_row-outside m (suc n) x y px py c (inr (inl left)) =
      invert_row-outside m n (x +ℤ pos 1) y px py (invert_pixel x y c)
        (inr (inl (omega (arith, +ℤ_parts px (pos 1), +ℤ_parts x (pos 1)))))
      ∙ invert_pixel-other m x y px py c
          (inl (λ e. absurd (omega (arith, ap pos_part e, ap neg_part e, +ℤ_parts px (pos 1)))))
  invert_row-outside m (suc n) x y px py c (inr (inr right)) =
      invert_row-outside m n (x +ℤ pos 1) y px py (invert_pixel x y c) (
        inr (
          inr (
            omega (
              arith,
              +ℤ_parts x (pos 1),
              +ℤ_parts (x +ℤ pos 1) (pos n),
              +ℤ_parts x (pos (suc n)),
            ))))
      ∙ invert_pixel-other m x y px py c (
          inl (λ e. absurd (omega (arith, ap pos_part e, ap neg_part e, +ℤ_parts x (pos (suc n))))))

  pub invert_row-inside :
      (m : IsPixelMemory F) (n : ℕ) (x y px : ℤ) (c : Canvas F)
      → x ≤ℤ px
      → px +ℤ pos 1 ≤ℤ x +ℤ pos n
      → IsOnScreen x y
      → x +ℤ pos n ≤ℤ pos 128
      → g.get_pixel (invert_row n x y c) px y ≡ not (g.get_pixel c px y)
  unfolding invert_row
  invert_row-inside m zero x y px c h k on e =
      absurd (omega (arith, +ℤ_parts px (pos 1), +ℤ_parts x (pos 0)))
  invert_row-inside m (suc n) x y px c h k on e = elim (≤ℤ_cases x px h) [
    | inl same ↦ rw same (
        invert_row-outside m n (px +ℤ pos 1) y px y (invert_pixel px y c) (inr (inl (omega arith)))
        ∙ m.own c px y (not (g.get_pixel c px y))
            (omega (arith, +ℤ_parts px (pos 1), +ℤ_parts x (pos (suc n)))))
    | inr less ↦
        invert_row-inside m n (x +ℤ pos 1) y px (invert_pixel x y c)
          (omega (arith, +ℤ_parts x (pos 1), +ℤ_parts px (pos 1)))
          (omega
            (arith, +ℤ_parts x (pos 1), +ℤ_parts (x +ℤ pos 1) (pos n), +ℤ_parts x (pos (suc n))))
          (omega (arith, +ℤ_parts x (pos 1), +ℤ_parts px (pos 1), +ℤ_parts x (pos (suc n))))
          (omega
            (arith, +ℤ_parts x (pos 1), +ℤ_parts (x +ℤ pos 1) (pos n), +ℤ_parts x (pos (suc n))))
        ∙ ap not (
            invert_pixel-other m x y px y c
              (inl (λ e. absurd (omega (arith, ap pos_part e, ap neg_part e, +ℤ_parts x (pos 1))))))
  ]
