-- ===== src/Oled/Printing/Bar.antt =====
-- What is left on the display by the progress bar.
use astro_photo_power_box.Prelude.{
  ℕ, ◌≤◌, ◌<◌, ◌≡◌, Bool, true, false, not, some, ◌∷◌, ℤ, pos, ◌+ℤ◌, +ℤ_parts, ◌≤ℤ◌, min_ℤ, ltb_ℤ,
  arith, refl, inl, inr, ◌⊎◌, Bool-cases,
}
use astro_photo_power_box.Float.{Float}
use astro_photo_power_box.Gfx.{Canvas, Text, Gfx, IsPixelMemory, set_cursor, wrap16}
use astro_photo_power_box.Gfx.Rows.{invert_rows-inside, invert_rows-outside}
use astro_photo_power_box.Oled.Printing.{
  bar_length, text_y_pos, draw_bar, center_text, invert_text, print_bar_at, text_start,
}

-- The text starts on the display, also where it is too long for it.
pub text_start-IsInside :
    (center : Bool) (w : ℕ)
    → w < 32768
    → (pos 0 ≤ℤ text_start center w) × (text_start center w ≤ℤ pos 128)
unfolding text_start
text_start-IsInside center w h = ground arith

min_ℤ-le : (a b : ℤ) → min_ℤ a b ≤ℤ b
min_ℤ-le a b = ground arith

ltb_ℤ-false : (a b : ℤ) → ltb_ℤ a b ≡ false → b ≤ℤ a
ltb_ℤ-false a b h = ground arith

wrap16-small : (n : ℤ) → pos 0 ≤ℤ n → n ≤ℤ pos 32767 → wrap16 n ≡ n
wrap16-small n h k = ground arith

module _ {F : Type 0} ⦃g : Gfx F⦄ (m : IsPixelMemory F) where
  -- The inversion of a text in rows that are on the display.
  invert_text_lem :
      (text_y start end bar_x_end px : ℤ) (row : ℕ) (c : Canvas F)
      → bar_x_end ≤ℤ pos 128
      → pos 0 ≤ℤ start
      → pos 0 ≤ℤ text_y
      → text_y ≤ℤ pos 24
      → let stop = min_ℤ end bar_x_end in
        let c' = invert_text text_y start end bar_x_end c in
        (row < 8
          → start ≤ℤ px
          → px +ℤ pos 1 ≤ℤ stop
          → g.get_pixel c' px (text_y +ℤ pos row) ≡ not (g.get_pixel c px (text_y +ℤ pos row)))
        × ((8 ≤ row) ⊎ (px +ℤ pos 1 ≤ℤ start) ⊎ (stop ≤ℤ px)
            → g.get_pixel c' px (text_y +ℤ pos row) ≡ g.get_pixel c px (text_y +ℤ pos row))
  unfolding invert_text
  invert_text_lem text_y start end bar_x_end px row c b s t1 t2 =
      let stop_le = min_ℤ-le end bar_x_end in
      elim (Bool-cases (ltb_ℤ start bar_x_end)) [
        | inl t ↦ rw t (
          (λ r l e.
              invert_rows-inside m 8 0 row (λ k. start) (min_ℤ end bar_x_end) text_y px c
                (omega arith) r l e s (omega (arith, stop_le))
                (omega (arith, +ℤ_parts text_y (pos row)))
                (omega (arith, +ℤ_parts text_y (pos row)))),
          (λ o.
              invert_rows-outside m 8 0 row (λ k. start) (min_ℤ end bar_x_end) text_y px c (inr o)),
        )
        | inr t ↦ rw t (
          (λ r l e.
              absurd (omega (arith, ltb_ℤ-false start bar_x_end t, stop_le, +ℤ_parts px (pos 1)))),
          (λ o. refl),
        )
      ]

module _ {F : Type 0} ⦃f : Float F⦄ ⦃g : Gfx F⦄ where
  -- The canvas with the frame, the bar and the text on it, as the inversion finds it.
  abbrev pub with_text : ℤ → F → Text F → ℤ → Canvas F → ℤ × Canvas F
  with_text y percent text bar_height c =
      center_text text
        (set_cursor (pos 0) (text_y_pos y bar_height) ∷ draw_bar y percent bar_height c)

module _ {F : Type 0} ⦃f : Float F⦄ ⦃g : Gfx F⦄ (m : IsPixelMemory F) where
  -- In the rows and columns of the text that the bar covers, `printBarAt` inverts the pixels of the
  -- text, each once; beside them the pixels are what the frame, the bar and the text left. This
  -- needs a bar that is at most as long as the frame, and a text on the display.
  pub print_bar_at_lem :
      (y px : ℤ) (percent : F) (text : Text F) (bar_height : ℤ) (row : ℕ) (c : Canvas F)
      → pos 0 ≤ℤ bar_length percent
      → bar_length percent ≤ℤ pos 124
      → (let cleared =
            set_cursor (pos 0) (text_y_pos y bar_height) ∷ draw_bar y percent bar_height c in
          g.text_width cleared text < 32768)
      → pos 0 ≤ℤ text_y_pos y bar_height
      → text_y_pos y bar_height ≤ℤ pos 24
      → let (start, drawn) = with_text y percent text bar_height c in
        let stop = min_ℤ (g.get_cursor_x drawn) (pos 2 +ℤ bar_length percent) in
        let c' = print_bar_at y percent (some text) bar_height c in
        let py = text_y_pos y bar_height +ℤ pos row in
        (row < 8
          → start ≤ℤ px
          → px +ℤ pos 1 ≤ℤ stop
          → g.get_pixel c' px py ≡ not (g.get_pixel drawn px py))
        × ((8 ≤ row) ⊎ (px +ℤ pos 1 ≤ℤ start) ⊎ (stop ≤ℤ px)
            → g.get_pixel c' px py ≡ g.get_pixel drawn px py)
  unfolding print_bar_at
  print_bar_at_lem y px percent text bar_height row c b1 b2 fits t1 t2 =
      let (start, drawn) = with_text y percent text bar_height c in
      let bar_x_end = pos 2 +ℤ bar_length percent in
      rw
        (wrap16-small bar_x_end (omega (arith, +ℤ_parts (pos 2) (bar_length percent)))
          (omega (arith, +ℤ_parts (pos 2) (bar_length percent))))
        (invert_text_lem m (text_y_pos y bar_height) start (g.get_cursor_x drawn) bar_x_end px row
          drawn (omega (arith, +ℤ_parts (pos 2) (bar_length percent)))
          (unfold center_text in (text_start-IsInside true _ fits).0) t1 t2)
