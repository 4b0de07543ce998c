-- ===== src/Gfx/Memory.antt =====
-- A value of the display's interface in which its laws hold: the last `draw_pixel` counts, and a
-- character is six pixels wide and eight high. The tests run on it.
use Prim.Native.String.{len}
use astro_photo_power_box.Prelude.{
  ℕ, ◌+◌, ◌*◌, ◌≡◌, ◌≢◌, Bool, false, ◌&&◌, ◌==◌, [], ◌∷◌, ℤ, pos, pos_part, neg_part, ◌+ℤ◌, arith,
  eq_of_parts, inl, inr, if◌then◌else◌,
}
use astro_photo_power_box.Gfx.{
  Canvas, Text, Gfx, IsPixelMemory, clear_display, draw_pixel, set_cursor, print, plain, number,
  formatted,
}

abbrev eq_ℤ : ℤ → ℤ → Bool
eq_ℤ a b = pos_part a + neg_part b == pos_part b + neg_part a

module _ {F : Type 0} where
  abbrev pixel : Canvas F → ℤ → ℤ → Bool
  pixel [] px py = false
  pixel (clear_display ∷ c) px py = false
  pixel (draw_pixel x y b ∷ c) px py = if eq_ℤ x px && eq_ℤ y py then b else pixel c px py
  pixel (_ ∷ c) px py = pixel c px py

  abbrev width_of : Text F → ℕ
  width_of (plain s) = 6 * len s
  width_of (number n) = 6
  width_of (formatted s args) = 6 * len s

  abbrev cursor_x : Canvas F → ℤ
  cursor_x [] = pos 0
  cursor_x (set_cursor x y ∷ c) = x
  cursor_x (print t ∷ c) = cursor_x c +ℤ pos (width_of t)
  cursor_x (_ ∷ c) = cursor_x c

  abbrev cursor_y : Canvas F → ℤ
  cursor_y [] = pos 0
  cursor_y (set_cursor x y ∷ c) = y
  cursor_y (_ ∷ c) = cursor_y c

  instance abbrev pub memory_gfx : Gfx F
  memory_gfx = record {
    get_pixel = pixel;
    get_cursor_x = cursor_x;
    get_cursor_y = cursor_y;
    text_width = λ c t. width_of t;
    text_height = λ c t. 8;
  }

eq_ℤ-ne : (a b : ℤ) → b ≢ a → eq_ℤ a b ≡ false
eq_ℤ-ne a b h = ground (arith, eq_of_parts b a)

pub memory-IsPixelMemory : {F : Type 0} → IsPixelMemory F ⦃g = memory_gfx⦄
memory-IsPixelMemory {F} = record {
  own = λ c x y b on. ground arith;
  other = λ c x y px py b h. elim h [
    | inl ne ↦ ground (arith, eq_ℤ-ne x px ne)
    | inr ne ↦ ground (arith, eq_ℤ-ne y py ne)
  ];
}
