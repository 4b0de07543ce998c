-- ===== src/Oled/Printing.antt =====
-- The methods of `statusDisplay` that print (src/oled/oled.cpp): aligned texts, warnings, and the
-- progress bar. Positions are `int16_t`.
pub mod Bar
use astro_photo_power_box.Prelude.{
  ℕ, zero, suc, ◌+◌, Bool, true, false, Option, some, none, [], ◌∷◌, ℤ, pos, negsuc, ◌+ℤ◌, half,
  min_ℤ, max_ℤ, sub_ℕ, ltb_ℤ, if◌then◌else◌, pos_part, neg_part, u16,
}
use astro_photo_power_box.Float.{Float, whole}
use astro_photo_power_box.Gfx.{
  Canvas, Text, Gfx, width, height, wrap16, fill_rect, draw_rect, draw_bitmap, warning_symbol,
  set_cursor, print,
}
use astro_photo_power_box.Gfx.Rows.{invert_rows}

-- The body of `centerText` and of `rightText`: a text of this width, at the right edge or in the
-- middle, but not left of the display.
unfoldable pub text_start : Bool → ℕ → ℤ
text_start center text_width =
    let x = wrap16 (sub_ℕ width text_width) in max_ℤ (if center then half x else x) (pos 0)

module _ {F : Type 0} ⦃g : Gfx F⦄ where
  -- The start of the text, and what is drawn.
  unfoldable pub center_text : Text F → Canvas F → ℤ × Canvas F
  unfolding text_start
  center_text text c =
      let x = text_start true (g.text_width c text) in
      (x, print text ∷ set_cursor x (g.get_cursor_y c) ∷ c)

  unfoldable pub right_text : Text F → Canvas F → ℤ × Canvas F
  unfolding text_start
  right_text text c =
      let x = text_start false (g.text_width c text) in
      (x, print text ∷ set_cursor x (g.get_cursor_y c) ∷ c)

  -- The loop of `showWarning` without a text.
  unfoldable pub warning_symbols : ℕ → ℕ → Canvas F → Canvas F
  warning_symbols zero xpos c = c
  warning_symbols (suc left) xpos c =
      warning_symbols left (u16 (xpos + 22))
        (draw_bitmap (pos xpos) (pos 0) warning_symbol (pos 16) (pos 16) true ∷ c)

  unfoldable pub show_warning : Option (Text F) → Canvas F → Canvas F
  unfolding center_text warning_symbols
  show_warning none c =
      warning_symbols 6 1 (fill_rect (pos 0) (pos 0) (pos width) (pos 16) false ∷ c)
  show_warning (some text) c =
      (center_text text (
        set_cursor (pos 0) (pos 4)
        ∷ draw_rect (pos 23) (pos 2) (pos 82) (pos 12) true
        ∷ draw_bitmap (pos 111) (pos 0) warning_symbol (pos 16) (pos 16) true
        ∷ draw_bitmap (pos 1) (pos 0) warning_symbol (pos 16) (pos 16) true
        ∷ fill_rect (pos 0) (pos 0) (pos width) (pos 16) false
        ∷ c)).1

  -- The part of the text that the bar covers, inverted. `end` is where the text ends.
  unfoldable pub invert_text : ℤ → ℤ → ℤ → ℤ → Canvas F → Canvas F
  unfolding invert_rows
  invert_text text_y start end bar_x_end c =
      if ltb_ℤ start bar_x_end
      then invert_rows 8 0 (λ k. start) (min_ℤ end bar_x_end) text_y c
      else c

module _ {F : Type 0} ⦃f : Float F⦄ where
  -- `barLength`
  unfoldable pub bar_length : F → ℤ
  bar_length percent = wrap16 (f.to_int (f.mul (f.of_int (pos 124)) (f.div percent (whole 100))))

-- `textYPos`, for a bar at `y` of this height
abbrev pub text_y_pos : ℤ → ℤ → ℤ
text_y_pos y bar_height = wrap16 (y +ℤ bar_height +ℤ negsuc 11)

module _ {F : Type 0} ⦃f : Float F⦄ ⦃g : Gfx F⦄ where
  -- The frame and the bar.
  unfoldable pub draw_bar : ℤ → F → ℤ → Canvas F → Canvas F
  unfolding bar_length
  draw_bar y percent bar_height c =
      fill_rect (pos 2) (y +ℤ pos 2) (bar_length percent) (bar_height +ℤ negsuc 3) true
      ∷ draw_rect (pos 0) y (pos width) bar_height true
      ∷ c

  -- `printBarAt`
  unfoldable pub print_bar_at : ℤ → F → Option (Text F) → ℤ → Canvas F → Canvas F
  unfolding draw_bar center_text invert_text
  print_bar_at y percent none bar_height c = draw_bar y percent bar_height c
  print_bar_at y percent (some text) bar_height c =
      let text_y = text_y_pos y bar_height in
      let (start, c) =
        center_text text (set_cursor (pos 0) text_y ∷ draw_bar y percent bar_height c) in
      invert_text text_y start (g.get_cursor_x c) (wrap16 (pos 2 +ℤ bar_length percent)) c
