-- ===== src/Gfx.antt =====
-- What the firmware asks of its display through Adafruit_SSD1306 and Adafruit_GFX (code that is not
-- in the repository). The calls are kept in a list, the newest first; what the library answers
-- depends on the calls before: `Gfx` has its getters, and `IsPixelMemory` what the code relies on.
-- The display is the one of src/oled/oled.cpp, of 128 x 32 pixels.
pub mod Invert
pub mod Rows
pub mod Memory
use Prim.Native.String.{String}
use astro_photo_power_box.Prelude.{
  ℕ, ◌+◌, ◌-◌, ◌%◌, ◌<◌, ◌≤◌, ◌≡◌, ◌≢◌, Bool, true, false, not, Option, some, none, List, [], ◌∷◌,
  ℤ, pos, negsuc, pos_part, neg_part, ◌≤ℤ◌, signed16, ◌⊎◌,
}

-- An argument of `printf`.
pub data Arg (F : Type 0) : Type 0 where
  int_arg : ℤ → Arg F
  float_arg : F → Arg F
  text_arg : String → Arg F

-- What is printed: a text, a number by `print`, or a format with its arguments.
pub data Text (F : Type 0) : Type 0 where
  plain : String → Text F
  number : ℕ → Text F
  formatted : String → List (Arg F) → Text F

-- The bitmaps of src/oled/status_bar.cpp and oled.cpp.
pub data Bitmap : Type 0 where
  no_wifi_symbol standby_symbol locked_symbol unlckd_symbol warning_symbol : Bitmap

-- A colour is `true` for SSD1306_WHITE. Places are (x, y), then width and height.
pub data Draw (F : Type 0) : Type 0 where
  begin_display clear_display push_to_screen : Draw F
  dim set_text_wrap : Bool → Draw F
  fill_rect draw_rect : ℤ → ℤ → ℤ → ℤ → Bool → Draw F
  draw_fast_v_line : ℤ → ℤ → ℤ → Bool → Draw F
  draw_bitmap : ℤ → ℤ → Bitmap → ℤ → ℤ → Bool → Draw F
  draw_pixel : ℤ → ℤ → Bool → Draw F
  set_cursor : ℤ → ℤ → Draw F
  set_text_size : ℕ → Draw F
  set_text_color : Bool → Option Bool → Draw F
  print : Text F → Draw F

abbrev pub Canvas : Type 0 → Type 0
Canvas F = List (Draw F)

abbrev pub width : ℕ
width = 128

abbrev pub height : ℕ
height = 32

-- `getPixel`, `getCursorX` and `getCursorY`, and the width and the height that `getTextBounds` gives
-- for a text (uint16_t).
pub record Gfx (F : Type 0) : Type 0 where
  pub get_pixel : Canvas F → ℤ → ℤ → Bool
  pub get_cursor_x : Canvas F → ℤ
  pub get_cursor_y : Canvas F → ℤ
  pub text_width : Canvas F → Text F → ℕ
  pub text_height : Canvas F → Text F → ℕ

-- A number that is stored in an `int16_t`.
abbrev pub wrap16 : ℤ → ℤ
wrap16 n = signed16 ((pos_part n % 65536 + 65536 - neg_part n % 65536) % 65536)

abbrev pub IsOnScreen : ℤ → ℤ → Type 0
IsOnScreen x y = (pos 0 ≤ℤ x) × (x ≤ℤ pos 127) × (pos 0 ≤ℤ y) × (y ≤ℤ pos 31)

-- A pixel on the screen has the colour that it was given last.
pub record IsPixelMemory (F : Type 0) ⦃g : Gfx F⦄ : Type 0 where
  pub own :
      (c : Canvas F) (x y : ℤ) (b : Bool)
      → IsOnScreen x y
      → g.get_pixel (draw_pixel x y b ∷ c) x y ≡ b
  pub other :
      (c : Canvas F) (x y px py : ℤ) (b : Bool)
      → (px ≢ x) ⊎ (py ≢ y)
      → g.get_pixel (draw_pixel x y b ∷ c) px py ≡ g.get_pixel c px py

module _ {F : Type 0} ⦃g : Gfx F⦄ where
  abbrev pub invert_pixel : ℤ → ℤ → Canvas F → Canvas F
  invert_pixel x y c = draw_pixel x y (not (g.get_pixel c x y)) ∷ c
