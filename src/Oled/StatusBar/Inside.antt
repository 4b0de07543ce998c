-- ===== src/Oled/StatusBar/Inside.antt =====
-- The symbols of the status bar draw on the display.
use astro_photo_power_box.Prelude.{
  ℕ, zero, suc, ◌+◌, ◌-◌, ◌*◌, ◌≤◌, ◌<◌, ◌≡◌, ◌≢◌, Bool, Option, some, none, List, [], ◌∷◌, ℤ, pos,
  pos_part, neg_part, arith, refl, u16, u32, ◌/◌, ◌%◌, ◌^◌, ◌==◌, if◌then◌else◌, leb,
}
use astro_photo_power_box.Float.{Float}
use native.Mathlib.Decide.{ℕ_discrete}
use astro_photo_power_box.Gfx.{
  Draw, Canvas, Gfx, fill_rect, draw_rect, draw_fast_v_line, draw_bitmap, draw_pixel, set_cursor,
  width, height,
}
use astro_photo_power_box.Oled.StatusBar.{
  Kind, Symbol, new_symbol, state_of_charge_icon, state_of_charge_value, wifi_strength_icon,
  standby_icon, player_name, lock_icon, charge_bars, wifi_bars, setup, setup_loop,
}
use astro_photo_power_box.Oled.StatusBar.Icons.{charge_bars_lem}
use astro_photo_power_box.Oled.StatusBar.Symbols.{
  Readings, Surroundings, draw_charge_bars, draw_wifi_bars, draw_charge_icon, draw_wifi_icon,
  print_sym, print_symbols, print_status,
}

-- A rectangle on the display.
abbrev pub IsBox : ℤ → ℤ → ℤ → ℤ → Type 0
IsBox x y w h =
    (neg_part x + neg_part y + neg_part w + neg_part h ≡ 0)
    × (pos_part x + pos_part w ≤ width)
    × (pos_part y + pos_part h ≤ height)

module _ {F : Type 0} where
  -- What a call draws lies on the display, and so does the place where a text starts.
  abbrev pub IsInside : Draw F → Type 0
  IsInside (fill_rect x y w h white) = IsBox x y w h
  IsInside (draw_rect x y w h white) = IsBox x y w h
  IsInside (draw_fast_v_line x y h white) = IsBox x y (pos 1) h
  IsInside (draw_bitmap x y b w h white) = IsBox x y w h
  IsInside (draw_pixel x y white) = IsBox x y (pos 1) (pos 1)
  IsInside (set_cursor x y) = IsBox x y (pos 1) (pos 1)
  IsInside _ = Unit

  abbrev pub AreInside : Canvas F → Type 0
  AreInside [] = Unit
  AreInside (d ∷ c) = IsInside d × AreInside c

-- A symbol, with the size of its class, at a place where it fits on the display. The name of the
-- player is not meant, since it takes the size of a text.
pub record IsPlaced (s : Symbol) : Type 0 where
  pub not_name : s.kind ≢ player_name
  pub own_width : s.width ≡ (new_symbol s.kind).width
  pub own_height : s.height ≡ (new_symbol s.kind).height
  pub right : s.pos_x + s.width ≤ width
  pub bottom : s.pos_y + s.height ≤ height

abbrev pub ArePlaced : List Symbol → Type 0
ArePlaced [] = Unit
ArePlaced (s ∷ ss) = IsPlaced s × ArePlaced ss

module _ {F : Type 0} where
  draw_charge_bars-AreInside :
      (bars x y : ℕ) (c : Canvas F)
      → 3 * bars ≤ x
      → x + 2 ≤ width
      → y + 4 ≤ height
      → AreInside c
      → AreInside (draw_charge_bars bars x y c)
  unfolding draw_charge_bars
  draw_charge_bars-AreInside zero x y c h1 h2 h3 i = i
  draw_charge_bars-AreInside (suc bars) x y c h1 h2 h3 i =
      draw_charge_bars-AreInside bars (u32 (x + 4294967296 - 3)) y _ (omega arith) (omega arith) h3
        (ground arith, i)

  draw_wifi_bars-AreInside :
      (bars x y h : ℕ) (c : Canvas F)
      → 2 * bars ≤ y + 2
      → 2 * bars ≤ x + 2
      → x < width
      → y + h ≤ height
      → AreInside c
      → AreInside (draw_wifi_bars bars x y h c)
  unfolding draw_wifi_bars
  draw_wifi_bars-AreInside zero x y h c h1 h2 h3 h4 i = i
  draw_wifi_bars-AreInside (suc zero) x y h c h1 h2 h3 h4 i = (ground arith, i)
  draw_wifi_bars-AreInside (suc (suc bars)) x y h c h1 h2 h3 h4 i =
      draw_wifi_bars-AreInside (suc bars) (u32 (x + 4294967296 - 2)) (u32 (y + 4294967296 - 2))
        (h + 2) _ (omega arith) (omega arith) (omega arith) (omega arith) (ground arith, i)

  draw_charge_icon-AreInside :
      (bars : Option ℕ) (s : Symbol) (c : Canvas F)
      → s.kind ≡ state_of_charge_icon
      → IsPlaced s
      → ((n : ℕ) → bars ≡ some n → n ≤ 3)
      → AreInside c
      → AreInside (draw_charge_icon bars s c)
  unfolding draw_charge_icon new_symbol
  draw_charge_icon-AreInside none s c e p h i = ground arith
  draw_charge_icon-AreInside (some bars) s c e p h i =
      let few = h bars refl in
      draw_charge_bars-AreInside bars (9 + s.pos_x) (2 + s.pos_y) _ (ground arith) (ground arith)
        (ground arith) (ground arith)

  draw_wifi_icon-AreInside :
      (bars : Option ℕ) (s : Symbol) (c : Canvas F)
      → s.kind ≡ wifi_strength_icon
      → IsPlaced s
      → ((n : ℕ) → bars ≡ some n → n ≤ 4)
      → AreInside c
      → AreInside (draw_wifi_icon bars s c)
  unfolding draw_wifi_icon new_symbol
  draw_wifi_icon-AreInside none s c e p h i = ground arith
  draw_wifi_icon-AreInside (some bars) s c e p h i =
      let few = h bars refl in
      draw_wifi_bars-AreInside bars (7 + s.pos_x) (6 + s.pos_y) 1 _ (ground arith) (ground arith)
        (ground arith) (ground arith) (ground arith)

wifi_bars-le : (connected : Bool) (dbm : ℤ) (n : ℕ) → wifi_bars connected dbm ≡ some n → n ≤ 4
unfolding wifi_bars
wifi_bars-le connected dbm n h = ground arith

module _ {F : Type 0} ⦃f : Float F⦄ ⦃g : Gfx F⦄ where
  print_sym-AreInside :
      (k : Kind) (r : Readings F) (s : Symbol) (c : Canvas F)
      → s.kind ≡ k
      → IsPlaced s
      → AreInside c
      → AreInside (print_sym k r s c).1
  unfolding print_sym new_symbol
  print_sym-AreInside state_of_charge_icon r s c e p i =
      draw_charge_icon-AreInside (charge_bars r.soc r.charging r.icon_time) s c e p
        (charge_bars_lem r.soc r.charging r.icon_time).0 i
  print_sym-AreInside state_of_charge_value r s c e p i = ground arith
  print_sym-AreInside wifi_strength_icon r s c e p i = (
    tt,
    (
      ground arith,
      draw_wifi_icon-AreInside (wifi_bars r.connected r.wifi_dbm) s c e p
          (wifi_bars-le r.connected r.wifi_dbm) i,
    ),
  )
  print_sym-AreInside standby_icon r s c e p i = ground arith
  print_sym-AreInside player_name r s c e p i = absurd (p.not_name e)
  print_sym-AreInside lock_icon r s c e p i = ground arith

  print_sym-same :
      (k : Kind) (r : Readings F) (s : Symbol) (c : Canvas F)
      → k ≢ player_name
      → (print_sym k r s c).0 ≡ s
  unfolding print_sym
  print_sym-same state_of_charge_icon r s c h = refl
  print_sym-same state_of_charge_value r s c h = refl
  print_sym-same wifi_strength_icon r s c h = refl
  print_sym-same standby_icon r s c h = refl
  print_sym-same player_name r s c h = absurd (h refl)
  print_sym-same lock_icon r s c h = refl

  print_symbols-AreInside :
      (r : Readings F) (ss : List Symbol) (c : Canvas F)
      → ArePlaced ss
      → AreInside c
      → ((print_symbols r ss c).0 ≡ ss) × AreInside (print_symbols r ss c).1
  unfolding print_symbols
  print_symbols-AreInside r [] c p i = (refl, i)
  print_symbols-AreInside r (s ∷ ss) c (p, ps) i =
      let (s', c') = print_sym s.kind r s c in
      let (same, rest) =
        print_symbols-AreInside r ss c' ps (print_sym-AreInside s.kind r s c refl p i) in
      ((λ j. print_sym-same s.kind r s c p.not_name j ∷ same j), rest)

-- The flags from a bit on take at most this much of the bar: each symbol with its pixel.
abbrev room : ℕ → ℕ
room bit =
    if bit == 0
    then 50
    else if bit == 1
    then 36
    else if leb bit 2
    then 18
    else if leb bit 5
    then 9
    else 0

abbrev left_of : ℕ → ℕ → ℕ
left_of pos_x width = u16 (u16 (pos_x + 65536 - width) + 65536 - 1)

setup_loop-ArePlaced :
    (left bit symbol_flags pos_y pos_x : ℕ)
    → symbol_flags / 2 ^ 4 % 2 ≡ 0
    → room bit ≤ pos_x
    → pos_x < width
    → pos_y + 16 ≤ height
    → ArePlaced (setup_loop left bit width height symbol_flags pos_y pos_x)
unfolding setup_loop
setup_loop-ArePlaced zero bit symbol_flags pos_y pos_x n h k y = tt
setup_loop-ArePlaced (suc left) bit symbol_flags pos_y pos_x n h k y =
    let rec = setup_loop-ArePlaced left (suc bit) symbol_flags pos_y in
    let four : bit ≡ 4 → symbol_flags / 2 ^ bit % 2 ≡ 0 = λ e. rw e n in
    elim (ℕ_discrete bit 4) [
      | yes e ↦ ground (arith, four e, rec pos_x)
      | no ne ↦
          ground (
            arith,
            rec pos_x,
            rec (left_of pos_x 13),
            rec (left_of pos_x 17),
            rec (left_of pos_x 8),
          )
    ]

module _ {F : Type 0} ⦃f : Float F⦄ ⦃g : Gfx F⦄ where
  -- What the status bar draws lies on the display, whatever symbols but the player's name it was set
  -- up with, and whatever it reads: the rectangles, lines and bitmaps as a whole, and the texts where
  -- they start. The symbols keep their places and sizes.
  pub print_status-AreInside :
      (e : Surroundings) (symbol_flags : ℕ) (c : Canvas F)
      → symbol_flags / 2 ^ 4 % 2 ≡ 0
      → AreInside c
      → let ss = setup width height symbol_flags 0 in
        let (ss', c') = print_status e ss c in (ss' ≡ ss) × AreInside c'
  unfolding print_status setup
  print_status-AreInside e symbol_flags c n i =
      print_symbols-AreInside _ _ c
        (setup_loop-ArePlaced 32 0 symbol_flags 0 127 n (omega arith) (omega arith) (omega arith)) i
