-- ===== src/Oled.antt =====
-- The display: `statusDisplay` of src/oled/oled.hpp and oled.cpp, with its screens (Content), its
-- status bar (StatusBar) and the methods that print (Printing). What it draws is a list of calls.
pub mod Content
pub mod Screens
pub mod StatusBar
pub mod Printing
mod Tests
use astro_photo_power_box.Prelude.{
  ℕ, ◌+◌, Bool, true, false, ◌&&◌, ◌||◌, ◌==◌, Option, some, none, List, [], ◌∷◌, leb, ltb,
  if◌then◌else◌, u32,
}
use astro_photo_power_box.Float.{Float}
use astro_photo_power_box.Sensors.Types.{Psensors}
use astro_photo_power_box.Gfx.{
  Canvas, Draw, Gfx, begin_display, clear_display, push_to_screen, dim, set_text_wrap,
  set_text_color, width, height,
}
use astro_photo_power_box.Oled.Content.{
  Screen, ScreenName, View, get_type, new_screen, screen_number, show, startup, off, uint32_max,
}
use astro_photo_power_box.Oled.StatusBar.{Symbol, setup as status_bar_setup}
use astro_photo_power_box.Oled.StatusBar.Symbols.{Surroundings, print_status}

-- `status_bar` are the symbols of `_statusBar`; `drawn` is what was drawn, the newest first.
pub record Display (F : Type 0) : Type 0 where
  pub status_bar : List Symbol
  pub next_bar_update : ℕ  -- uint32_t
  pub next_content_update : ℕ  -- uint32_t
  pub no_content_until : ℕ  -- uint32_t
  pub was_suppressed : Bool
  pub screen : Option Screen
  pub drawn : Canvas F

abbrev pub bar_update_delay : ℕ
bar_update_delay = 50

unfoldable pub screen_type : Option Screen → ScreenName
unfolding get_type
screen_type none = off
screen_type (some s) = get_type s

module _ {F : Type 0} where
  unfoldable pub status_display : Display F
  status_display = record {
    status_bar = [];
    next_bar_update = 0;
    next_content_update = 0;
    no_content_until = 0;
    was_suppressed = false;
    screen = none;
    drawn = [];
  }

  unfoldable pub draw : Draw F → Display F → Display F
  draw d s = record s { drawn = d ∷ s.drawn }

  -- What a method that prints does to the display.
  unfoldable pub on_canvas : (Canvas F → Canvas F) → Display F → Display F
  on_canvas print d = record d { drawn = print d.drawn }

  unfoldable pub set_status_bar_visible : Bool → Display F → Display F
  set_status_bar_visible visible d = record d {
    next_bar_update = if visible then 0 else uint32_max;
  }

  unfoldable pub suppress_content_temporary : ℕ → ℕ → Display F → Display F
  suppress_content_temporary sys_time duration_ms d = record d {
    next_bar_update = 0;
    was_suppressed = true;
    no_content_until = u32 (sys_time + duration_ms);
  }

  unfoldable pub get_screen : Display F → ScreenName
  unfolding screen_type
  get_screen d = screen_type d.screen

  unfoldable pub set_screen : ScreenName → Display F → Display F
  unfolding get_screen new_screen draw screen_number
  set_screen name d =
      let d' = draw clear_display (record d { screen = some (new_screen name) }) in
      if screen_number name == screen_number (get_screen d)
      then d
      else record d' { next_bar_update = 0; next_content_update = 0 }

module _ {F P : Type 0} ⦃f : Float F⦄ ⦃g : Gfx F⦄ (sensors : Psensors F P) where
  -- The part of `loop` that shows the screen.
  unfoldable pub content_update : View F → ℕ → Option Screen → P → Display F → Bool × P × Display F
  unfolding show draw
  content_update v sys_time none p d = (false, p, d)
  content_update v sys_time (some screen) p d =
      let d1 =
        if d.was_suppressed
        then draw clear_display (record d { was_suppressed = false; next_bar_update = 0 })
        else d in
      let (next, p', c) = show sensors v screen p d1.drawn in
      if leb d.next_content_update sys_time && ltb d.no_content_until sys_time
      then (true, p', record d1 { next_content_update = next; drawn = c })
      else (false, p, d)

  unfoldable pub loop : Surroundings → View F → ℕ → P → Display F → P × Display F
  unfolding content_update print_status draw
  loop e v sys_time p d =
      let (shown, p, d) = content_update v sys_time d.screen p d in
      let bar = leb d.next_bar_update sys_time in
      let (symbols, c) = print_status e d.status_bar d.drawn in
      let d1 =
        if bar
        then record d {
          next_bar_update = u32 (sys_time + bar_update_delay);
          status_bar = symbols;
          drawn = c;
        }
        else d in
      (p, if shown || bar then draw push_to_screen d1 else d1)

  -- `setup`: the start screen without content for five seconds, and a first `loop`. The clock is read
  -- for the suppression and in `loop`. The flags are those of the Wi-Fi icon and of the lock.
  unfoldable pub setup : Surroundings → View F → ℕ → ℕ → P → Display F → P × Display F
  unfolding set_screen suppress_content_temporary loop draw status_bar_setup
  setup e v suppress_time sys_time p d =
      let d = draw begin_display d in
      let d = draw (set_text_wrap false) (draw (set_text_color true (some false)) d) in
      let d = draw (dim true) (set_screen startup d) in
      let d = record d { status_bar = status_bar_setup width height 68 0 } in
      loop e v sys_time p (suppress_content_temporary suppress_time 5000 d)
