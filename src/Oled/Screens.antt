-- ===== src/Oled/Screens.antt =====
-- The screens: which one is shown, when, and what it reads.
use astro_photo_power_box.Prelude.{
  leb, if◌then◌else◌, ℕ, ◌≤◌, ◌≡◌, ◌≢◌, false, Option, some, none, refl, ap, arith, ◌∷◌,
}
use astro_photo_power_box.Float.{Float}
use astro_photo_power_box.Sensors.Types.{PsensChannel, Psensors}
use astro_photo_power_box.Gfx.{Gfx, clear_display, push_to_screen}
use astro_photo_power_box.Oled.Content.{
  ScreenName, Screen, View, get_type, new_screen, new_power_screen, screen_number, home,
}
use astro_photo_power_box.Oled.StatusBar.Symbols.{Surroundings, print_status}
use astro_photo_power_box.Oled.{Display, set_screen, get_screen, content_update, loop, draw}

screen_number-injective : (a b : ScreenName) → screen_number a ≡ screen_number b → a ≡ b
unfolding screen_number
screen_number-injective a b h = ground arith

module _ {F : Type 0} where
  -- A screen that is set is the one of that name, cleared and due at once, unless the screen shown
  -- reports that name already: then nothing happens. Power screens and the idle screen report `home`, so
  -- asking for the home screen leaves them in place, and asking for them again builds them anew.
  pub set_screen_lem :
      (name : ScreenName) (d : Display F)
      → let d' = set_screen name d in
        (name ≡ get_screen d → d' ≡ d)
        × (name ≢ get_screen d
            → (d'.screen ≡ some (new_screen name))
              × (d'.next_bar_update ≡ 0)
              × (d'.next_content_update ≡ 0)
              × (d'.drawn ≡ clear_display ∷ d.drawn))
  unfolding set_screen draw
  set_screen_lem name d = (
    λ e. ground (arith, ap screen_number e),
    λ ne. ground (arith, screen_number-injective name (get_screen d)),
  )

  -- The screens of the channel pairs report `home`; each other screen but the idle one reports its name.
  pub home_after_power :
      (top bottom : PsensChannel) (d : Display F)
      → set_screen home (record d { screen = some (new_power_screen top bottom) })
        ≡ record d { screen = some (new_power_screen top bottom) }
  unfolding set_screen get_screen new_power_screen get_type screen_number
  home_after_power top bottom d = refl

module _ {F P : Type 0} ⦃f : Float F⦄ ⦃g : Gfx F⦄ (sensors : Psensors F P) where
  content_update-suppressed :
      (v : View F) (sys_time : ℕ) (screen : Option Screen) (p : P) (d : Display F)
      → sys_time ≤ d.no_content_until
      → content_update sensors v sys_time screen p d ≡ (false, p, d)
  unfolding content_update
  content_update-suppressed v sys_time none p d h = refl
  content_update-suppressed v sys_time (some screen) p d h = ground arith

  -- While content is suppressed, which is up to and including the time `noContentUntil`, a call of `loop`
  -- shows no screen and reads no sensor: it draws nothing but the status bar, where that is due, and
  -- pushes it to the display; the screen, its due time and the time of the suppression stay.
  pub loop_suppressed :
      (e : Surroundings) (v : View F) (sys_time : ℕ) (p : P) (d : Display F)
      → sys_time ≤ d.no_content_until
      → let (p', d') = loop sensors e v sys_time p d in
        (p' ≡ p)
        × (d'.drawn ≡ (
            if leb d.next_bar_update sys_time
            then push_to_screen ∷ (print_status e d.status_bar d.drawn).1
            else d.drawn))
        × (d'.screen ≡ d.screen)
        × (d'.next_content_update ≡ d.next_content_update)
        × (d'.was_suppressed ≡ d.was_suppressed)
        × (d'.no_content_until ≡ d.no_content_until)
  unfolding loop draw
  loop_suppressed e v sys_time p d h =
      rw (content_update-suppressed v sys_time d.screen p d h) (ground arith)
