-- ===== src/Oled/StatusBar/Layout.antt =====
-- The symbols of the status bar do not overlap.
use astro_photo_power_box.Prelude.{
  ℕ, zero, suc, ◌+◌, ◌-◌, ◌≤◌, ◌<◌, ◌≡◌, List, [], ◌∷◌, arith, if◌then◌else◌, leb, u16, ◌==◌,
}
use astro_photo_power_box.Oled.StatusBar.{Symbol, setup_loop, setup, player_name, lock_icon}

-- The symbols of the row: all but the player's name and the lock.
unfoldable pub row : List Symbol → List Symbol
row [] = []
row (s ∷ ss) = elim s.kind [ player_name ↦ row ss | lock_icon ↦ row ss | _ ↦ s ∷ row ss ]

-- From the right: each symbol ends at `right`, and the next one a pixel to the left of it.
unfoldable pub IsPacked : ℕ → List Symbol → Type 0
IsPacked right [] = Unit
IsPacked right (s ∷ ss) = (s.pos_x + s.width ≡ right) × (IsPacked (s.pos_x - 1) ss)

-- The width of the symbols from a flag on, each with its pixel.
abbrev room : ℕ → ℕ
room bit =
    if bit == 0
    then 50
    else if bit == 1
    then 36
    else if leb bit 2
    then 18
    else if leb bit 5
    then 9
    else 0

-- What is left of the row once a symbol of this width has been placed.
abbrev left_of : ℕ → ℕ → ℕ
left_of pos_x width = u16 (u16 (pos_x + 65536 - width) + 65536 - 1)

setup_loop-IsPacked :
    (left bit width height symbol_flags pos_y pos_x : ℕ)
    → room bit ≤ pos_x
    → pos_x < 65536
    → IsPacked pos_x (row (setup_loop left bit width height symbol_flags pos_y pos_x))
unfolding setup_loop row IsPacked
setup_loop-IsPacked zero bit width height symbol_flags pos_y pos_x h k = tt
setup_loop-IsPacked (suc left) bit width height symbol_flags pos_y pos_x h k =
    let rec = setup_loop-IsPacked left (suc bit) width height symbol_flags pos_y in
    ground (arith, rec pos_x, rec (left_of pos_x 13), rec (left_of pos_x 17), rec (left_of pos_x 8))

-- On a display of at least 51 pixels the symbols of the row stand side by side from the right edge,
-- each a pixel apart from the next, whatever flags are set.
setup-IsPacked :
    (width height symbol_flags pos_y : ℕ)
    → 51 ≤ width
    → width < 65536
    → IsPacked (width - 1) (row (setup width height symbol_flags pos_y))
unfolding setup
setup-IsPacked width height symbol_flags pos_y h k = rw (← edge width h k) (
    setup_loop-IsPacked 32 0 width height symbol_flags pos_y (u16 (width + 65536 - 1)) (omega arith)
      (omega arith))
  where
    edge : (width : ℕ) → 51 ≤ width → width < 65536 → u16 (width + 65536 - 1) ≡ width - 1
    edge width h k = omega arith
