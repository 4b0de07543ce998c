-- ===== src/Oled/StatusBar.antt =====
-- The status bar (src/oled/status_bar.hpp, status_bar.cpp): where its symbols stand, and what the
-- battery icon and the Wi-Fi icon show. The pixels of the symbols are not modelled.
pub mod Layout
pub mod Icons
pub mod Symbols
pub mod Inside
use astro_photo_power_box.Prelude.{
  ℕ, zero, suc, ◌+◌, ◌-◌, ◌*◌, ◌/◌, ◌%◌, ◌^◌, Bool, true, false, not, ◌&&◌, ◌||◌, ◌==◌, Option,
  some, none, List, [], ◌∷◌, ℤ, pos, negsuc, pos_part, get_or, ltb, ltb_ℤ, u16, if◌then◌else◌,
}
use astro_photo_power_box.Float.{Float}

-- The classes of symbols.
pub data Kind : Type 0 where
  state_of_charge_icon state_of_charge_value wifi_strength_icon standby_icon : Kind
  player_name lock_icon : Kind

pub record Symbol : Type 0 where
  pub kind : Kind
  pub pos_x : ℕ  -- uint16_t
  pub pos_y : ℕ  -- uint16_t
  pub width : ℕ  -- uint16_t
  pub height : ℕ  -- uint16_t

-- The constructors.
unfoldable pub new_symbol : Kind → Symbol
new_symbol k = record {
  kind = k;
  pos_x = 0;
  pos_y = elim k [ state_of_charge_value ↦ 1 | _ ↦ 0 ];
  width = elim k [
    | state_of_charge_icon ↦ 13
    | state_of_charge_value ↦ 17
    | wifi_strength_icon ↦ 8
    | standby_icon ↦ 8
    | player_name ↦ 1
    | lock_icon ↦ 5
  ];
  height = elim k [ state_of_charge_value ↦ 7 | wifi_strength_icon ↦ 16 | _ ↦ 8 ];
}

-- `addSymbol` on the flag 1 << bit; there is no symbol for the other flags.
unfoldable pub add_symbol : ℕ → Option Symbol
unfolding new_symbol
add_symbol bit =
    if bit == 0
    then some (new_symbol state_of_charge_icon)
    else if bit == 1
    then some (new_symbol state_of_charge_value)
    else if bit == 2
    then some (new_symbol wifi_strength_icon)
    else if bit == 5
    then some (new_symbol standby_icon)
    else if bit == 4
    then some (new_symbol player_name)
    else if bit == 6
    then some (new_symbol lock_icon)
    else none

-- `barSymbol::setPos`, which is not virtual: it is what `setup` calls for every class.
unfoldable pub set_pos : ℕ → ℕ → Symbol → Symbol
set_pos x y s = record s { pos_x = x; pos_y = y }

-- The `switch` of `setup`: the symbol at its place, and the right end of what is left of the bar.
unfoldable pub place : ℕ → ℕ → ℕ → ℕ → ℕ → Symbol → Symbol × ℕ
unfolding set_pos
place width height pos_y pos_x bit s =
    if bit == 4
    then (set_pos 0 pos_y s, pos_x)
    else if bit == 6
    then (
      set_pos (u16 (width + 131072 - s.width - 1)) (u16 (height + 131072 - s.height - 1)) s,
      pos_x,
    )
    else (
      set_pos (u16 (pos_x + 65536 - s.width)) pos_y s,
      u16 (u16 (pos_x + 65536 - s.width) + 65536 - 1),
    )

-- The loop of `setup` over the flags from 1 << bit on: the symbols that it adds, in their order.
unfoldable pub setup_loop : ℕ → ℕ → ℕ → ℕ → ℕ → ℕ → ℕ → List Symbol
unfolding add_symbol place
setup_loop zero bit width height symbol_flags pos_y pos_x = []
setup_loop (suc left) bit width height symbol_flags pos_y pos_x =
    elim (if symbol_flags / 2 ^ bit % 2 == 1 then add_symbol bit else none) [
      | none ↦ setup_loop left (suc bit) width height symbol_flags pos_y pos_x
      | some s ↦
          let (s, pos_x) = place width height pos_y pos_x bit s in
          s ∷ setup_loop left (suc bit) width height symbol_flags pos_y pos_x
    ]

-- `setup`: 32 flags fit into a `uint32_t`.
unfoldable pub setup : ℕ → ℕ → ℕ → ℕ → List Symbol
unfolding setup_loop
setup width height symbol_flags pos_y =
    setup_loop 32 0 width height symbol_flags pos_y (u16 (width + 65536 - 1))

-- `millis() & (1 << 10)`
abbrev pub blink : ℕ → Bool
blink time = time / 1024 % 2 == 1

-- `stateOfChargeIcon::printSym`: the number of bars that it draws, or `none` where it draws nothing.
unfoldable pub charge_bars : {F : Type 0} ⦃f : Float F⦄ → F → Bool → ℕ → Option ℕ
charge_bars ⦃f⦄ soc charging time =
    let bars = pos_part (f.to_int (f.div soc (f.lit (pos 333) 1))) + 1 in
    let bars = if ltb 3 bars then 3 else bars in
    if charging && f.lt soc (f.lit (pos 95) 0)
    then some (if blink time then bars - 1 else bars)
    else if f.lt soc (f.lit (pos 20) 0)
    then (if blink time then none else some 0)
    else some bars

-- `wifiStrengthValues`
unfoldable pub wifi_strength_value : ℕ → ℤ
wifi_strength_value bar = get_or (negsuc 69 ∷ negsuc 66 ∷ negsuc 59 ∷ negsuc 55 ∷ []) bar (pos 0)

-- The loop that draws the bars, from `bar` on.
unfoldable pub wifi_bar_loop : ℕ → ℕ → ℤ → ℕ
unfolding wifi_strength_value
wifi_bar_loop zero bar dbm = 0
wifi_bar_loop (suc left) bar dbm =
    let rest = suc (wifi_bar_loop left (suc bar) dbm) in
    if ltb_ℤ dbm (wifi_strength_value bar) then 0 else rest

-- `wifiStrengthIcon::printSym`: the number of bars, or `none` for the icon of a missing connection.
unfoldable pub wifi_bars : Bool → ℤ → Option ℕ
unfolding wifi_bar_loop
wifi_bars connected dbm =
    let absent = pos_part dbm == 0 && not (ltb_ℤ dbm (pos 0)) in
    if ltb_ℤ dbm (wifi_strength_value 0) || absent || not connected
    then none
    else some (wifi_bar_loop 4 0 dbm)
