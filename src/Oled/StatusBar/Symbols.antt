-- ===== src/Oled/StatusBar/Symbols.antt =====
-- What the symbols of the status bar draw: `printSym` of the classes, and `printStatus`, of
-- src/oled/status_bar.cpp.
use Prim.Native.String.{String}
use astro_photo_power_box.Prelude.{
  ℕ, zero, suc, ◌+◌, ◌-◌, Bool, true, false, not, ◌&&◌, ◌==◌, Option, some, none, List, [], ◌∷◌, ℤ,
  pos, signed16, u16, u32, u8, pos_part, neg_part, ltb, if◌then◌else◌,
}
use astro_photo_power_box.Float.{Float, whole}
use astro_photo_power_box.Gfx.{
  Canvas, Gfx, no_wifi_symbol, standby_symbol, locked_symbol, unlckd_symbol, fill_rect, draw_rect,
  draw_fast_v_line, draw_bitmap, set_cursor, set_text_size, print, plain, number, formatted,
  int_arg,
}
use astro_photo_power_box.Oled.StatusBar.{
  Kind, Symbol, state_of_charge_icon, state_of_charge_value, wifi_strength_icon, standby_icon,
  player_name, lock_icon, blink, charge_bars, wifi_bars,
}

-- The parameters of `printSym`, and what the symbols read for themselves: the connection, the key
-- lock (whether it is `e_unlocked_idle`), and the clock in the two symbols that may blink.
pub record Readings (F : Type 0) : Type 0 where
  pub soc : F
  pub wifi_dbm : ℤ  -- int16_t
  pub user : String
  pub keep_awake : Bool
  pub charging : Bool
  pub connected : Bool
  pub ssid_ndx : ℕ  -- uint8_t
  pub unlocked : Bool
  pub icon_time : ℕ
  pub value_time : ℕ

-- A number that is handed over as an `int16_t`.
abbrev pub coord : ℕ → ℤ
coord n = signed16 (u16 n)

module _ {F : Type 0} where
  -- `_clearDisplayPos`
  unfoldable pub clear_display_pos : Symbol → Canvas F → Canvas F
  clear_display_pos s c =
      fill_rect (coord s.pos_x) (coord s.pos_y) (coord s.width) (coord s.height) false ∷ c

  -- The loop that draws the bars of the battery, from back to front.
  unfoldable pub draw_charge_bars : ℕ → ℕ → ℕ → Canvas F → Canvas F
  draw_charge_bars zero bar_x bar_y c = c
  draw_charge_bars (suc bars) bar_x bar_y c =
      draw_charge_bars bars (u32 (bar_x + 4294967296 - 3)) bar_y
        (fill_rect (coord bar_x) (coord bar_y) (pos 2) (pos 4) true ∷ c)

  -- The loop that draws the bars of the Wi-Fi icon.
  unfoldable pub draw_wifi_bars : ℕ → ℕ → ℕ → ℕ → Canvas F → Canvas F
  draw_wifi_bars zero pos_x pos_y height c = c
  draw_wifi_bars (suc bars) pos_x pos_y height c =
      draw_wifi_bars bars (u32 (pos_x + 4294967296 - 2)) (u32 (pos_y + 4294967296 - 2)) (height + 2)
        (draw_fast_v_line (coord pos_x) (coord pos_y) (coord height) true ∷ c)

  -- The battery with its frame and these bars, or nothing.
  unfoldable pub draw_charge_icon : Option ℕ → Symbol → Canvas F → Canvas F
  unfolding clear_display_pos draw_charge_bars
  draw_charge_icon none s c = clear_display_pos s c
  draw_charge_icon (some bars) s c = draw_charge_bars bars (9 + s.pos_x) (2 + s.pos_y) (
      draw_fast_v_line (coord s.pos_x) (coord (s.pos_y + 2)) (coord (s.height + 65536 - 4)) true
      ∷ draw_rect (coord (s.pos_x + 1)) (coord s.pos_y) (coord (s.width + 65536 - 1))
          (coord s.height) true
      ∷ clear_display_pos s c)

  -- The icon of a missing connection, or these bars.
  unfoldable pub draw_wifi_icon : Option ℕ → Symbol → Canvas F → Canvas F
  unfolding clear_display_pos draw_wifi_bars
  draw_wifi_icon none s c =
      draw_bitmap (coord s.pos_x) (coord s.pos_y) no_wifi_symbol (pos 8) (pos 8) true
      ∷ clear_display_pos s c
  draw_wifi_icon (some bars) s c =
      draw_wifi_bars bars (7 + s.pos_x) (6 + s.pos_y) 1 (clear_display_pos s c)

module _ {F : Type 0} ⦃f : Float F⦄ ⦃g : Gfx F⦄ where
  -- `stateOfChargeIcon::printSym`
  unfoldable pub print_charge_icon : Readings F → Symbol → Canvas F → Canvas F
  unfolding charge_bars draw_charge_icon
  print_charge_icon r s c = draw_charge_icon (charge_bars r.soc r.charging r.icon_time) s c

  -- `stateOfChargeValue::printSym`
  unfoldable pub print_charge_value : Readings F → Symbol → Canvas F → Canvas F
  unfolding clear_display_pos
  print_charge_value r s c =
      let value = u8 (pos_part (f.to_int r.soc)) in
      if blink r.value_time && f.lt r.soc (whole 20)
      then clear_display_pos s c
      else print (formatted "% 3u" (int_arg (pos value) ∷ []))
        ∷ set_text_size 1
        ∷ set_cursor (coord s.pos_x) (coord s.pos_y)
        ∷ clear_display_pos s c

  -- `wifiStrengthIcon::printSym`
  unfoldable pub print_wifi_icon : Readings F → Symbol → Canvas F → Canvas F
  unfolding wifi_bars draw_wifi_icon
  print_wifi_icon r s c =
      print (number r.ssid_ndx)
      ∷ set_cursor (coord (s.pos_x + 3)) (coord (s.pos_y + 8))
      ∷ draw_wifi_icon (wifi_bars r.connected r.wifi_dbm) s c

  -- `standbyIcon::printSym`
  unfoldable pub print_standby_icon : Readings F → Symbol → Canvas F → Canvas F
  unfolding clear_display_pos
  print_standby_icon r s c =
      if not r.keep_awake
      then draw_bitmap (coord s.pos_x) (coord s.pos_y) standby_symbol (pos 8) (pos 8) true
        ∷ clear_display_pos s c
      else clear_display_pos s c

  -- `lockIcon::printSym`
  unfoldable pub print_lock_icon : Readings F → Symbol → Canvas F → Canvas F
  unfolding clear_display_pos
  print_lock_icon r s c =
      draw_bitmap (coord s.pos_x) (coord s.pos_y)
        (if r.unlocked then unlckd_symbol else locked_symbol) (pos 5) (pos 8) true
      ∷ clear_display_pos s c

  -- `playerName::printSym`, which takes the size of the text for its own.
  unfoldable pub print_player_name : Readings F → Symbol → Canvas F → Symbol × Canvas F
  unfolding clear_display_pos
  print_player_name r s c =
      let cleared = set_cursor (coord s.pos_x) (coord s.pos_y) ∷ clear_display_pos s c in
      let w = g.text_width cleared (plain r.user) in
      let h = g.text_height cleared (plain r.user) in
      (
        record s { width = w; height = h },
        if not (w == 0) then print (plain r.user) ∷ cleared else cleared,
      )

  -- The virtual `printSym`.
  unfoldable pub print_sym : Kind → Readings F → Symbol → Canvas F → Symbol × Canvas F
  unfolding print_charge_icon print_charge_value print_wifi_icon print_standby_icon print_lock_icon
      print_player_name
  print_sym state_of_charge_icon r s c = (s, print_charge_icon r s c)
  print_sym state_of_charge_value r s c = (s, print_charge_value r s c)
  print_sym wifi_strength_icon r s c = (s, print_wifi_icon r s c)
  print_sym standby_icon r s c = (s, print_standby_icon r s c)
  print_sym player_name r s c = print_player_name r s c
  print_sym lock_icon r s c = (s, print_lock_icon r s c)

  -- The loop of `printStatus` over the symbols.
  unfoldable pub print_symbols : Readings F → List Symbol → Canvas F → List Symbol × Canvas F
  unfolding print_sym
  print_symbols r [] c = ([], c)
  print_symbols r (s ∷ ss) c =
      let (s, c) = print_sym s.kind r s c in let (ss, c) = print_symbols r ss c in (s ∷ ss, c)

-- What `printStatus` reads for itself: `energy.getKeepAwake()` and `WiFi.RSSI()`; and the others.
pub record Surroundings : Type 0 where
  pub keep_awake : Bool
  pub rssi : ℤ
  pub connected : Bool
  pub ssid_ndx : ℕ
  pub unlocked : Bool
  pub icon_time : ℕ
  pub value_time : ℕ

-- `(int8_t) n`, as an `int16_t`
abbrev pub signed8 : ℕ → ℤ
signed8 b = signed16 (if ltb b 128 then b else b + 65280)

module _ {F : Type 0} ⦃f : Float F⦄ ⦃g : Gfx F⦄ where
  unfoldable pub print_status : Surroundings → List Symbol → Canvas F → List Symbol × Canvas F
  unfolding print_symbols
  print_status e ss c =
      print_symbols
        (record {
          soc = whole 50;
          wifi_dbm = signed8 (u8 (pos_part e.rssi + 65536 - neg_part e.rssi));
          user = "unknown";
          keep_awake = e.keep_awake;
          charging = false;
          connected = e.connected;
          ssid_ndx = e.ssid_ndx;
          unlocked = e.unlocked;
          icon_time = e.icon_time;
          value_time = e.value_time;
        })
        ss c
