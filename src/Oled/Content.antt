-- ===== src/Oled/Content.antt =====
-- The screens: src/oled/screen_types.hpp, screen_content.hpp and screen_content.cpp.
use Prim.Native.String.{String}
use astro_photo_power_box.Prelude.{
  ℕ, ◌+◌, ◌/◌, ◌%◌, true, false, ◌||◌, some, none, [], ◌∷◌, ℤ, pos, negsuc, ◌+ℤ◌, sub_ℕ, ltb,
  signed16, if◌then◌else◌, u32, suc,
}
use astro_photo_power_box.Float.{Float, nought, whole}
use astro_photo_power_box.Sensors.Types.{
  PsensChannel, Psensors, psens_ch1_battery, psens_ch2_dew_heater_1, psens_ch3_dew_heater_2,
  psens_ch4_pc, psens_ch5_mount, psens_ch6_imaging_cam, psens_num_channels, channel_number,
}
use astro_photo_power_box.Gfx.{
  Canvas, Gfx, wrap16, clear_display, push_to_screen, fill_rect, draw_rect, set_cursor,
  set_text_size, set_text_color, print, plain, formatted, int_arg, float_arg,
}
use astro_photo_power_box.Gfx.Rows.{invert_rows}
use astro_photo_power_box.Oled.StatusBar.{blink}

-- `e_screen`
pub data ScreenName : Type 0 where
  home startup power_bat_cam power_pc_mount power_heaters idle off : ScreenName

-- The classes of screens, a `powerScreen` with its two channels.
pub data Screen : Type 0 where
  home_screen startup_screen idle_screen off_screen : Screen
  power_screen : PsensChannel → PsensChannel → Screen

-- `getType`
unfoldable pub get_type : Screen → ScreenName
get_type home_screen = home
get_type startup_screen = startup
get_type (power_screen top bottom) = home
get_type idle_screen = home
get_type off_screen = off

-- The constructor of `powerScreen`.
unfoldable pub new_power_screen : PsensChannel → PsensChannel → Screen
unfolding channel_number
new_power_screen top bottom =
    power_screen (if ltb (channel_number top) 6 then top else psens_num_channels)
      (if ltb (channel_number bottom) 6 then bottom else psens_num_channels)

unfoldable pub new_screen : ScreenName → Screen
unfolding new_power_screen
new_screen home = home_screen
new_screen startup = startup_screen
new_screen power_bat_cam = new_power_screen psens_ch1_battery psens_ch6_imaging_cam
new_screen power_pc_mount = new_power_screen psens_ch4_pc psens_ch5_mount
new_screen power_heaters = new_power_screen psens_ch2_dew_heater_1 psens_ch3_dew_heater_2
new_screen idle = idle_screen
new_screen off = off_screen

-- The enumeration's values, by which `!=` compares.
unfoldable pub screen_number : ScreenName → ℕ
screen_number home = 0
screen_number startup = 1
screen_number power_bat_cam = 2
screen_number power_pc_mount = 3
screen_number power_heaters = 4
screen_number idle = 5
screen_number off = 6

abbrev pub uint32_max : ℕ
uint32_max = 4294967295

-- What the screens read: `battery.getSoC()`, `battery.getEnergyRemainingWh()`, the address of the
-- board, and the clock where `homeScreen` may blink and at the end.
pub record View (F : Type 0) : Type 0 where
  pub soc : F
  pub energy_wh : F
  pub mac_address : String
  pub blink_time : ℕ
  pub end_time : ℕ

-- `printChannelName`: the text that it prints.
unfoldable pub channel_name : PsensChannel → String
channel_name psens_ch1_battery = "Battery"
channel_name psens_ch2_dew_heater_1 = "Heater1"
channel_name psens_ch3_dew_heater_2 = "Heater2"
channel_name psens_ch4_pc = "Computer"
channel_name psens_ch5_mount = "Mount"
channel_name psens_ch6_imaging_cam = "Camera"
channel_name psens_num_channels = "<?>"

-- `div(n, 1000)`, which rounds towards zero.
abbrev pub div_thousand : ℤ → ℤ × ℤ
div_thousand (pos n) = (pos (n / 1000), pos (n % 1000))
div_thousand (negsuc n) = (sub_ℕ 0 (suc n / 1000), sub_ℕ 0 (suc n % 1000))

module _ {F : Type 0} ⦃f : Float F⦄ ⦃g : Gfx F⦄ where
  unfoldable pub show_startup : View F → Canvas F → Canvas F
  show_startup v c =
      push_to_screen
      ∷ print (plain v.mac_address)
      ∷ set_cursor (pos 0) (pos 24)
      ∷ print (plain "1.0.3")
      ∷ print (plain "Version: ")
      ∷ set_cursor (pos 0) (pos 16)
      ∷ set_text_size 1
      ∷ print (plain "AstroNode")
      ∷ set_text_size 2
      ∷ set_cursor (pos 0) (pos 0)
      ∷ clear_display
      ∷ c

  -- `iSoC`: how many of the 56 columns of the battery are full.
  unfoldable pub full_columns : F → ℤ
  full_columns soc = wrap16 (
      f.to_int
        (f.mul (f.div (f.fmaxf nought (f.fminf (whole 100) soc)) (whole 100)) (f.of_int (pos 56))))

  -- The battery with its voltage, once in black on white.
  unfoldable pub draw_battery : F → Canvas F → Canvas F
  draw_battery voltage c =
      let (quot, rem) = div_thousand (f.to_int (f.mul voltage (whole 1000))) in
      print (formatted "%02d.%03d V" (int_arg quot ∷ int_arg rem ∷ []))
      ∷ set_text_color false none
      ∷ set_cursor (pos 2) (pos 18)
      ∷ set_text_size 1
      ∷ draw_rect (pos 1) (pos 1) (pos 58) (pos 30) false
      ∷ fill_rect (pos 60) (pos 8) (pos 3) (pos 16) true
      ∷ fill_rect (pos 0) (pos 0) (pos 60) (pos 32) true
      ∷ c

  -- The loops that invert the empty part of the battery, which has a slanted edge.
  unfoldable pub invert_empty : F → Canvas F → Canvas F
  unfolding invert_rows full_columns
  invert_empty soc c =
      invert_rows 28 0 (λ line. full_columns soc +ℤ pos (line / 3) +ℤ pos 2) (pos 58) (pos 2) c

  unfoldable pub print_battery_values : View F → Canvas F → Canvas F
  print_battery_values v c =
      let c =
        print (formatted "%3d" (int_arg (f.to_int v.soc) ∷ []))
        ∷ set_cursor (pos 68) (pos 0)
        ∷ set_text_color true (some false)
        ∷ set_text_size 2
        ∷ c in
      let c = set_text_size 1 ∷ c in
      let c =
        print (formatted "%3d" (int_arg (f.to_int v.energy_wh) ∷ []))
        ∷ set_cursor (pos 68) (pos 16)
        ∷ set_text_size 2
        ∷ print (plain "%")
        ∷ set_cursor (g.get_cursor_x c) (pos 8)
        ∷ c in
      let c = set_text_size 1 ∷ c in
      set_text_color true (some false)
      ∷ set_text_size 1
      ∷ print (plain "Wh")
      ∷ set_cursor (g.get_cursor_x c) (pos 24)
      ∷ c

module _ {F P : Type 0} ⦃f : Float F⦄ ⦃g : Gfx F⦄ (sensors : Psensors F P) where
  unfoldable pub show_home : View F → P → Canvas F → P × Canvas F
  unfolding draw_battery invert_empty print_battery_values
  show_home v p c =
      let (voltage, p) = sensors.reader.get_voltage psens_ch1_battery p in
      let drawn = draw_battery voltage c in
      let (voltage, p) = sensors.reader.get_voltage psens_ch1_battery p in
      let inverted = invert_empty v.soc drawn in
      let visible = f.lt (whole 11) voltage || blink v.blink_time in
      (p, print_battery_values v (if visible then inverted else drawn))

  -- The body of the loop of `powerScreen::show`. The arguments of the last `printf` may be read in
  -- any order; here the voltage is read first and the shunt's value last.
  unfoldable pub show_channel : PsensChannel → ℤ → P → Canvas F → P × Canvas F
  unfolding channel_name
  show_channel channel y p c =
      let power = sensors.get_power channel p in
      let (voltage, p) = sensors.reader.get_voltage channel p in
      let (current, p) = sensors.reader.get_current channel p in
      let shunt = int_arg (signed16 (sensors.get_adc_shunt channel p)) in
      (
        p,
        print (
              formatted "%+02.1fV %+01.3fA (%d)"
                (float_arg voltage ∷ float_arg current ∷ shunt ∷ []))
            ∷ print (formatted "%+02.3fW\n" (float_arg power ∷ []))
            ∷ set_cursor (pos 60) y
            ∷ set_text_color true (some false)
            ∷ print (plain ":")
            ∷ print (plain (channel_name channel))
            ∷ print (plain " ")
            ∷ set_text_color false (some true)
            ∷ set_cursor (pos 0) y
            ∷ c,
      )

  -- `show`: the time of the next update, and what was read and drawn.
  unfoldable pub show : View F → Screen → P → Canvas F → ℕ × P × Canvas F
  unfolding show_startup show_home show_channel
  show v startup_screen p c = (uint32_max, p, show_startup v c)
  show v home_screen p c = let (p, c) = show_home v p c in (u32 (v.end_time + 1000), p, c)
  show v (power_screen top bottom) p c =
      let (p, c) = show_channel top (pos 0) p c in
      let (p, c) = show_channel bottom (pos 16) p c in (u32 (v.end_time + 200), p, c)
  show v idle_screen p c = (uint32_max, p, clear_display ∷ c)
  show v off_screen p c = (uint32_max, p, clear_display ∷ c)
