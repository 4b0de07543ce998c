-- ===== src/Oled/Tests.antt =====
-- Runs of the display, of its status bar and of the progress bar.
use astro_photo_power_box.Prelude.{
  ℕ, ◌<◌, ◌≤◌, ◌≡◌, ◌⊎◌, true, false, not, some, [], pos, negsuc, ◌+ℤ◌, ◌≤ℤ◌, min_ℤ, arith, refl,
}
use astro_photo_power_box.Float.Milli.{Milli, milli_float}
use astro_photo_power_box.Gfx.{Canvas, Text, plain, width, height}
use astro_photo_power_box.Gfx.Memory.{memory_gfx, memory-IsPixelMemory}
use astro_photo_power_box.Sensors.Types.{Psensors}
use astro_photo_power_box.Oled.Content.{View, startup}
use astro_photo_power_box.Oled.{status_display, suppress_content_temporary, set_screen, loop}
use astro_photo_power_box.Gfx.{push_to_screen}
use astro_photo_power_box.Prelude.{leb, ◌∷◌, if◌then◌else◌}
use astro_photo_power_box.Oled.{Display}
use astro_photo_power_box.Oled.Screens.{loop_suppressed}
use astro_photo_power_box.Oled.StatusBar.{setup}
use astro_photo_power_box.Oled.StatusBar.Symbols.{Surroundings, print_status}
use astro_photo_power_box.Oled.StatusBar.Inside.{AreInside, print_status-AreInside}
use astro_photo_power_box.Oled.Printing.{bar_length, text_y_pos, print_bar_at}
use astro_photo_power_box.Oled.Printing.Bar.{with_text, print_bar_at_lem}

abbrev sensors : Psensors Milli ℕ
sensors = record {
  reader = record { get_voltage = λ c n. (12800, n); get_current = λ c n. (150, n) };
  get_power = λ c n. 1920;
  get_adc_shunt = λ c n. 100;
}

abbrev readings : Surroundings
readings = record {
  keep_awake = false;
  rssi = negsuc 59;
  connected = true;
  ssid_ndx = 1;
  unlocked = false;
  icon_time = 4002;
  value_time = 4003;
}

abbrev values : View Milli
values = record {
  soc = 80000;
  energy_wh = 300000;
  mac_address = "00:11:22:33:44:55";
  blink_time = 4000;
  end_time = 4001;
}

abbrev quiet : Display Milli
quiet = suppress_content_temporary 100 5000 (set_screen startup status_display)

loop_suppressed_example :
    let (p', d') = loop sensors readings values 4000 7 quiet in
    (p' ≡ 7)
    × (d'.drawn ≡ (
        if leb quiet.next_bar_update 4000
        then push_to_screen ∷ (print_status readings quiet.status_bar quiet.drawn).1
        else quiet.drawn))
    × (d'.screen ≡ quiet.screen)
    × (d'.next_content_update ≡ quiet.next_content_update)
    × (d'.was_suppressed ≡ quiet.was_suppressed)
    × (d'.no_content_until ≡ quiet.no_content_until)
unfolding suppress_content_temporary
loop_suppressed_example = loop_suppressed sensors readings values 4000 7 quiet (omega arith)

abbrev blank : Canvas Milli
blank = []

-- With the Wi-Fi icon and the lock, as the firmware sets the bar up.
print_status-AreInside_example :
    let ss = setup width height 68 0 in
    let (ss', c') = print_status readings ss blank in (ss' ≡ ss) × AreInside c'
print_status-AreInside_example = print_status-AreInside readings 68 blank (omega arith) tt

abbrev progress : Text Milli
progress = plain "5/10 (50%)"

half_bar : bar_length {F = Milli} 50000 ≡ pos 62
unfolding bar_length
half_bar = refl

text_row : text_y_pos (pos 16) (pos 16) ≡ pos 20
unfolding ◌+ℤ◌
text_row = refl

-- Half of the bar, and a pixel of the text in it.
print_bar_at_lem_example :
    let (start, drawn) = with_text (pos 16) 50000 progress (pos 16) blank in
    let stop = min_ℤ (memory_gfx.get_cursor_x drawn) (pos 2 +ℤ bar_length {F = Milli} 50000) in
    let c' = print_bar_at (pos 16) 50000 (some progress) (pos 16) blank in
    let py = text_y_pos (pos 16) (pos 16) +ℤ pos 3 in
    (3 < 8
      → start ≤ℤ pos 40
      → pos 40 +ℤ pos 1 ≤ℤ stop
      → memory_gfx.get_pixel c' (pos 40) py ≡ not (memory_gfx.get_pixel drawn (pos 40) py))
    × ((8 ≤ 3) ⊎ (pos 40 +ℤ pos 1 ≤ℤ start) ⊎ (stop ≤ℤ pos 40)
        → memory_gfx.get_pixel c' (pos 40) py ≡ memory_gfx.get_pixel drawn (pos 40) py)
print_bar_at_lem_example =
    print_bar_at_lem memory-IsPixelMemory (pos 16) (pos 40) 50000 progress (pos 16) 3 blank
      (rw half_bar (omega arith)) (rw half_bar (omega arith)) (omega arith)
      (rw text_row (omega arith)) (rw text_row (omega arith))
