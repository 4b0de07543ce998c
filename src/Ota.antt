-- ===== src/Ota.antt =====
-- The update over the air (src/ota/ota.hpp, ota.cpp). The ArduinoOTA library is not in the repository:
-- what it calls while it is handled is a list of the handlers' events.
pub mod Gate
use Prim.Native.String.{String}
use astro_photo_power_box.Prelude.{
  ℕ, ◌+◌, ◌%◌, Bool, true, false, ◌||◌, ◌==◌, some, List, [], ◌∷◌, ℤ, pos, pos_part, u8, u32,
  if◌then◌else◌,
}
use astro_photo_power_box.Float.{Float, nought, whole}
use astro_photo_power_box.Gfx.{
  Gfx, clear_display, push_to_screen, set_cursor, print, plain, formatted, int_arg,
}
use astro_photo_power_box.Oled.Printing.{center_text, print_bar_at}
use astro_photo_power_box.Oled.{Display, draw, on_canvas, suppress_content_temporary}
use astro_photo_power_box.Switcher.Types.{Switcher, ConsumersState, state_number}
use astro_photo_power_box.Switcher.Pins.{set_consumers, set_heater}

-- Progress is reported as the bytes that came, and those of the whole (unsigned int); an error with
-- the time and its number.
pub data OtaEvent : Type 0 where
  ota_start ota_end : OtaEvent
  ota_progress : ℕ → ℕ → OtaEvent
  ota_error : ℕ → ℕ → OtaEvent

-- `_sigUpdateStarted` and `callCount`; whether the Wi-Fi stack was told not to sleep
-- (`wifi_set_sleep_type(NONE_SLEEP_T)`), the file system was closed (`LittleFS.end`), and a
-- reset requested (`ESP.reset`).
pub record Ota : Type 0 where
  pub update_started : Bool
  pub call_count : ℕ  -- unsigned int
  pub sleep_none : Bool
  pub fs_ended : Bool
  pub reset_requested : Bool

unfoldable pub start : Ota
start = record {
  update_started = false;
  call_count = 0;
  sleep_none = false;
  fs_ended = false;
  reset_requested = false;
}

unfoldable pub is_updating : Ota → Bool
is_updating o = o.update_started

module _ {F : Type 0} where
  unfoldable pub ready_4_update : Switcher F → Bool
  unfolding state_number
  ready_4_update s =
      state_number s.consumers_state == state_number ConsumersState.consumers_off_idle

module _ {F : Type 0} ⦃f : Float F⦄ ⦃g : Gfx F⦄ where
  -- A text in the middle of the cleared display.
  unfoldable pub show_message : String → Display F → Display F
  unfolding draw on_canvas center_text
  show_message text d =
      on_canvas (λ v. (center_text (plain text) v).1)
        (draw (set_cursor (pos 0) (pos 0)) (draw clear_display d))

  -- The bar and the text of the progress. The text has less than 40 characters, so that it is not
  -- cut.
  unfoldable pub show_progress : ℕ → ℕ → Display F → Display F
  unfolding draw on_canvas print_bar_at
  show_progress progress total d =
      let percent = f.div (f.mul (whole 100) (f.of_int (pos progress))) (f.of_int (pos total)) in
      let value = u8 (pos_part (f.to_int percent)) in
      let text =
        formatted "%d/%d (%u%%)"
          (int_arg (pos progress) ∷ int_arg (pos total) ∷ int_arg (pos value) ∷ []) in
      draw push_to_screen (on_canvas (print_bar_at (pos 16) percent (some text) (pos 16)) d)

  -- The handlers that `begin` registers.
  unfoldable pub on_event : OtaEvent → Ota → Switcher F → Display F → Ota × Switcher F × Display F
  unfolding ready_4_update set_consumers set_heater draw show_message show_progress
      suppress_content_temporary
  on_event ota_start o s d =
      if ready_4_update s
      then (
        record o { update_started = true; sleep_none = true; fs_ended = true },
        s,
        draw push_to_screen (show_message "Updating" d),
      )
      else (o, s, d)
  on_event (ota_progress progress total) o s d = (
    record o { call_count = u32 (o.call_count + 1) },
    s,
    if o.call_count % 10 == 0 || progress == total then show_progress progress total d else d,
  )
  on_event (ota_error t error) o s d = (
    record o { update_started = false },
    s,
    suppress_content_temporary t 3000 (
        draw (print (formatted "Update failed (%d)" (int_arg (pos error) ∷ [])))
          (draw (set_cursor (pos 0) (pos 16)) (draw clear_display d))),
  )
  on_event ota_end o s d = (
    record o { reset_requested = true },
    set_heater 1 nought (set_heater 0 nought (set_consumers false s)),
    draw push_to_screen (draw (print (plain "\n\nreboot...")) (show_message "Done" d)),
  )

  unfoldable pub on_events :
      List OtaEvent → Ota → Switcher F → Display F → Ota × Switcher F × Display F
  unfolding on_event
  on_events [] o s d = (o, s, d)
  on_events (e ∷ es) o s d = let (o, s, d) = on_event e o s d in on_events es o s d

  -- `handle`; `es` is what the library would call.
  unfoldable pub handle :
      List OtaEvent → Ota → Switcher F → Display F → Ota × Switcher F × Display F
  unfolding on_events ready_4_update
  handle es o s d = let done = on_events es o s d in if ready_4_update s then done else (o, s, d)
