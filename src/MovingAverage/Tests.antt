-- ===== src/MovingAverage/Tests.antt =====
-- A run of the moving average over two values.
use astro_photo_power_box.Prelude.{◌≡◌, true, false, length, replicate, pos, arith, ◌∷◌, []}
use astro_photo_power_box.Float.{nought}
use astro_photo_power_box.Float.Milli.{Milli, milli_float}
use astro_photo_power_box.RingBuffer.Inv.{IsValid}
use astro_photo_power_box.RingBuffer.Queue as Queue
use astro_photo_power_box.MovingAverage.{MovingAverage, add_value, reset}
use astro_photo_power_box.MovingAverage.Filling.{add_times, reset_lem}
use astro_photo_power_box.MovingAverage.Window.{reduced_sum, window, add_value_lem}

-- 1.0 and 3.0, the oldest one first; the window is full
abbrev full_window : MovingAverage Milli
full_window = record {
  buffer = record {
    full = true;
    empty = false;
    mem_ok = true;
    num_elements = 2;
    read_ndx = 1;
    write_ndx = 1;
    rb_data = 3000 ∷ 1000 ∷ [];
    peak_all_ndx = 0;
    peak_start = false;
  };
  sum = 4000;
  avg_value = 2000;
}

full_window-IsValid : IsValid full_window.buffer
full_window-IsValid = ground arith

add_value_lem_example :
    let m' = add_value 0 5000 full_window in
    (window m' ≡ Queue.push_lossy 2 5000 (window full_window))
    × (m'.sum ≡ milli_float.add (reduced_sum 0 full_window) 5000)
    × (m'.avg_value ≡ milli_float.div m'.sum (milli_float.of_int (pos (length (window m')))))
    × IsValid m'.buffer
add_value_lem_example = add_value_lem 0 5000 full_window full_window-IsValid

reset_lem_example :
    let m' = reset 3 1500 full_window in
    (window m' ≡ replicate 2 1500) × (m'.sum ≡ add_times 2 1500 nought) × (m'.avg_value ≡ 1500)
reset_lem_example = reset_lem 3 1500 full_window full_window-IsValid (omega arith)
