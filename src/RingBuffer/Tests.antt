-- ===== src/RingBuffer/Tests.antt =====
-- Runs of the ring buffer, and its theorems at them.
use astro_photo_power_box.Prelude.{ℕ, List, ◌≡◌, refl, true, false, [], ◌∷◌, length, arith}
use astro_photo_power_box.RingBuffer.{
  RbBase, rb_base, remaining_elm, read, write, write_lossy, peak_all_start,
}
use astro_photo_power_box.RingBuffer.Inv.{IsValid}
use astro_photo_power_box.RingBuffer.Queue
use astro_photo_power_box.RingBuffer.Contents.{contents}
use astro_photo_power_box.RingBuffer.Refine.{read_refines, write_refines}
use astro_photo_power_box.RingBuffer.Trace.{
  Call, write_call, write_lossy_call, read_call, peak_call, clear_call, remaining_call, run,
  queue_run, run-queue_run,
}
use astro_photo_power_box.RingBuffer.Peek.{peak_loop, peak_loop_lem}

-- 7 was the third element written, 8 and 9 went round the end.
abbrev wrapped : RbBase ℕ
wrapped = record {
  full = true;
  empty = false;
  mem_ok = true;
  num_elements = 3;
  read_ndx = 2;
  write_ndx = 2;
  rb_data = 8 ∷ 9 ∷ 7 ∷ [];
  peak_all_ndx = 0;
  peak_start = false;
}

wrapped-IsValid : IsValid wrapped
wrapped-IsValid = ground arith

fill_and_drain :
    let r0 = rb_base {A = ℕ} 0 true 2 in
    let r1 = (write 4 r0).1 in
    let r2 = (write 5 r1).1 in
    let r3 = (write_lossy 6 r2).1 in
    ((write 9 r2).0 ≡ false) × ((read 0 r3).1 ≡ 5) × (remaining_elm (read 0 r3).2 ≡ 1)
unfolding rb_base write write_lossy read remaining_elm
fill_and_drain = (refl, refl, refl)

write_refines_example :
    let (written, r) = write 1 wrapped in
    (written, contents 0 r) ≡ Queue.push 3 1 (contents 0 wrapped)
write_refines_example = write_refines 0 1 wrapped-IsValid

read_refines_example :
    let (taken, value, r) = read 1 wrapped in
    (taken, value, contents 0 r) ≡ Queue.pop 1 (contents 0 wrapped)
read_refines_example = read_refines 0 1 wrapped-IsValid

peak_loop_lem_example :
    let (count, s) = peak_all_start wrapped in
    (count ≡ length (contents 0 wrapped)) × (peak_loop 4 0 s ≡ contents 0 wrapped)
unfolding remaining_elm
peak_loop_lem_example = peak_loop_lem 0 0 4 wrapped-IsValid (omega arith)

-- The third element is refused, the fourth pushes the first one out.
abbrev calls : List (Call ℕ)
calls =
    write_call 5
    ∷ write_call 6
    ∷ write_call 7
    ∷ write_lossy_call 8
    ∷ peak_call 0
    ∷ read_call 0
    ∷ remaining_call
    ∷ clear_call
    ∷ read_call 9
    ∷ []

run-queue_run_example : (run calls (rb_base 0 true 2)).0 ≡ queue_run 2 calls []
run-queue_run_example = run-queue_run 0 2 calls (omega arith) (omega arith)
