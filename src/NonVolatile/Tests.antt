-- ===== src/NonVolatile/Tests.antt =====
-- Runs on a file system that holds one document, or none, and takes every writing.
use astro_photo_power_box.Prelude.{◌≡◌, true, false, Option, some, none, refl, if◌then◌else◌, arith}
use astro_photo_power_box.Float.Milli.{Milli, milli_float}
use astro_photo_power_box.Json.{Json}
use astro_photo_power_box.Oled.{status_display}
use astro_photo_power_box.NonVolatile.{
  BatStats, NonVolatile, FileSystem, non_volatile, set_remaining_charge, save, loop,
}
use astro_photo_power_box.Json.Text.{exact-IsText}
use astro_photo_power_box.NonVolatile.Stats.{IsKeeping, reread_stats}
use astro_photo_power_box.NonVolatile.Saving.{saving, save_lem, loop_saves_change}

abbrev files : FileSystem Milli (Option (Json Milli))
files = record {
  begin = λ d. d;
  parse = λ d. d;
  truncate = λ d. none;
  seek_start = λ d. (true, d);
  write = λ j d. (80, some j);
  close = λ d. d;
}

abbrev stats : BatStats Milli
stats = record { total_coulomb_charged = 0; total_coulomb_discharged = 0; remaining_charge = 50000 }

abbrev nvmem : NonVolatile Milli
nvmem = record { dirty = true; last_mod = 500; stats = stats; saved_stats = stats }

files-IsKeeping : IsKeeping (λ (j : Json Milli). 80) (λ j. j) files
files-IsKeeping = record { kept = λ s d sought n. refl }

save_lem_example :
    let (success, m', d', display') = save files 900 stats nvmem none status_display in
    let (answer, after) = saving files stats none in
    (nvmem.dirty ≡ false
      → (success ≡ false) × (m' ≡ nvmem) × (d' ≡ none) × (display' ≡ status_display))
    × (nvmem.dirty ≡ true
        → (success ≡ answer)
          × (d' ≡ after)
          × (m'.dirty ≡ false)
          × (m'.last_mod ≡ 0)
          × (m'.stats ≡ nvmem.stats)
          × (m'.saved_stats ≡ (if answer then stats else nvmem.saved_stats)))
save_lem_example = save_lem files 900 stats nvmem none status_display

loop_saves_change_example :
    let m1 = set_remaining_charge 1000 51000 nvmem in
    let (m', d', display') = loop files 70000 70001 m1 none status_display in
    (m'.stats.remaining_charge ≡ 51000)
    × (m'.saved_stats ≡ m'.stats)
    × (m'.dirty ≡ false)
    × (d' ≡ (saving files m1.stats none).1)
    × ((non_volatile files d').0.stats ≡ reread_stats (λ x. true) (λ x. x) m'.stats)
loop_saves_change_example =
    loop_saves_change files (λ j. 80) exact-IsText files-IsKeeping 1000 70000 70001 51000 nvmem none
      status_display refl (omega arith) (omega arith) refl refl
