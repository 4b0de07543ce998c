-- ===== src/NonVolatile/Saving.antt =====
-- When the statistics are written, and what is remembered of it.
use astro_photo_power_box.Prelude.{
  ℕ, ◌<◌, ◌≡◌, Bool, true, false, ◌&&◌, ltb, sub32, ap, sym, ◌∙◌, if◌then◌else◌, arith,
}
use astro_photo_power_box.Float.{Float}
use astro_photo_power_box.Json.{Json}
use astro_photo_power_box.Json.Text.{IsText}
use astro_photo_power_box.Oled.{Display}
use astro_photo_power_box.NonVolatile.{
  BatStats, NonVolatile, FileSystem, stats_document, non_volatile, set_remaining_charge, save, loop,
}
use astro_photo_power_box.NonVolatile.Stats.{
  IsKeeping, reread_stats, non_volatile-kept, convert_from_json-stats_document,
}

module _ {F D : Type 0} ⦃f : Float F⦄ (fs : FileSystem F D) where
  -- What the file system answers to a saving of these statistics: whether it succeeds, and its state.
  abbrev pub saving : BatStats F → D → Bool × D
  saving stats d =
      let (sought, d1) = fs.seek_start (fs.truncate d) in
      let (bytes_written, d2) = fs.write (stats_document stats) d1 in
      (sought && ltb 0 bytes_written, fs.close (if sought then d2 else d1))

  -- Statistics that are not marked as changed are not written. Otherwise the mark is cleared and the
  -- time of the change forgotten, also where the writing fails; what is taken for the file's content
  -- changes only if it succeeds.
  pub save_lem :
      (show_time : ℕ) (stats : BatStats F) (m : NonVolatile F) (d : D) (display : Display F)
      → let (success, m', d', display') = save fs show_time stats m d display in
        let (answer, after) = saving stats d in
        (m.dirty ≡ false → (success ≡ false) × (m' ≡ m) × (d' ≡ d) × (display' ≡ display))
        × (m.dirty ≡ true
            → (success ≡ answer)
              × (d' ≡ after)
              × (m'.dirty ≡ false)
              × (m'.last_mod ≡ 0)
              × (m'.stats ≡ m.stats)
              × (m'.saved_stats ≡ (if answer then stats else m.saved_stats)))
  unfolding save
  save_lem show_time stats m d display = ground arith

  seek_of_saving :
      (stats : BatStats F) (d : D)
      → (saving stats d).0 ≡ true
      → ((fs.seek_start (fs.truncate d)).0 ≡ true)
        × ((saving stats d).1
            ≡ fs.close (fs.write (stats_document stats) (fs.seek_start (fs.truncate d)).1).1)
  seek_of_saving stats d ok = ground arith

  loop_writes :
      (mod_time sys_time show_time : ℕ) (charge : F) (m : NonVolatile F) (d : D)
      (display : Display F)
      → f.eq charge m.stats.remaining_charge ≡ false
      → 0 < mod_time
      → 60000 < sub32 sys_time mod_time
      → let m1 = set_remaining_charge mod_time charge m in
        (saving m1.stats d).0 ≡ true
        → let (m', d', display') = loop fs sys_time show_time m1 d display in
          (m'.stats.remaining_charge ≡ charge)
          × (m'.saved_stats ≡ m'.stats)
          × (m'.dirty ≡ false)
          × (d' ≡ (saving m1.stats d).1)
          × (m'.stats ≡ m1.stats)
  unfolding loop set_remaining_charge
  loop_writes mod_time sys_time show_time charge m d display ne z h ok = ground arith

  -- A charge that differs from the last one is written by a call of `loop` more than a minute later, if
  -- the file system takes all of it, and unless the change came at time 0. A start of the box from that
  -- file finds the statistics with that charge, as their text has them, or zero for a float that is not
  -- finite.
  pub loop_saves_change :
      (size : Json F → ℕ) {is_finite : F → Bool} {reads : F → F} {wire : Json F → Json F}
      → IsText is_finite reads wire
      → IsKeeping size wire fs
      → (mod_time sys_time show_time : ℕ) (charge : F) (m : NonVolatile F) (d : D)
        (display : Display F)
      → f.eq charge m.stats.remaining_charge ≡ false
      → 0 < mod_time
      → 60000 < sub32 sys_time mod_time
      → let m1 = set_remaining_charge mod_time charge m in
        let document = stats_document m1.stats in
        (saving m1.stats d).0 ≡ true
        → (fs.write document (fs.seek_start (fs.truncate d)).1).0 ≡ size document
        → let (m', d', display') = loop fs sys_time show_time m1 d display in
          (m'.stats.remaining_charge ≡ charge)
          × (m'.saved_stats ≡ m'.stats)
          × (m'.dirty ≡ false)
          × (d' ≡ (saving m1.stats d).1)
          × ((non_volatile fs d').0.stats ≡ reread_stats is_finite reads m'.stats)
  loop_saves_change size {is_finite} {reads} text keeping mod_time sys_time show_time charge m d
        display ne z h ok whole =
      let m1 = set_remaining_charge mod_time charge m in
      let (new, saved, clean, written, stats) =
        loop_writes mod_time sys_time show_time charge m d display ne z h ok in
      let (sought, closed) = seek_of_saving m1.stats d ok in
      let found =
        ap (λ d. fs.parse (fs.begin d)) (written ∙ closed) ∙ keeping.kept m1.stats d sought whole in
      (
        new,
        saved,
        clean,
        written,
        non_volatile-kept text m1.stats fs _ found
            ∙ convert_from_json-stats_document text m1.stats
            ∙ ap (reread_stats is_finite reads) (sym stats),
      )
