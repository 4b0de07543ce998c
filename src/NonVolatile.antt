-- ===== src/NonVolatile.antt =====
-- The battery statistics on the file system (src/non volatile/non_volatile.hpp, non_volatile.cpp),
-- without `lastCalibration`, which is not stored. `D` is the state of the file system (LittleFS).
pub mod Stats
pub mod Saving
mod Tests
use Prim.Native.String.{String}
use astro_photo_power_box.Prelude.{
  ℕ, Bool, true, false, not, ◌&&◌, ◌||◌, ◌==◌, Option, some, none, ltb, pos, sub32, if◌then◌else◌,
}
use astro_photo_power_box.Float.{Float, nought, whole}
use astro_photo_power_box.Json.{Json, null, num, set_member, member, as_float}
use astro_photo_power_box.Json.Pool.{fit, copied_key}
use astro_photo_power_box.Gfx.{clear_display, set_cursor, print, plain}
use astro_photo_power_box.Oled.{Display, draw, suppress_content_temporary}

pub record BatStats (F : Type 0) : Type 0 where
  pub total_coulomb_charged : F
  pub total_coulomb_discharged : F
  pub remaining_charge : F

pub record NonVolatile (F : Type 0) : Type 0 where
  pub dirty : Bool
  pub last_mod : ℕ  -- uint32_t
  pub stats : BatStats F
  pub saved_stats : BatStats F

-- The file "/nvmem.json": `parse` is its document, if it exists and can be parsed, read through a file
-- that is opened and closed again; `truncate` opens it
-- for writing ("w+"); `write` is the number of bytes that `serializeJson` reports.
pub record FileSystem (F D : Type 0) : Type 0 where
  pub begin : D → D
  pub parse : D → Option (Json F)
  pub truncate : D → D
  pub seek_start : D → Bool × D
  pub write : Json F → D → ℕ × D
  pub close : D → D

module _ {F : Type 0} ⦃f : Float F⦄ where
  abbrev pub no_stats : BatStats F
  no_stats = record {
    total_coulomb_charged = nought;
    total_coulomb_discharged = nought;
    remaining_charge = nought;
  }

  -- `convertToJson`, on the document or the member that it fills
  unfoldable pub convert_to_json : BatStats F → Json F → Json F
  unfolding set_member
  convert_to_json src dst = set_member "remaining charge" (num src.remaining_charge) (
      set_member "total coulomb discharged" (num src.total_coulomb_discharged)
        (set_member "total coulomb charged" (num src.total_coulomb_charged) dst))

  -- `doc = stats`: the converter fills the cleared document, whose pool has 256 bytes.
  unfoldable pub stats_document : BatStats F → Json F
  unfolding convert_to_json fit copied_key
  stats_document stats = fit copied_key 256 (convert_to_json stats null)

  abbrev pub or_else : F → Option F → F
  or_else d none = d
  or_else d (some x) = x

  unfoldable pub convert_from_json : Json F → BatStats F
  unfolding member as_float
  convert_from_json src = record {
    total_coulomb_charged = or_else nought (as_float (member "total coulomb charged" src));
    total_coulomb_discharged = or_else nought (as_float (member "total coulomb discharged" src));
    remaining_charge = or_else nought (as_float (member "remaining charge" src));
  }

  -- The constructor's statistics, from the file's document.
  unfoldable pub stats_of_file : Option (Json F) → BatStats F
  unfolding convert_from_json
  stats_of_file none = no_stats
  stats_of_file (some doc) = convert_from_json doc

  unfoldable pub modify : ℕ → NonVolatile F → NonVolatile F
  modify sys_time m = record m { dirty = true; last_mod = sys_time }

  unfoldable pub set_remaining_charge : ℕ → F → NonVolatile F → NonVolatile F
  unfolding modify
  set_remaining_charge sys_time remaining_charge m =
      if f.eq remaining_charge m.stats.remaining_charge then m else record (modify sys_time m) {
        stats = record m.stats { remaining_charge = remaining_charge };
      }

  unfoldable pub get_time_since_last_modification : ℕ → NonVolatile F → ℕ
  get_time_since_last_modification sys_time m =
      if m.last_mod == 0 then 0 else sub32 sys_time m.last_mod

module _ {F D : Type 0} ⦃f : Float F⦄ (fs : FileSystem F D) where
  -- The constructor; what is not set is zero.
  unfoldable pub non_volatile : D → NonVolatile F × D
  unfolding stats_of_file
  non_volatile d =
      let stats = stats_of_file (fs.parse (fs.begin d)) in
      (record { dirty = false; last_mod = 0; stats = stats; saved_stats = stats }, fs.begin d)

  -- `save`; `show_time` is the clock where the message is put on the display. The document that is
  -- read back from the truncated file is overwritten as a whole.
  unfoldable pub save :
      ℕ → BatStats F → NonVolatile F → D → Display F → Bool × NonVolatile F × D × Display F
  unfolding draw suppress_content_temporary
  save show_time stats m d display =
      let (sought, d1) = fs.seek_start (fs.truncate d) in
      let (bytes_written, d2) = fs.write (stats_document stats) d1 in
      let success = sought && ltb 0 bytes_written in
      let m1 = record m {
        dirty = false;
        last_mod = 0;
        saved_stats = if success then stats else m.saved_stats;
      } in
      let cleared = draw (set_cursor (pos 0) (pos 0)) (draw clear_display display) in
      let message = if sought then "Battery stats\nstored." else "Battery stats\nFAILED!" in
      let display1 =
        suppress_content_temporary show_time 3000 (draw (print (plain message)) cleared) in
      if m.dirty
      then (success, m1, fs.close (if sought then d2 else d1), display1)
      else (false, m, d, display)

  unfoldable pub loop : ℕ → ℕ → NonVolatile F → D → Display F → NonVolatile F × D × Display F
  unfolding save get_time_since_last_modification
  loop sys_time show_time m d display =
      let difference = f.fabsf (f.sub m.saved_stats.remaining_charge m.stats.remaining_charge) in
      let (_, m1, d1, display1) = save show_time m.stats m d display in
      if ltb 60000 (get_time_since_last_modification sys_time m)
        || f.lt (f.mul (f.lit (pos 1) 1) (whole 3600)) difference
      then (m1, d1, display1)
      else (m, d, display)
