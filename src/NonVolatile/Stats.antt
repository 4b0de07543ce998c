-- ===== src/NonVolatile/Stats.antt =====
-- The statistics on the file: what is read back of those that were written.
use Prim.Native.String.{String}
use astro_photo_power_box.Prelude.{
  ℕ, ◌≡◌, ◌∙◌, ap, refl, Bool, true, false, some, none, if◌then◌else◌,
}
use astro_photo_power_box.Float.{Float, nought}
use astro_photo_power_box.Json.{Json, member, as_float}
use astro_photo_power_box.Json.Text.{IsText, is_plain}
use astro_photo_power_box.NonVolatile.{
  BatStats, FileSystem, or_else, stats_document, convert_from_json, non_volatile,
}

module _ {F : Type 0} ⦃f : Float F⦄ where
  -- A float that went through the file: one that is not finite comes back as zero.
  unfoldable pub reread : (F → Bool) → (F → F) → F → F
  reread is_finite reads x = if is_finite x then reads x else nought

  unfoldable pub reread_stats : (F → Bool) → (F → F) → BatStats F → BatStats F
  unfolding reread
  reread_stats is_finite reads s = record {
    total_coulomb_charged = reread is_finite reads s.total_coulomb_charged;
    total_coulomb_discharged = reread is_finite reads s.total_coulomb_discharged;
    remaining_charge = reread is_finite reads s.remaining_charge;
  }

  or_else-reread :
      (finite : Bool) (x : F)
      → or_else nought (if finite then some x else none) ≡ (if finite then x else nought)
  or_else-reread true x = refl
  or_else-reread false x = refl

-- What is relied on of the file system: if the whole text of the statistics (`size` bytes) was written,
-- it is parsed when the box starts again. Its three members fit in the pool that they are read into.
pub record IsKeeping {F D : Type 0} ⦃f : Float F⦄ (size : Json F → ℕ) (wire : Json F → Json F)
    (fs : FileSystem F D) : Type 0 where
  pub kept :
      (stats : BatStats F) (d : D)
      → let (sought, d1) = fs.seek_start (fs.truncate d) in
        let (bytes_written, d2) = fs.write (stats_document stats) d1 in
        sought ≡ true
        → bytes_written ≡ size (stats_document stats)
        → fs.parse (fs.begin (fs.close d2)) ≡ some (wire (stats_document stats))

module _ {F : Type 0} ⦃f : Float F⦄ {is_finite : F → Bool} {reads : F → F} {wire : Json F → Json F}
    (text : IsText is_finite reads wire) (s : BatStats F) where
  stats_document-is_plain : is_plain 10 (stats_document s) ≡ true
  unfolding is_plain stats_document
  stats_document-is_plain = refl

  read_member :
      (k : String) (x : F)
      → as_float (wire (member k (stats_document s)))
        ≡ (if is_finite x then some (reads x) else none)
      → or_else nought (as_float (member k (wire (stats_document s)))) ≡ reread is_finite reads x
  unfolding reread
  read_member k x e =
      ap (or_else nought)
        (ap as_float (text.members k (stats_document s) stats_document-is_plain) ∙ e)
      ∙ or_else-reread (is_finite x) (reads x)

  -- The statistics that are read from the text of those that are written.
  pub convert_from_json-stats_document :
      convert_from_json (wire (stats_document s)) ≡ reread_stats is_finite reads s
  unfolding reread_stats convert_from_json stats_document member
  convert_from_json-stats_document =
      let charged =
        read_member "total coulomb charged" s.total_coulomb_charged
          (text.numbers s.total_coulomb_charged) in
      let discharged =
        read_member "total coulomb discharged" s.total_coulomb_discharged
          (text.numbers s.total_coulomb_discharged) in
      let remaining =
        read_member "remaining charge" s.remaining_charge (text.numbers s.remaining_charge) in
      λ i. record {
        total_coulomb_charged = charged i;
        total_coulomb_discharged = discharged i;
        remaining_charge = remaining i;
      }

  -- They are those of the next start.
  pub non_volatile-kept :
      {D : Type 0} (fs : FileSystem F D) (d : D)
      → fs.parse (fs.begin d) ≡ some (wire (stats_document s))
      → (non_volatile fs d).0.stats ≡ convert_from_json (wire (stats_document s))
  unfolding non_volatile
  non_volatile-kept fs d e = rw e refl
