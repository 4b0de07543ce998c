-- ===== src/Json/Text.antt =====
-- What is relied on of JSON text, which ArduinoJson writes and ArduinoJson or Qt reads (code that is not
-- in the repository).
use Prim.Native.Char.{code}
use Prim.Native.String.{String}
use text.Mathlib.Text.{◌==◌ as str_eq}
use astro_photo_power_box.Prelude.{
  ℕ, ◌-◌, ◌<◌, ◌≡◌, refl, Bool, true, false, not, ◌&&◌, ◌||◌, leb, ltb, none, some, pos,
  if◌then◌else◌,
}
use astro_photo_power_box.Float.{Float}
use astro_photo_power_box.Json.{Json, Fields, bool, int, num, obj, end, field, member, as_float}

-- A key of printable ASCII characters.
unfoldable pub is_printable : String → Bool
is_printable String.[] = true
is_printable (String.◌∷◌ c k) = leb 32 (code c) && ltb (code c) 127 && is_printable k

module _ {F : Type 0} where
  unfoldable pub has_key : String → Fields F → Bool
  has_key k end = false
  has_key k (field j v m) = str_eq j k || has_key k m

  unfoldable mutual
    unfolding is_printable has_key

    -- The keys of every object are printable and distinct, and objects are nested this deep at most.
    pub is_plain : ℕ → Json F → Bool
    is_plain depth (obj m) = ltb 0 depth && are_plain (depth - 1) m
    is_plain depth other = true

    pub are_plain : ℕ → Fields F → Bool
    are_plain depth end = true
    are_plain depth (field k v m) =
        is_printable k && not (has_key k m) && is_plain depth v && are_plain depth m

-- `wire` is the document that is read from the text of another one. A float that is not finite is
-- written as `null`; of the others the text has some digits, so that `reads x` is what comes back.
-- ArduinoJson reads ten levels of objects, Qt more.
pub record IsText {F : Type 0} ⦃f : Float F⦄ (is_finite : F → Bool) (reads : F → F)
    (wire : Json F → Json F) : Type 0 where
  pub members :
      (k : String) (j : Json F) → is_plain 10 j ≡ true → member k (wire j) ≡ wire (member k j)
  pub bools : (b : Bool) → wire (bool b) ≡ bool b
  pub ints : (n : ℕ) → n < 4294967296 → wire (int (pos n)) ≡ int (pos n)
  pub numbers : (x : F) → as_float (wire (num x)) ≡ (if is_finite x then some (reads x) else none)

-- A text that keeps every float, all of which are finite.
pub exact-IsText : {F : Type 0} ⦃f : Float F⦄ → IsText (λ (x : F). true) (λ x. x) (λ j. j)
unfolding as_float
exact-IsText = record {
  members = λ k j plain. refl;
  bools = λ b. refl;
  ints = λ n h. refl;
  numbers = λ x. refl;
}
