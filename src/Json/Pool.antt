-- ===== src/Json/Pool.antt =====
-- The memory of an ArduinoJson document (code that is not in the repository): a pool of a fixed number
-- of bytes, out of which every new member takes its slot. A member that gets none is left out.
use Prim.Native.String.{String}
use astro_photo_power_box.Prelude.{ℕ, ◌+◌, ◌-◌, suc, leb, if◌then◌else◌}
use astro_photo_power_box.Json.{Json, Fields, null, bool, int, num, str, obj, end, field}

-- A slot on the ESP8266; the key is a literal that stays where it is.
abbrev pub literal_key : String → ℕ
literal_key k = 16

unfoldable pub key_length : String → ℕ
key_length String.[] = 0
key_length (String.◌∷◌ c k) = suc (key_length k)

-- A slot whose key is copied with its final zero, as keys from the flash or from a text are.
unfoldable pub copied_key : String → ℕ
unfolding key_length
copied_key k = 16 + suc (key_length k)

module _ {F : Type 0} (cost : String → ℕ) where
  unfoldable mutual
    -- What a pool with this many bytes left holds of a document, in the order in which its members are
    -- added, and what is left of the pool.
    pub fit_value : ℕ → Json F → ℕ × Json F
    fit_value left (obj m) = let (left, m) = fit_fields left m in (left, obj m)
    fit_value left null = (left, null)
    fit_value left (bool b) = (left, bool b)
    fit_value left (int n) = (left, int n)
    fit_value left (num x) = (left, num x)
    fit_value left (str t) = (left, str t)

    pub fit_fields : ℕ → Fields F → ℕ × Fields F
    fit_fields left end = (left, end)
    fit_fields left (field k v m) =
        let fits = leb (cost k) left in
        let (left1, v1) = fit_value (left - cost k) v in
        let (left2, m2) = fit_fields (if fits then left1 else left) m in
        (left2, if fits then field k v1 m2 else m2)

  unfoldable pub fit : ℕ → Json F → Json F
  unfolding fit_value fit_fields
  fit pool j = (fit_value pool j).1
