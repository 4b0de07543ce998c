-- ===== src/Json.antt =====
-- JSON documents as ArduinoJson holds them (code that is not in the repository), and what the
-- converters of the sources use of them.
pub mod Pool
pub mod Text
use Prim.Native.String.{String}
use text.Mathlib.Text.{◌==◌ as str_eq}
use text.Mathlib.TextEquality.{eq_iff}
use astro_photo_power_box.Prelude.{◌≡◌, refl, Bool, Option, some, none, ℤ, arith, if◌then◌else◌}
use astro_photo_power_box.Float.{Float}

mutual
  pub data Json (F : Type 0) : Type 0 where
    null : Json F
    bool : Bool → Json F
    int : ℤ → Json F
    num : F → Json F
    str : String → Json F
    obj : Fields F → Json F

  pub data Fields (F : Type 0) : Type 0 where
    end : Fields F
    field : String → Json F → Fields F → Fields F

module _ {F : Type 0} where
  unfoldable pub put : String → Json F → Fields F → Fields F
  put k v end = field k v end
  put k v (field j u m) = if str_eq j k then field j v m else field j u (put k v m)

  unfoldable pub look_up : String → Fields F → Json F
  look_up k end = null
  look_up k (field j u m) = if str_eq j k then u else look_up k m

  -- `dst[key] = v`: null becomes an object, and anything else that is no object ignores it.
  unfoldable pub set_member : String → Json F → Json F → Json F
  unfolding put
  set_member k v null = obj (field k v end)
  set_member k v (obj m) = obj (put k v m)
  set_member k v other = other

  -- `src[key]`
  unfoldable pub member : String → Json F → Json F
  unfolding look_up
  member k (obj m) = look_up k m
  member k other = null

-- `is<float>()` holds of every number; `as<float>()` is its value.
unfoldable pub as_float : {F : Type 0} ⦃f : Float F⦄ → Json F → Option F
as_float ⦃f⦄ (num x) = some x
as_float ⦃f⦄ (int n) = some (f.of_int n)
as_float other = none
