-- ===== src/Float.antt =====
-- The `float` operations that the firmware uses, as an interface: the type of floats is a parameter
-- of every component. `IsOrdered` and `IsScaling` are the IEEE 754 facts that some theorems need.
-- NaN is a value that is not `<=` itself.
pub mod Milli
pub mod Signed
use astro_photo_power_box.Prelude.{ℕ, ◌<◌, ◌*◌, ◌≤◌, ◌≡◌, Bool, true, not, ℤ, pos, ◌≤ℤ◌, arith}

pub record Float (F : Type 0) : Type 0 where
  -- the float nearest to the decimal m * 10 ^ -e
  pub lit : ℤ → ℕ → F
  pub add : F → F → F
  pub sub : F → F → F
  pub mul : F → F → F
  pub div : F → F → F
  pub eq : F → F → Bool
  pub lt : F → F → Bool
  pub le : F → F → Bool
  -- `x < d` for a `double` literal d = m * 10 ^ -e: the float is widened first
  pub lt_double : F → ℤ → ℕ → Bool
  pub fminf : F → F → F
  pub fmaxf : F → F → F
  pub fabsf : F → F
  pub fmaf : F → F → F → F
  -- `(float) n`, and `(int) x`, which truncates
  pub of_int : ℤ → F
  pub to_int : F → ℤ

module _ {F : Type 0} ⦃f : Float F⦄ where
  -- 0.0f
  abbrev pub nought : F
  nought = f.lit (pos 0) 0

  abbrev pub whole : ℕ → F
  whole n = f.lit (pos n) 0

infix 4 ◌≼◌
abbrev pub ◌≼◌ : {F : Type 0} ⦃f : Float F⦄ → F → F → Type 0
◌≼◌ ⦃f⦄ x y = f.le x y ≡ true

pub record IsOrdered (F : Type 0) ⦃f : Float F⦄ : Type 0 where
  pub lit_refl : (m : ℤ) (e : ℕ) → f.lit m e ≼ f.lit m e
  pub lit_mono : (m n : ℕ) → m ≤ n → whole {F = F} m ≼ whole n
  pub le_trans : (x y z : F) → x ≼ y → y ≼ z → x ≼ z
  -- two numbers are in one order or the other
  pub not_le : (x y : F) → x ≼ x → y ≼ y → f.le x y ≡ not (f.lt y x)
  pub lt_le : (x y : F) → f.lt x y ≡ true → x ≼ y
  -- if only one operand is a number, fminf and fmaxf return it
  pub fminf-le : (x y : F) → x ≼ x → f.fminf x y ≼ x
  pub le-fminf : (x y z : F) → x ≼ y → x ≼ z → x ≼ f.fminf y z
  pub le-fmaxf : (x y : F) → x ≼ x → x ≼ f.fmaxf x y
  pub fmaxf-le : (x y z : F) → x ≼ z → y ≼ z → f.fmaxf x y ≼ z

-- Rounding keeps the order: products with a positive whole number that a float holds exactly, against
-- each other, also at the infinities, and against whole numbers. `to_int` cuts off, where the integer
-- that it makes holds the result.
pub record IsScaling (F : Type 0) ⦃f : Float F⦄ : Type 0 where
  pub mul_mono :
      (x y : F) (n : ℕ) → 0 < n → n ≤ 1000000 → x ≼ y → f.mul x (whole n) ≼ f.mul y (whole n)
  pub mul_le :
      (m n k : ℕ) → m ≤ 1000000 → n ≤ 1000000 → m * n ≤ k → f.mul (whole m) (whole n) ≼ whole k
  pub le_mul :
      (m n k : ℕ) → m ≤ 1000000 → n ≤ 1000000 → k ≤ m * n → whole k ≼ f.mul (whole m) (whole n)
  pub to_int_mono :
      (x y : F) → nought ≼ x → x ≼ y → y ≼ whole 200000000000 → f.to_int x ≤ℤ f.to_int y
  pub to_int_whole : (n : ℕ) → n ≤ 10000 → f.to_int (whole n) ≡ pos n

-- `fminf(100.0f, fmaxf(0.0f, x))`
module _ {F : Type 0} ⦃f : Float F⦄ where
  abbrev pub clamp_percent : F → F
  clamp_percent x = f.fminf (whole 100) (f.fmaxf nought x)

  abbrev pub IsPercent : F → Type 0
  IsPercent x = (nought ≼ x) × (x ≼ whole 100)

  pub clamp_percent-IsPercent : IsOrdered F → (x : F) → IsPercent (clamp_percent x)
  clamp_percent-IsPercent o x = (
    o.le-fminf nought (whole 100) (f.fmaxf nought x) (o.lit_mono 0 100 (omega arith))
        (o.le-fmaxf nought x (o.lit_refl (pos 0) 0)),
    o.fminf-le (whole 100) (f.fmaxf nought x) (o.lit_refl (pos 100) 0),
  )
