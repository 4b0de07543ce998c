-- ===== src/Float/Milli.antt =====
-- A value of the float interface in which its laws hold: thousandths that are not negative. The
-- tests run on it.
use native.Mathlib.Nat.{mul-le-mul, le_refl}
use astro_photo_power_box.Prelude.{
  ℕ, ◌+◌, ◌-◌, ◌*◌, ◌/◌, ◌^◌, ◌≡◌, Bool, pos, pos_part, arith, leb, ltb, ◌==◌, if◌then◌else◌,
}
use astro_photo_power_box.Float.{Float, IsOrdered, IsScaling}

abbrev pub Milli : Type 0
Milli = ℕ

instance abbrev pub milli_float : Float Milli
milli_float = record {
  lit = λ m e. pos_part m * 1000 / 10 ^ e;
  add = λ x y. x + y;
  sub = λ x y. x - y;
  mul = λ x y. x * y / 1000;
  div = λ x y. x * 1000 / y;
  eq = λ x y. x == y;
  lt = ltb;
  le = leb;
  lt_double = λ x m e. ltb x (pos_part m * 1000 / 10 ^ e);
  fminf = λ x y. if leb x y then x else y;
  fmaxf = λ x y. if leb x y then y else x;
  fabsf = λ x. x;
  fmaf = λ x y z. x * y / 1000 + z;
  of_int = λ n. pos_part n * 1000;
  to_int = λ x. pos (x / 1000);
}

pub Milli-IsOrdered : IsOrdered Milli
Milli-IsOrdered = record {
  lit_refl = λ m e. ground arith;
  lit_mono = λ m n h. ground arith;
  le_trans = λ x y z h k. ground arith;
  not_le = λ x y h k. ground arith;
  lt_le = λ x y h. ground arith;
  fminf-le = λ x y h. ground arith;
  le-fminf = λ x y z h k. ground arith;
  le-fmaxf = λ x y h. ground arith;
  fmaxf-le = λ x y z h k. ground arith;
}

leb-mul : (x y k : ℕ) → leb x y ≡ Bool.true → leb (x * k / 1000) (y * k / 1000) ≡ Bool.true
leb-mul x y k h =
    ground (arith, mul-le-mul {n₁ = x} {m₁ = k} {n₂ = y} {m₂ = k} (ground arith) (le_refl k))

regroup : (m n : ℕ) → m * 1000 * (n * 1000) ≡ m * n * 1000 * 1000
regroup m n = grind arith

-- The product of whole numbers is exact.
mul-whole : (m n : ℕ) → m * 1000 / 10 ^ 0 * (n * 1000 / 10 ^ 0) / 1000 ≡ m * n * 1000
mul-whole m n =
    let same : m * 1000 / 10 ^ 0 * (n * 1000 / 10 ^ 0) ≡ m * n * 1000 * 1000 =
      rw (one m, one n) (regroup m n) in
    rw same (omega arith)
  where
    one : (k : ℕ) → k * 1000 / 10 ^ 0 ≡ k * 1000
    one k = omega arith

pub Milli-IsScaling : IsScaling Milli
Milli-IsScaling = record {
  mul_mono = λ x y n h k l. leb-mul x y (n * 1000 / 10 ^ 0) l;
  mul_le = λ m n k h l e. ground (arith, mul-whole m n);
  le_mul = λ m n k h l e. ground (arith, mul-whole m n);
  to_int_mono = λ x y h k l. ground arith;
  to_int_whole = λ n h. ground arith;
}
