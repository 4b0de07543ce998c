-- ===== src/Float/Signed.antt =====
-- A value of the float interface with negative numbers: thousandths. Tests run on it.
use astro_photo_power_box.Prelude.{
  ℕ, ◌+◌, ◌*◌, ◌/◌, ◌^◌, not, ℤ, pos, pos_part, neg_part, sub_ℕ, ltb_ℤ, max_ℤ, min_ℤ, ◌||◌,
}
use astro_photo_power_box.Float.{Float}

abbrev pub Signed : Type 0
Signed = ℤ

abbrev plus : ℤ → ℤ → ℤ
plus a b = sub_ℕ (pos_part a + pos_part b) (neg_part a + neg_part b)

abbrev minus : ℤ → ℤ → ℤ
minus a b = sub_ℕ (pos_part a + neg_part b) (neg_part a + pos_part b)

abbrev times : ℤ → ℤ → ℤ
times a b =
    sub_ℕ (pos_part a * pos_part b + neg_part a * neg_part b)
      (pos_part a * neg_part b + neg_part a * pos_part b)

-- The quotient, cut off.
abbrev cut : ℤ → ℕ → ℤ
cut a d = sub_ℕ (pos_part a / d) (neg_part a / d)

instance abbrev pub signed_float : Float Signed
signed_float = record {
  lit = λ m e. cut (times m (pos 1000)) (10 ^ e);
  add = plus;
  sub = minus;
  mul = λ x y. cut (times x y) 1000;
  div = λ x y. let n = times x (pos 1000) in minus (cut n (pos_part y)) (cut n (neg_part y));
  eq = λ x y. not (ltb_ℤ x y || ltb_ℤ y x);
  lt = ltb_ℤ;
  le = λ x y. not (ltb_ℤ y x);
  lt_double = λ x m e. ltb_ℤ x (cut (times m (pos 1000)) (10 ^ e));
  fminf = min_ℤ;
  fmaxf = max_ℤ;
  fabsf = λ x. pos (pos_part x + neg_part x);
  fmaf = λ x y z. plus (cut (times x y) 1000) z;
  of_int = λ n. times n (pos 1000);
  to_int = λ x. cut x 1000;
}
