-- ===== src/Whole.antt =====
-- The integers as a concrete `Float64`, with division that drops the fraction: they meet the facts that
-- the proofs use, so the tests can run on them.
use native.Mathlib.Nat.{
  mul-le-mul_left, mul-le-mul_right, div-mul-le_self, le-div_iff_mul-le, zero-div, le_trans,
  mul-div_cancel,
}
use kvflow.Prelude.{ℕ, suc, ◌/◌, ◌≡◌, Bool, true, false, not, arith, refl, ◌<◌, ◌≤◌, if◌then◌else◌}
use kvflow.Int.{ℤ, pos, negsuc, ltb_ℤ, pos_part, neg_part, sub_ℕ, ◌+ℤ◌, ◌-ℤ◌, ◌*ℤ◌}
use kvflow.Float64.{Float64, IsIeee, IsExact}

abbrev div_whole : ℤ → ℤ → ℤ
div_whole a (pos d) = sub_ℕ (pos_part a / d) (neg_part a / d)
div_whole a (negsuc d) = sub_ℕ (neg_part a / suc d) (pos_part a / suc d)

abbrev pub le_ℤ : ℤ → ℤ → Bool
le_ℤ a b = not (ltb_ℤ b a)

instance abbrev pub whole : Float64 ℤ
whole = record {
  of_int = λ n. n;
  to_int = λ x. x;
  tenth = pos 1;
  add = ◌+ℤ◌;
  sub = ◌-ℤ◌;
  mul = ◌*ℤ◌;
  div = div_whole;
  min = λ x y. if ltb_ℤ y x then y else x;
  sqrt = λ x. x;
  abs = λ x. pos (pos_part x);
  lt = ltb_ℤ;
  le = le_ℤ;
  is_inf = λ x. false;
  is_nan = λ x. false;
}

mul_whole_nonneg :
    (x c : ℤ) → le_ℤ (pos 0) x ≡ true → ltb_ℤ (pos 0) c ≡ true → le_ℤ (pos 0) (x *ℤ c) ≡ true
unfolding ◌*ℤ◌
mul_whole_nonneg (pos a) (pos b) h k = ground arith
mul_whole_nonneg (pos a) (negsuc b) h k = ground arith
mul_whole_nonneg (negsuc a) c h k = ground arith

div_whole_nonneg :
    (x c : ℤ) → le_ℤ (pos 0) x ≡ true → ltb_ℤ (pos 0) c ≡ true → le_ℤ (pos 0) (div_whole x c) ≡ true
div_whole_nonneg (pos a) (pos b) h k = ground (arith, zero-div b)
div_whole_nonneg (pos a) (negsuc b) h k = ground arith
div_whole_nonneg (negsuc a) c h k = ground arith

mul_whole_mono :
    (x y c : ℤ) → le_ℤ x y ≡ true → ltb_ℤ (pos 0) c ≡ true → le_ℤ (x *ℤ c) (y *ℤ c) ≡ true
unfolding ◌*ℤ◌
mul_whole_mono x y (negsuc c) h k = ground arith
mul_whole_mono (pos a) (pos b) (pos c) h k = ground (arith, mul-le-mul_right {m = a} {n = b} c)
mul_whole_mono (pos a) (negsuc b) (pos c) h k = ground arith
mul_whole_mono (negsuc a) (pos b) (pos c) h k = ground arith
mul_whole_mono (negsuc a) (negsuc b) (pos c) h k =
    ground (arith, mul-le-mul_right {m = suc b} {n = suc a} c)

div-antitone : (a c d : ℕ) → 0 < c → c ≤ d → a / d ≤ a / c
div-antitone a c d h k =
    (le-div_iff_mul-le h).1
      (le_trans (mul-le-mul_left {m = c} {n = d} (a / d) k) (div-mul-le_self a d))

div_whole_antitone :
    (x c d : ℤ)
    → le_ℤ (pos 0) x ≡ true
    → ltb_ℤ (pos 0) c ≡ true
    → le_ℤ c d ≡ true
    → le_ℤ (div_whole x d) (div_whole x c) ≡ true
div_whole_antitone (negsuc a) c d h k l = ground arith
div_whole_antitone (pos a) (negsuc c) d h k l = ground arith
div_whole_antitone (pos a) (pos c) (negsuc d) h k l = ground arith
div_whole_antitone (pos a) (pos c) (pos d) h k l =
    ground (arith, zero-div c, zero-div d, div-antitone a c d)

pub whole-IsIeee : IsIeee ℤ
unfolding ◌+ℤ◌ ◌-ℤ◌ ◌*ℤ◌
whole-IsIeee = record {
  numbers_of_le = λ x y h. (refl, refl);
  le_refl = λ x h. ground arith;
  le_trans = λ x y z h k. ground arith;
  lt-eq-not-le = λ x y h k. ground arith;
  le_of_lt = λ x y h. ground arith;
  numbers_of_lt = λ x y h. (refl, refl);
  of_int_finite = λ n. refl;
  of_int_mono = λ m n h. ground arith;
  of_int_pos = λ n. ground arith;
  le-add_right = λ x y h k. ground arith;
  add_nonneg = λ x y h k. ground arith;
  mul_nonneg = λ x c h k f. mul_whole_nonneg x c h k;
  div_nonneg = λ x c h k f. div_whole_nonneg x c h k;
  mul_mono = λ x y c h k f. mul_whole_mono x y c h k;
  div_antitone = λ x c d h k l f. div_whole_antitone x c d h k l;
  tenth_pos = refl;
  sub_self = λ x h. ground arith;
  sub_zero = λ x h. ground arith;
  zero_add = λ x h. ground arith;
  zero_add_zero = refl;
  zero_mul = λ x h f. ground arith;
  mul_zero = λ x h f. ground arith;
  decay_mul_zero = λ a h k. ground arith;
  one_mul = λ x h. ground arith;
  div_one = λ x h. ground arith;
  zero_div = λ x h f. ground arith;
  sqrt_zero = refl;
  to_int-of_int = λ n h. refl;
  to_int_mono = λ x y h k l. ground arith;
}

pub whole-IsExact : IsExact ℤ
unfolding ◌+ℤ◌ ◌*ℤ◌
whole-IsExact = record {
  add_exact = λ m n h. ground arith;
  mul_exact = λ m n h. ground arith;
  div_exact = λ m n h. ground (arith, mul-div_cancel m {n = suc n}, zero-div (suc n));
}
