-- ===== src/Float64.antt =====
-- Go's `float64`, which the programs compute with and which has no counterpart here: a type with the
-- operations that the code calls, and the facts of IEEE 754 arithmetic that the proofs rely on.
use kvflow.Prelude.{ℕ, suc, ◌+◌, ◌*◌, ◌/◌, ◌%◌, ◌≤◌, ◌≡◌, Bool, true, false, not, ◌&&◌}
use kvflow.Int.{ℤ, pos, negsuc, sub_ℕ, ◌≤ℤ◌}

pub record Float64 (F : Type 0) : Type 0 where
  -- float64(n) of an integer, and time.Duration(x) or int64(x) of a float.
  pub of_int : ℤ → F
  pub to_int : F → ℤ
  -- The float64 nearest to 0.1.
  pub tenth : F
  pub add : F → F → F
  pub sub : F → F → F
  pub mul : F → F → F
  pub div : F → F → F
  -- The built-in min of two floats.
  pub min : F → F → F
  -- math.Sqrt, math.Abs
  pub sqrt : F → F
  pub abs : F → F
  pub lt : F → F → Bool
  pub le : F → F → Bool
  -- math.IsInf(x, 0) and math.IsNaN(x)
  pub is_inf : F → Bool
  pub is_nan : F → Bool

-- The integers d / n and d % n, toward 0.
abbrev pub quotient : ℤ → ℕ → ℤ
quotient (pos d) n = pos (d / n)
quotient (negsuc d) n = sub_ℕ 0 (suc d / n)

abbrev pub remainder : ℤ → ℕ → ℤ
remainder (pos d) n = pos (d % n)
remainder (negsuc d) n = sub_ℕ 0 (suc d % n)

-- time.Second
abbrev pub nanoseconds_per_second : ℕ
nanoseconds_per_second = 1_000_000_000

module _ {F : Type 0} ⦃fl : Float64 F⦄ where
  infixl 65 ◌⊕◌ ◌⊖◌
  infixl 70 ◌⊗◌ ◌⊘◌
  infix 50 ◌≺◌ ◌≼◌
  abbrev pub ◌⊕◌ : F → F → F
  x ⊕ y = fl.add x y

  abbrev pub ◌⊖◌ : F → F → F
  x ⊖ y = fl.sub x y

  abbrev pub ◌⊗◌ : F → F → F
  x ⊗ y = fl.mul x y

  abbrev pub ◌⊘◌ : F → F → F
  x ⊘ y = fl.div x y

  abbrev pub ◌≺◌ : F → F → Type 0
  x ≺ y = fl.lt x y ≡ true

  abbrev pub ◌≼◌ : F → F → Type 0
  x ≼ y = fl.le x y ≡ true

  abbrev pub nought : F
  nought = fl.of_int (pos 0)

  abbrev pub one : F
  one = fl.of_int (pos 1)

  -- float64(time.Second)
  abbrev pub second : F
  second = fl.of_int (pos nanoseconds_per_second)

  -- d.Seconds(): the whole seconds and the rest, each converted by itself.
  abbrev pub seconds : ℤ → F
  seconds d =
      fl.of_int (quotient d nanoseconds_per_second)
      ⊕ fl.of_int (remainder d nanoseconds_per_second) ⊘ second

  abbrev pub is_number : F → Bool
  is_number x = not (fl.is_nan x)

  abbrev pub is_finite : F → Bool
  is_finite x = not (fl.is_nan x) && not (fl.is_inf x)

-- 2 ^ 53, up to which every integer is a float64. As a duration it is 104 days.
abbrev pub max_exact : ℕ
max_exact = 9_007_199_254_740_992

-- What holds of every float64. Rounding is monotone, so the operations are; a conversion to an integer is monotone where both results fit.
pub record IsIeee (F : Type 0) ⦃fl : Float64 F⦄ : Type 0 where
  pub numbers_of_le : (x y : F) → x ≼ y → (fl.is_nan x ≡ false) × (fl.is_nan y ≡ false)
  pub le_refl : (x : F) → fl.is_nan x ≡ false → x ≼ x
  pub le_trans : (x y z : F) → x ≼ y → y ≼ z → x ≼ z
  pub lt-eq-not-le :
      (x y : F) → fl.is_nan x ≡ false → fl.is_nan y ≡ false → fl.lt x y ≡ not (fl.le y x)
  pub le_of_lt : (x y : F) → x ≺ y → x ≼ y
  pub numbers_of_lt : (x y : F) → x ≺ y → (fl.is_nan x ≡ false) × (fl.is_nan y ≡ false)
  pub of_int_finite : (n : ℤ) → is_finite (fl.of_int n) ≡ true
  pub of_int_mono : (m n : ℤ) → m ≤ℤ n → fl.of_int m ≼ fl.of_int n
  pub of_int_pos : (n : ℕ) → nought ≺ fl.of_int (pos (suc n))
  pub le-add_right : (x y : F) → nought ≼ x → nought ≼ y → x ≼ x ⊕ y
  pub add_nonneg : (x y : F) → nought ≼ x → nought ≼ y → nought ≼ x ⊕ y
  pub mul_nonneg : (x c : F) → nought ≼ x → nought ≺ c → fl.is_inf c ≡ false → nought ≼ x ⊗ c
  pub div_nonneg : (x c : F) → nought ≼ x → nought ≺ c → fl.is_inf c ≡ false → nought ≼ x ⊘ c
  pub mul_mono : (x y c : F) → x ≼ y → nought ≺ c → fl.is_inf c ≡ false → x ⊗ c ≼ y ⊗ c
  pub div_antitone :
      (x c d : F) → nought ≼ x → nought ≺ c → c ≼ d → fl.is_inf d ≡ false → x ⊘ d ≼ x ⊘ c
  -- Exact cases: operations with 0 and 1, and differences of equal or ordered numbers.
  pub tenth_pos : nought ≺ fl.tenth
  pub sub_self : (x : F) → is_finite x ≡ true → x ⊖ x ≡ nought
  pub sub_zero : (x : F) → fl.is_nan x ≡ false → x ⊖ nought ≡ x
  pub zero_add : (x : F) → nought ≺ x → nought ⊕ x ≡ x
  pub zero_add_zero : ◌≡◌ {A = F} (nought ⊕ nought) nought
  pub zero_mul : (x : F) → nought ≺ x → is_finite x ≡ true → nought ⊗ x ≡ nought
  pub mul_zero : (x : F) → nought ≺ x → is_finite x ≡ true → x ⊗ nought ≡ nought
  -- The decay 1 - a of an alpha in (0, 1] is finite and not negative.
  pub decay_mul_zero : (a : F) → nought ≺ a → a ≼ one → (one ⊖ a) ⊗ nought ≡ nought
  pub one_mul : (x : F) → fl.is_nan x ≡ false → one ⊗ x ≡ x
  pub div_one : (x : F) → fl.is_nan x ≡ false → x ⊘ one ≡ x
  pub zero_div : (x : F) → nought ≺ x → is_finite x ≡ true → nought ⊘ x ≡ nought
  pub sqrt_zero : fl.sqrt nought ≡ nought
  -- Integers up to 2 ^ 53 are exact, and the conversion truncates, so it is monotone where it fits.
  pub to_int-of_int : (n : ℕ) → n ≤ max_exact → fl.to_int (fl.of_int (pos n)) ≡ pos n
  pub to_int_mono :
      (x y : F) → nought ≼ x → x ≼ y → y ≼ fl.of_int (pos max_exact) → fl.to_int x ≤ℤ fl.to_int y

-- What holds of every operation of two integers whose result is an integer of up to 2 ^ 53: it is exact.
pub record IsExact (F : Type 0) ⦃fl : Float64 F⦄ : Type 0 where
  pub add_exact :
      (m n : ℕ)
      → m + n ≤ max_exact
      → fl.of_int (pos m) ⊕ fl.of_int (pos n) ≡ fl.of_int (pos (m + n))
  pub mul_exact :
      (m n : ℕ)
      → m * n ≤ max_exact
      → fl.of_int (pos m) ⊗ fl.of_int (pos n) ≡ fl.of_int (pos (m * n))
  pub div_exact :
      (m n : ℕ)
      → m * suc n ≤ max_exact
      → fl.of_int (pos (m * suc n)) ⊘ fl.of_int (pos (suc n)) ≡ fl.of_int (pos m)
