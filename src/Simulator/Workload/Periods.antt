-- ===== src/Simulator/Workload/Periods.antt =====
-- The assignments of a loop of workload.go, and the periods of `Flapping`.
use kvflow.Int.{add64, wrap64, wrap64_exact, ◌+ℤ◌, ltb_ℤ, pos}
use kvflow.Simulator.Workload.{assign, assign_range, period_end}
use mathlib.Core.List.{append_assoc}
use kvflow.Prelude.{
  [], ◌∷◌, zero, suc, refl, inl, inr, true, false, List, length, ◌++◌, ◌≡◌, ℕ, ap, replicate, ◌+◌,
  length-append, arith, sym, ◌∙◌, Bool, ◌<◌, ◌≤◌, if◌then◌else◌, not, ◌⊎◌, ltb, ◌-◌, ◌^◌,
  Bool-cases,
}

assign-append :
    {A : Type 0} (front : List A) (x y : A) (rest : List A)
    → assign (length front) x (front ++ (y ∷ rest)) ≡ front ++ (x ∷ rest)
unfolding assign
assign-append [] x y rest = refl
assign-append (z ∷ front) x y rest = ap (λ l. z ∷ l) (assign-append front x y rest)

-- Assigning the first elements after `front` replaces them.
pub assign_range-append :
    {A : Type 0} (c m : ℕ) (front : List A) (x y : A)
    → assign_range c (length front) x (front ++ replicate (c + m) y)
      ≡ front ++ (replicate c x ++ replicate m y)
unfolding assign_range
assign_range-append zero m front x y =
    let same : 0 + m ≡ m = omega arith in ap (λ k. front ++ replicate k y) same
assign_range-append (suc c) m front x y =
    let shift : suc c + m ≡ suc (c + m) = omega arith in
    let len = length front in
    let rest = replicate (c + m) y in
    let next : len + 1 ≡ length (front ++ (x ∷ [])) = sym (length-append front (x ∷ [])) in
    ap (λ k. assign_range c (len + 1) x (assign len x (front ++ replicate k y))) shift
    ∙ ap (assign_range c (len + 1) x)
        (assign-append front x y rest ∙ sym (append_assoc front (x ∷ []) rest))
    ∙ ap (λ k. assign_range c k x ((front ++ (x ∷ [])) ++ rest)) next
    ∙ assign_range-append c m (front ++ (x ∷ [])) x y
    ∙ append_assoc front (x ∷ []) (replicate c x ++ replicate m y)

-- Phases of `lo` to `hi` scenarios, the last of which may be cut short, that alternate; the first is slow or not.
pub data Phases {A : Type 0} (lo hi : ℕ) (fast slow : A) : Bool → List A → Type 0 where
  ended : (b : Bool) → Phases lo hi fast slow b []
  cut :
      (b : Bool) (k : ℕ)
      → 0 < k
      → k ≤ hi
      → Phases lo hi fast slow b (replicate k (if b then slow else fast))
  phase :
      (b : Bool) (k : ℕ) (rest : List A)
      → lo ≤ k
      → k ≤ hi
      → Phases lo hi fast slow (not b) rest
      → Phases lo hi fast slow b (replicate k (if b then slow else fast) ++ rest)

-- Below 2 ^ 63 the sum does not wrap around.
add64-pos : (a b : ℕ) → a + b < 2 ^ 63 → add64 (pos a) (pos b) ≡ pos (a + b)
unfolding ◌+ℤ◌
add64-pos a b small =
    let sum : pos a +ℤ pos b ≡ pos (a + b) = ground arith in
    ap wrap64 sum ∙ wrap64_exact (pos (a + b)) (record { above = omega arith; below = small })

-- The period that starts at `start`, and what is left after it.
pub period_bounds :
    (lo hi n start k : ℕ)
    → 0 < lo
    → lo ≤ hi
    → k < hi - lo + 1
    → start < n
    → n + hi < 2 ^ 63
    → (c : ℕ) × (left : ℕ) × (period_end n (pos start) (lo + k) ≡ pos (start + c))
      × (0 < c)
      × (c ≤ hi)
      × (start + c + left ≡ n)
      × ((lo ≤ c) ⊎ (left ≡ 0))
period_bounds lo hi n start k p q small more fits =
    let sum = add64-pos start (lo + k) (omega arith) in
    elim (Bool-cases (ltb (start + (lo + k)) n)) [
      | inl short ↦ (
        lo + k,
        n - (start + lo + k),
        (let test : ltb_ℤ (pos (start + (lo + k))) (pos n) ≡ true = ground arith in
            rw (sum, test) refl),
        omega arith,
        omega arith,
        ground arith,
        inl (omega arith),
      )
      | inr over ↦ (
        n - start,
        0,
        (let test : ltb_ℤ (pos (start + (lo + k))) (pos n) ≡ false = ground arith in
            let whole : n ≡ start + (n - start) = omega arith in rw (sum, test) (ap pos whole)),
        omega arith,
        ground arith,
        omega arith,
        inr refl,
      )
    ]
