-- ===== src/Simulator/Workload/Phases.antt =====
-- Which requests of `SlowdownThenRecovery` are slow.
use kvflow.Simulator.{Scenario}
use kvflow.Simulator.Workload.{assign, assign_range, stable, slowdown_then_recovery}
use kvflow.Prelude.{
  [], ◌∷◌, zero, suc, some, refl, ℕ, List, ◌<◌, length, ◌≡◌, get_elem?, ◌≢◌, ◌⊎◌, ◌≤◌, ap, arith,
  replicate, ◌+◌, ◌/◌, ◌∙◌, ℕ_trichotomy, inl, inr, ◌*◌, length-replicate,
}

length-assign {ℓ} : {A : Type ℓ} (i : ℕ) (x : A) (xs : List A) → length (assign i x xs) ≡ length xs
unfolding assign
length-assign i x [] = refl
length-assign zero x (y ∷ ys) = refl
length-assign (suc i) x (y ∷ ys) = ap suc (length-assign i x ys)

assign-same {ℓ} :
    {A : Type ℓ} (i : ℕ) (x : A) (xs : List A)
    → i < length xs
    → get_elem? (assign i x xs) i ≡ some x
unfolding assign
assign-same i x [] h = absurd (omega arith)
assign-same zero x (y ∷ ys) h = refl
assign-same (suc i) x (y ∷ ys) h = assign-same i x ys (omega arith)

assign-other {ℓ} :
    {A : Type ℓ} (i j : ℕ) (x : A) (xs : List A)
    → i ≢ j
    → get_elem? (assign i x xs) j ≡ get_elem? xs j
unfolding assign
assign-other i j x [] h = refl
assign-other zero zero x (y ∷ ys) h = absurd (h refl)
assign-other zero (suc j) x (y ∷ ys) h = refl
assign-other (suc i) zero x (y ∷ ys) h = refl
assign-other (suc i) (suc j) x (y ∷ ys) h = assign-other i j x ys (λ e. h (ap suc e))

length-assign_range {ℓ} :
    {A : Type ℓ} (n i : ℕ) (x : A) (xs : List A) → length (assign_range n i x xs) ≡ length xs
unfolding assign_range
length-assign_range zero i x xs = refl
length-assign_range (suc n) i x xs =
    length-assign_range n (i + 1) x (assign i x xs) ∙ length-assign i x xs

assign_range-outside {ℓ} :
    {A : Type ℓ} (n i j : ℕ) (x : A) (xs : List A)
    → (j < i) ⊎ (i + n ≤ j)
    → get_elem? (assign_range n i x xs) j ≡ get_elem? xs j
unfolding assign_range
assign_range-outside zero i j x xs h = refl
assign_range-outside (suc n) i j x xs h =
    assign_range-outside n (i + 1) j x (assign i x xs) (ground arith)
    ∙ assign-other i j x xs (λ e. ground arith)

assign_range-inside {ℓ} :
    {A : Type ℓ} (n i j : ℕ) (x : A) (xs : List A)
    → i ≤ j
    → j < i + n
    → i + n ≤ length xs
    → get_elem? (assign_range n i x xs) j ≡ some x
unfolding assign_range
assign_range-inside zero i j x xs h k l = absurd (omega arith)
assign_range-inside (suc n) i j x xs h k l = elim (ℕ_trichotomy i j) [
  | inl lt ↦
      assign_range-inside n (i + 1) j x (assign i x xs) (omega arith) (omega arith)
        (omega (arith, length-assign i x xs))
  | inr (inl e) ↦
      assign_range-outside n (i + 1) j x (assign i x xs) (inl (omega arith))
      ∙ rw e (assign-same j x xs (omega arith))
  | inr (inr gt) ↦ absurd (omega arith)
]

get_elem?-replicate {ℓ} :
    {A : Type ℓ} (n i : ℕ) (x : A) → i < n → get_elem? (replicate n x) i ≡ some x
get_elem?-replicate zero i x h = absurd (omega arith)
get_elem?-replicate (suc n) zero x h = refl
get_elem?-replicate (suc n) (suc i) x h = get_elem?-replicate n i x (omega arith)

-- The phases of `SlowdownThenRecovery` have the requested number of requests: the scenario is slow
-- from index `n / 3` up to but not including `2 * n / 3`, and fast before and after.
pub slowdown_then_recovery_lem :
    {F : Type 0} (n : ℕ) (fast slow : Scenario F)
    → let truths = slowdown_then_recovery n fast slow in
      (length truths ≡ n)
      × ((i : ℕ) → n / 3 ≤ i → i < 2 * n / 3 → get_elem? truths i ≡ some slow)
      × ((i : ℕ) → i < n → (i < n / 3) ⊎ (2 * n / 3 ≤ i) → get_elem? truths i ≡ some fast)
unfolding slowdown_then_recovery
slowdown_then_recovery_lem n fast slow =
    let len = length-replicate n fast in
    (
      length-assign_range _ _ slow (stable n fast) ∙ len,
      λ i h k. assign_range-inside _ _ i slow (stable n fast) h (omega arith) (omega (arith, len)),
      λ i h k.
          assign_range-outside _ _ i slow (stable n fast) (ground arith)
          ∙ get_elem?-replicate n i fast h,
    )
