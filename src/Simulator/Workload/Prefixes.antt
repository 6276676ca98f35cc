-- ===== src/Simulator/Workload/Prefixes.antt =====
-- The prefix sizes of `MixedPrefixes`.
use kvflow.Simulator.{Scenario, ℤ}
use kvflow.Simulator.Workload.{with_prefix, stable, draw_prefixes, mixed_prefixes}
use kvflow.Prelude.{
  [], ◌∷◌, zero, suc, some, refl, List, ℕ, ◌<◌, get_elem?, get_elem?-lt, length, ◌≡◌, arith, All,
  err, ap, no_prefix_sizes, ok,
}

-- The scenario with one of the sizes as its prefix.
abbrev pub HasSize : {F : Type 0} → List ℤ → Scenario F → Scenario F → Type 0
HasSize sizes scenario s =
    (i : ℕ) × (tokens : ℤ) × (get_elem? sizes i ≡ some tokens) × (s ≡ with_prefix scenario tokens)

module _ {F R : Type 0} (int_n : R → ℕ → ℕ × R)
    (below : (rng : R) (k : ℕ) → 0 < k → (int_n rng k).0 < k) where
  draw_prefixes_lem :
      (rng : R) (n : ℕ) (scenario : Scenario F) (sizes : List ℤ)
      → 0 < length sizes
      → (truths : List (Scenario F)) × (draw_prefixes int_n rng sizes (stable n scenario)
          ≡ some truths)
        × (length truths ≡ n)
        × All (HasSize sizes scenario) truths
  unfolding draw_prefixes
  draw_prefixes_lem rng zero scenario sizes h = ([], refl, refl, tt)
  draw_prefixes_lem rng (suc n) scenario sizes h =
      let i = (int_n rng (length sizes)).0 in
      let (tokens, e) = get_elem?-lt sizes i (below rng (length sizes) h) in
      let (rest, er, len, all) =
        draw_prefixes_lem (int_n rng (length sizes)).1 n scenario sizes h in
      (
        with_prefix scenario tokens ∷ rest,
        rw (e, er, draw_prefixes),
        ap suc len,
        ((i, tokens, e, refl), all),
      )

  -- With a generator whose draws are below their bound, `MixedPrefixes` is an error for no sizes,
  -- and otherwise returns the requested number of scenarios without an index out of range:
  -- each is the given one with one of the sizes as its prefix.
  pub mixed_prefixes_lem :
      (rng : R) (n : ℕ) (scenario : Scenario F) (sizes : List ℤ)
      → ((sizes ≡ []) → mixed_prefixes int_n rng n scenario sizes ≡ err no_prefix_sizes)
        × (0 < length sizes
            → (truths : List (Scenario F)) × (mixed_prefixes int_n rng n scenario sizes
                ≡ ok (some truths))
              × (length truths ≡ n)
              × All (HasSize sizes scenario) truths)
  unfolding mixed_prefixes
  mixed_prefixes_lem rng n scenario [] = (λ e. refl, λ h. absurd (omega arith))
  mixed_prefixes_lem rng n scenario (p ∷ ps) = (
    λ e. ground arith,
    λ h.
        let (truths, e, len, all) = draw_prefixes_lem rng n scenario (p ∷ ps) h in
        (truths, ap ok e, len, all),
  )
