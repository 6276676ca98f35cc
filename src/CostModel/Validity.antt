-- ===== src/CostModel/Validity.antt =====
-- Which inputs `Estimate` accepts, and the shape of what it returns.
use kvflow.Prelude.{
  ◌≡◌, ◌↔◌, false, true, List, [], ◌∷◌, ok, err, sym, ok-injective, arith, Bool-cases, inl, inr,
  invalid_inputs,
}
use kvflow.Int.{pos, ◌≤ℤ◌}
use kvflow.Float64.{Float64, ◌≺◌, nought}
use kvflow.Scheduler.{Candidate, wait, transfer, recompute}
use kvflow.CostModel.{Inputs, is_finite_positive, is_refused, plans, estimate, ℤ}

-- Candidates for the three plans, in tie-break order.
abbrev pub in_order : ℤ → ℤ → ℤ → List Candidate
in_order a b c =
    record { action = wait; estimated_ttft = a }
    ∷ record { action = transfer; estimated_ttft = b }
    ∷ record { action = recompute; estimated_ttft = c }
    ∷ []

module _ {F : Type 0} ⦃fl : Float64 F⦄ where
  -- A positive float that is neither infinite nor NaN.
  pub record IsFinitePositive (x : F) : Type 0 where
    pub positive : nought ≺ x
    pub not_inf : fl.is_inf x ≡ false
    pub not_nan : fl.is_nan x ≡ false

  -- Queues, startup and token counts are not negative, rates and sizes are finite and positive.
  pub record IsValid (i : Inputs F) : Type 0 where
    pub queue_a_nonneg : pos 0 ≤ℤ i.queue_a
    pub queue_b_nonneg : pos 0 ≤ℤ i.queue_b
    pub startup_nonneg : pos 0 ≤ℤ i.transfer_startup
    pub prefix_nonneg : pos 0 ≤ℤ i.prefix_tokens
    pub suffix_nonneg : pos 0 ≤ℤ i.suffix_tokens
    pub rate_a_positive : IsFinitePositive i.prefill_tokens_per_sec_a
    pub rate_b_positive : IsFinitePositive i.prefill_tokens_per_sec_b
    pub kv_positive : IsFinitePositive i.kv_bytes_per_token
    pub bandwidth_positive : IsFinitePositive i.bandwidth_bytes_per_sec

  pub is_finite_positive_iff : (x : F) → (is_finite_positive x ≡ true) ↔ IsFinitePositive x
  unfolding is_finite_positive
  is_finite_positive_iff x = (λ h. ground arith, λ h. ground arith)

  pub is_refused_iff : (i : Inputs F) → (is_refused i ≡ false) ↔ IsValid i
  unfolding is_refused
  is_refused_iff i = (
    λ h. ground (
      arith,
      is_finite_positive_iff i.prefill_tokens_per_sec_a,
      is_finite_positive_iff i.prefill_tokens_per_sec_b,
      is_finite_positive_iff i.kv_bytes_per_token,
      is_finite_positive_iff i.bandwidth_bytes_per_sec,
    ),
    λ v. ground (
      arith,
      is_finite_positive_iff i.prefill_tokens_per_sec_a,
      is_finite_positive_iff i.prefill_tokens_per_sec_b,
      is_finite_positive_iff i.kv_bytes_per_token,
      is_finite_positive_iff i.bandwidth_bytes_per_sec,
    ),
  )

  pub estimate_refused : (i : Inputs F) → ¬ IsValid i → estimate i ≡ err invalid_inputs
  unfolding estimate
  estimate_refused i n = elim (Bool-cases (is_refused i)) [
    | inl h ↦ rw h
    | inr h ↦ absurd (n ((is_refused_iff i).0 h))
  ]

  pub estimate_accepted : (i : Inputs F) → IsValid i → estimate i ≡ ok (plans i)
  unfolding estimate
  estimate_accepted i v = rw ((is_refused_iff i).1 v)

  pub estimate-eq-ok→IsValid :
      (i : Inputs F) {cs : List Candidate} → estimate i ≡ ok cs → IsValid i × (cs ≡ plans i)
  unfolding estimate
  estimate-eq-ok→IsValid i e = elim (Bool-cases (is_refused i)) [
    | inl h ↦ cc (rw h at e)
    | inr h ↦ ((is_refused_iff i).0 h, sym (ok-injective (rw h at e)))
  ]

  -- `Estimate` accepts exactly the valid inputs: those whose queues, startup and token counts are not
  -- negative and whose rates and sizes are finite and positive. It returns the three plans for them,
  -- in the order wait, transfer, recompute, and its error for all others.
  pub estimate_iff :
      (i : Inputs F)
      → (IsValid i → (a : ℤ) × (b : ℤ) × (c : ℤ) × (estimate i ≡ ok (in_order a b c)))
        × (¬ IsValid i → estimate i ≡ err invalid_inputs)
  unfolding plans
  estimate_iff i = (λ v. (_, _, _, estimate_accepted i v), estimate_refused i)
