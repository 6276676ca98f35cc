-- ===== src/CostModel/Bounds.antt =====
-- With durations of up to 104 days the estimates are exact sums of nonnegative durations.
use kvflow.Prelude.{◌^◌, ◌∙◌, ◌≡◌, [], ◌∷◌, ok, arith, false}
use kvflow.Int.{
  ℤ, pos, ◌≤ℤ◌, ◌+ℤ◌, add64, max_ℤ, add64_exact, IsTime, le-add_right, ≤ℤ_trans, max_ℤ_left,
  max_ℤ_right, max_ℤ-le, int_laws,
}
use kvflow.Float64.{Float64, IsIeee, ◌≼◌, ◌⊕◌, ◌⊗◌, ◌⊘◌, nought, second, max_exact}
use kvflow.Scheduler.{wait, transfer, recompute}
use kvflow.CostModel.{
  Inputs, duration_for, suffix_a, suffix_b, send_time, prefix_and_suffix_b, plans, estimate,
}
use kvflow.CostModel.Validity.{IsFinitePositive, IsValid, estimate_accepted}

-- From 0 to 2 ^ 53 nanoseconds.
abbrev pub IsDuration : ℤ → Type 0
IsDuration d = (pos 0 ≤ℤ d) × (d ≤ℤ pos max_exact)

IsDuration→IsTime : (d : ℤ) → IsDuration d → IsTime d
IsDuration→IsTime d h = omega arith

module _ {F : Type 0} ⦃fl : Float64 F⦄ where
  -- The quotient that `durationFor` converts, in nanoseconds.
  abbrev pub nanoseconds : F → F → F
  nanoseconds amount rate = amount ⊘ rate ⊗ second

  -- A nonnegative float that is at most 2 ^ 53.
  abbrev pub IsShort : F → Type 0
  IsShort x = x ≼ fl.of_int (pos max_exact)

  -- Every duration that the model adds up is at most 2 ^ 53 nanoseconds.
  pub record IsWithin (i : Inputs F) : Type 0 where
    pub queue_a_le : i.queue_a ≤ℤ pos max_exact
    pub queue_b_le : i.queue_b ≤ℤ pos max_exact
    pub startup_le : i.transfer_startup ≤ℤ pos max_exact
    pub suffix_a_short :
        IsShort (nanoseconds (fl.of_int i.suffix_tokens) i.prefill_tokens_per_sec_a)
    pub suffix_b_short :
        IsShort (nanoseconds (fl.of_int i.suffix_tokens) i.prefill_tokens_per_sec_b)
    pub send_short :
        IsShort
          (nanoseconds (fl.of_int i.prefix_tokens ⊗ i.kv_bytes_per_token) i.bandwidth_bytes_per_sec)
    pub recompute_short : IsShort (
        nanoseconds
          (fl.of_int i.prefix_tokens ⊕ fl.of_int i.suffix_tokens)
          i.prefill_tokens_per_sec_b)

  module _ (i : Inputs F) where
    -- The moment at which the destination can start on the suffix.
    abbrev pub exact_start : ℤ
    exact_start = max_ℤ i.queue_b (i.transfer_startup +ℤ send_time i)

    -- The exact times of the three plans.
    abbrev pub exact_wait : ℤ
    exact_wait = i.queue_a +ℤ suffix_a i

    abbrev pub exact_transfer : ℤ
    exact_transfer = exact_start +ℤ suffix_b i

    abbrev pub exact_recompute : ℤ
    exact_recompute = i.queue_b +ℤ prefix_and_suffix_b i

  module _ (laws : IsIeee F) where
    pub second_not_inf : fl.is_inf second ≡ false
    second_not_inf = ground (arith, laws.of_int_finite (pos 1_000_000_000))

    pub nanoseconds_nonneg :
        (amount rate : F)
        → nought ≼ amount
        → IsFinitePositive rate
        → nought ≼ nanoseconds amount rate
    nanoseconds_nonneg amount rate h r =
        laws.mul_nonneg _ _ (laws.div_nonneg amount rate h r.positive r.not_inf) (laws.of_int_pos _)
          second_not_inf

    pub to_int-IsDuration : (x : F) → nought ≼ x → IsShort x → IsDuration (fl.to_int x)
    to_int-IsDuration x n short =
        let low =
          laws.to_int_mono nought x (laws.of_int_mono (pos 0) (pos 0) (omega arith)) n short in
        let high = laws.to_int_mono x _ n short (laws.le_refl _ (laws.numbers_of_le _ _ short).1) in
        (
          rw (laws.to_int-of_int 0 (omega arith)) at low,
          rw (laws.to_int-of_int max_exact (omega arith)) at high,
        )

    pub duration_for-IsDuration :
        (amount rate : F)
        → nought ≼ amount
        → IsFinitePositive rate
        → IsShort (nanoseconds amount rate)
        → IsDuration (duration_for amount rate)
    unfolding duration_for
    duration_for-IsDuration amount rate h r short =
        to_int-IsDuration (nanoseconds amount rate) (nanoseconds_nonneg amount rate h r) short

    module _ (i : Inputs F) (v : IsValid i) (w : IsWithin i) where
      pub suffix_a-IsDuration : IsDuration (suffix_a i)
      unfolding suffix_a
      suffix_a-IsDuration =
          duration_for-IsDuration _ _ (laws.of_int_mono _ _ v.suffix_nonneg) v.rate_a_positive
            w.suffix_a_short

      pub suffix_b-IsDuration : IsDuration (suffix_b i)
      unfolding suffix_b
      suffix_b-IsDuration =
          duration_for-IsDuration _ _ (laws.of_int_mono _ _ v.suffix_nonneg) v.rate_b_positive
            w.suffix_b_short

      pub prefix_bytes_nonneg : nought ≼ fl.of_int i.prefix_tokens ⊗ i.kv_bytes_per_token
      prefix_bytes_nonneg =
          laws.mul_nonneg _ _ (laws.of_int_mono _ _ v.prefix_nonneg) v.kv_positive.positive
            v.kv_positive.not_inf

      pub send_time-IsDuration : IsDuration (send_time i)
      unfolding send_time
      send_time-IsDuration =
          duration_for-IsDuration _ _ prefix_bytes_nonneg v.bandwidth_positive w.send_short

      pub prefix_and_suffix_b-IsDuration : IsDuration (prefix_and_suffix_b i)
      unfolding prefix_and_suffix_b
      prefix_and_suffix_b-IsDuration =
          duration_for-IsDuration _ _
            (laws.add_nonneg _ _ (laws.of_int_mono _ _ v.prefix_nonneg)
              (laws.of_int_mono _ _ v.suffix_nonneg))
            v.rate_b_positive w.recompute_short

      exact_start-short : (pos 0 ≤ℤ exact_start i) × (exact_start i ≤ℤ pos (2 ^ 54))
      exact_start-short =
          let s = send_time-IsDuration in
          let sum : i.transfer_startup +ℤ send_time i ≤ℤ pos (2 ^ 54) =
            omega (int_laws, s.1, w.startup_le) in
          (
            ≤ℤ_trans (pos 0) i.queue_b _ v.queue_b_nonneg (max_ℤ_left i.queue_b _),
            max_ℤ-le i.queue_b _ (pos (2 ^ 54)) (omega (arith, w.queue_b_le)) sum,
          )

      exact_start-IsTime : IsTime (exact_start i)
      exact_start-IsTime = omega (arith, exact_start-short)

      pub exact-IsTime :
          IsTime (exact_wait i) × IsTime (exact_transfer i) × IsTime (exact_recompute i)
      exact-IsTime =
          let s = exact_start-short in
          omega (
            int_laws, suffix_a-IsDuration, suffix_b-IsDuration, prefix_and_suffix_b-IsDuration, s,
            v.queue_a_nonneg, v.queue_b_nonneg, w.queue_a_le, w.queue_b_le,
          )

      -- No sum of the estimate wraps around.
      pub wait_exact : add64 i.queue_a (suffix_a i) ≡ (exact_wait i)
      wait_exact =
          add64_exact _ _ (IsDuration→IsTime _ (v.queue_a_nonneg, w.queue_a_le))
            (IsDuration→IsTime _ suffix_a-IsDuration)

      pub transfer_exact :
          add64 (max_ℤ i.queue_b (add64 i.transfer_startup (send_time i))) (suffix_b i)
          ≡ (exact_transfer i)
      transfer_exact =
          rw
            (add64_exact i.transfer_startup (send_time i)
              (IsDuration→IsTime _ (v.startup_nonneg, w.startup_le))
              (IsDuration→IsTime _ send_time-IsDuration))
            (add64_exact _ _ exact_start-IsTime (IsDuration→IsTime _ suffix_b-IsDuration))

      pub recompute_exact : add64 i.queue_b (prefix_and_suffix_b i) ≡ (exact_recompute i)
      recompute_exact =
          add64_exact _ _ (IsDuration→IsTime _ (v.queue_b_nonneg, w.queue_b_le))
            (IsDuration→IsTime _ prefix_and_suffix_b-IsDuration)

      -- With valid inputs whose durations are at most 2 ^ 53 nanoseconds, the estimates are the
      -- exact sums: the queue and the suffix on the source; the later of the queue and the transfer,
      -- and the suffix, on the destination; the queue and the whole prompt on the destination. Each
      -- is at least the delays that it contains.
      pub estimate_exact :
          (estimate i
            ≡ ok (
                record { action = wait; estimated_ttft = exact_wait i }
                ∷ record { action = transfer; estimated_ttft = exact_transfer i }
                ∷ record { action = recompute; estimated_ttft = exact_recompute i }
                ∷ []))
          × (i.queue_a ≤ℤ (exact_wait i))
          × (i.queue_b ≤ℤ (exact_transfer i))
          × (i.transfer_startup ≤ℤ (exact_transfer i))
          × (i.queue_b ≤ℤ (exact_recompute i))
      unfolding plans
      estimate_exact =
          let up = le-add_right (exact_start i) (suffix_b i) suffix_b-IsDuration.0 in
          let sent = le-add_right i.transfer_startup (send_time i) send_time-IsDuration.0 in
          let later = max_ℤ_right i.queue_b (i.transfer_startup +ℤ send_time i) in
          (
            estimate_accepted i v ∙ rw (wait_exact, transfer_exact, recompute_exact),
            le-add_right i.queue_a (suffix_a i) suffix_a-IsDuration.0,
            ≤ℤ_trans i.queue_b (exact_start i) _ (max_ℤ_left i.queue_b _) up,
            ≤ℤ_trans i.transfer_startup (exact_start i) _
                (≤ℤ_trans i.transfer_startup (i.transfer_startup +ℤ send_time i) (exact_start i)
                  sent later)
                up,
            le-add_right i.queue_b (prefix_and_suffix_b i) prefix_and_suffix_b-IsDuration.0,
          )
