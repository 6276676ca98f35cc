-- ===== src/CostModel.antt =====
-- internal/costmodel/costmodel.go: the time to first token of each execution plan.
pub mod Validity
pub mod Bounds
pub mod Bandwidth
use kvflow.Prelude.{
  Bool, not, ◌&&◌, ◌||◌, List, [], ◌∷◌, Result, ok, err, invalid_inputs, if◌then◌else◌,
}
use kvflow.Int.{ℤ, pos, ltb_ℤ, max_ℤ, add64}
use kvflow.Float64.{Float64, ◌⊕◌, ◌⊗◌, ◌⊘◌, nought, second}
use kvflow.Scheduler.{Candidate, wait, transfer, recompute}

-- Durations are `int64` nanoseconds, token counts `int`.
pub record Inputs (F : Type 0) : Type 0 where
  pub queue_a : ℤ
  pub queue_b : ℤ
  pub prefix_tokens : ℤ
  pub suffix_tokens : ℤ
  pub prefill_tokens_per_sec_a : F
  pub prefill_tokens_per_sec_b : F
  pub kv_bytes_per_token : F
  pub bandwidth_bytes_per_sec : F
  pub transfer_startup : ℤ

abbrev pub is_negative : ℤ → Bool
is_negative d = ltb_ℤ d (pos 0)

module _ {F : Type 0} ⦃fl : Float64 F⦄ where
  open fl use {of_int, to_int, lt, is_inf, is_nan}

  unfoldable pub is_finite_positive : F → Bool
  is_finite_positive value = lt nought value && not (is_inf value) && not (is_nan value)

  unfoldable pub duration_for : F → F → ℤ
  duration_for amount rate = to_int (amount ⊘ rate ⊗ second)

  -- The condition under which `Estimate` refuses its inputs.
  unfoldable pub is_refused : Inputs F → Bool
  is_refused i =
      is_negative i.queue_a
      || (is_negative i.queue_b
          || (is_negative i.transfer_startup
              || (is_negative i.prefix_tokens
                  || (is_negative i.suffix_tokens
                      || (not (is_finite_positive i.prefill_tokens_per_sec_a)
                          || (not (is_finite_positive i.prefill_tokens_per_sec_b)
                              || (not (is_finite_positive i.kv_bytes_per_token)
                                  || not (is_finite_positive i.bandwidth_bytes_per_sec))))))))

  -- The durations that `Estimate` computes from the token counts, the sizes and the rates.
  unfoldable pub suffix_a : Inputs F → ℤ
  suffix_a i = duration_for (of_int i.suffix_tokens) i.prefill_tokens_per_sec_a

  unfoldable pub suffix_b : Inputs F → ℤ
  suffix_b i = duration_for (of_int i.suffix_tokens) i.prefill_tokens_per_sec_b

  unfoldable pub send_time : Inputs F → ℤ
  send_time i =
      duration_for (of_int i.prefix_tokens ⊗ i.kv_bytes_per_token) i.bandwidth_bytes_per_sec

  unfoldable pub prefix_and_suffix_b : Inputs F → ℤ
  prefix_and_suffix_b i =
      duration_for (of_int i.prefix_tokens ⊕ of_int i.suffix_tokens) i.prefill_tokens_per_sec_b

  abbrev pub transfer_time : Inputs F → ℤ
  transfer_time i = add64 i.transfer_startup (send_time i)

  -- The candidates in tie-break order.
  unfoldable pub plans : Inputs F → List Candidate
  plans i =
      let transfer_start = max_ℤ i.queue_b (transfer_time i) in
      record { action = wait; estimated_ttft = add64 i.queue_a (suffix_a i) }
      ∷ record { action = transfer; estimated_ttft = add64 transfer_start (suffix_b i) }
      ∷ record { action = recompute; estimated_ttft = add64 i.queue_b (prefix_and_suffix_b i) }
      ∷ []

  unfoldable pub estimate : Inputs F → Result (List Candidate)
  unfolding plans
  estimate i = if is_refused i then err invalid_inputs else ok (plans i)
