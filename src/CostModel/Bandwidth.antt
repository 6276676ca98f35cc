-- ===== src/CostModel/Bandwidth.antt =====
-- How the choice depends on the bandwidth that the model is given.
use kvflow.Prelude.{ap, ◌≡◌, refl, [], ◌∷◌, ok, ◌>>=◌, arith, ok-injective}
use kvflow.Int.{ℤ, ◌≤ℤ◌, max_ℤ_mono, +ℤ_mono}
use kvflow.Float64.{Float64, IsIeee, ◌≼◌, ◌⊗◌, second}
use kvflow.Scheduler.{Candidate, wait, transfer, recompute, choose_from, choose_lowest_ttft}
use kvflow.CostModel.{
  Inputs, duration_for, suffix_a, suffix_b, prefix_and_suffix_b, send_time, estimate,
}
use kvflow.CostModel.Validity.{IsFinitePositive, IsValid}
use kvflow.CostModel.Bounds.{
  IsWithin, nanoseconds, nanoseconds_nonneg, second_not_inf, prefix_bytes_nonneg, estimate_exact,
  exact_wait, exact_transfer, exact_recompute,
}

abbrev three : ℤ → ℤ → ℤ → Candidate
three a b c =
    choose_from (record { action = wait; estimated_ttft = a })
      (record { action = transfer; estimated_ttft = b }
        ∷ record { action = recompute; estimated_ttft = c }
        ∷ [])

-- If transfer wins at a time, it wins at a shorter time.
three-transfer :
    (a b c b' : ℤ)
    → b' ≤ℤ b
    → (three a b c).action ≡ transfer
    → (three a b' c ≡ record { action = transfer; estimated_ttft = b' })
      × ((three a b c).estimated_ttft ≡ b)
unfolding choose_from
three-transfer a b c b' h e = ground arith

module _ {F : Type 0} ⦃fl : Float64 F⦄ where
  abbrev pub with_bandwidth : Inputs F → F → Inputs F
  with_bandwidth i rate = record i { bandwidth_bytes_per_sec = rate }

  module _ (laws : IsIeee F) (i : Inputs F) (v : IsValid i) (w : IsWithin i) (rate : F)
      (positive : IsFinitePositive rate) (faster : i.bandwidth_bytes_per_sec ≼ rate) where
    with_bandwidth-IsValid : IsValid (with_bandwidth i rate)
    with_bandwidth-IsValid = record {
      queue_a_nonneg = v.queue_a_nonneg;
      queue_b_nonneg = v.queue_b_nonneg;
      startup_nonneg = v.startup_nonneg;
      prefix_nonneg = v.prefix_nonneg;
      suffix_nonneg = v.suffix_nonneg;
      rate_a_positive = v.rate_a_positive;
      rate_b_positive = v.rate_b_positive;
      kv_positive = v.kv_positive;
      bandwidth_positive = positive;
    }

    abbrev sent : F → F
    sent r = nanoseconds (fl.of_int i.prefix_tokens ⊗ i.kv_bytes_per_token) r

    sent-antitone : sent rate ≼ sent i.bandwidth_bytes_per_sec
    sent-antitone =
        laws.mul_mono _ _ second
          (laws.div_antitone _ i.bandwidth_bytes_per_sec rate (prefix_bytes_nonneg laws i v w)
            v.bandwidth_positive.positive faster positive.not_inf)
          (laws.of_int_pos _) (second_not_inf laws)

    with_bandwidth-IsWithin : IsWithin (with_bandwidth i rate)
    with_bandwidth-IsWithin = record {
      queue_a_le = w.queue_a_le;
      queue_b_le = w.queue_b_le;
      startup_le = w.startup_le;
      suffix_a_short = w.suffix_a_short;
      suffix_b_short = w.suffix_b_short;
      send_short = laws.le_trans _ _ _ sent-antitone w.send_short;
      recompute_short = w.recompute_short;
    }

    send_time-le : send_time (with_bandwidth i rate) ≤ℤ send_time i
    unfolding send_time duration_for
    send_time-le =
        laws.to_int_mono _ _
          (nanoseconds_nonneg laws _ rate (prefix_bytes_nonneg laws i v w) positive) sent-antitone
          w.send_short

    exact_transfer-le : exact_transfer (with_bandwidth i rate) ≤ℤ exact_transfer i
    unfolding suffix_b
    exact_transfer-le =
        +ℤ_mono _ _ (suffix_b i) (suffix_b i)
          (max_ℤ_mono i.queue_b _ _
            (+ℤ_mono i.transfer_startup i.transfer_startup _ _ (omega arith) send_time-le))
          (omega arith)

    -- More bandwidth never makes the model turn away from a transfer: where transfer is the choice
    -- for valid inputs, it is the choice for the same inputs with more bandwidth, and its estimate
    -- does not grow.
    pub transfer_stays_best :
        (c : Candidate)
        → (estimate i >>= choose_lowest_ttft) ≡ ok c
        → c.action ≡ transfer
        → (d : Candidate) × ((estimate (with_bandwidth i rate) >>= choose_lowest_ttft) ≡ ok d)
          × (d.action ≡ transfer)
          × (d.estimated_ttft ≤ℤ c.estimated_ttft)
    unfolding choose_lowest_ttft suffix_a prefix_and_suffix_b
    transfer_stays_best c e t =
        let slow = ok-injective (rw (estimate_exact laws i v w).0 at e) in
        let (fast, time) =
          three-transfer (exact_wait i) (exact_transfer i) (exact_recompute i)
            (exact_transfer (with_bandwidth i rate)) exact_transfer-le (rw slow t) in
        (
          record { action = transfer; estimated_ttft = exact_transfer (with_bandwidth i rate) },
          rw
              (estimate_exact laws (with_bandwidth i rate) with_bandwidth-IsValid
                with_bandwidth-IsWithin).0
              (ap ok fast),
          refl,
          rw (← slow, time) exact_transfer-le,
        )
