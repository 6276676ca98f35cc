-- ===== src/Simulator/Workload.antt =====
-- internal/simulator/workload.go: the workloads as lists of scenarios. A number of requests
-- is a natural number here: Go's `make` panics below 0.
pub mod Phases
pub mod Prefixes
pub mod Periods
pub mod Flaps
use kvflow.Float64.{Float64, ◌⊖◌, ◌⊕◌, ◌⊗◌, ◌⊘◌, one}
use kvflow.Prelude.{
  ℕ, zero, suc, ◌+◌, ◌-◌, ◌*◌, ◌/◌, Option, none, some, List, [], ◌∷◌, Result, ok, err,
  no_prefix_sizes, replicate, length, get_elem?, Bool, ◌||◌, if◌then◌else◌, ltb, not,
  invalid_period, false,
}
use kvflow.Int.{ℤ, ltb_ℤ, pos, negsuc, pos_part, add64}
use kvflow.Simulator.{Scenario}

-- `truths[i] = x`
unfoldable pub assign {ℓ} : {A : Type ℓ} → ℕ → A → List A → List A
assign i x [] = []
assign zero x (y ∷ ys) = x ∷ ys
assign (suc i) x (y ∷ ys) = y ∷ assign i x ys

-- A loop that assigns `n` elements from index `i`.
unfoldable pub assign_range {ℓ} : {A : Type ℓ} → ℕ → ℕ → A → List A → List A
assign_range zero i x xs = xs
assign_range (suc n) i x xs = assign_range n (i + 1) x (assign i x xs)

abbrev pub with_prefix : {F : Type 0} → Scenario F → ℤ → Scenario F
with_prefix s tokens = record s { request = record s.request { prefix_tokens = tokens } }

-- `minPeriod <= 0 || maxPeriod < minPeriod`
abbrev pub is_bad_period : ℤ → ℤ → Bool
is_bad_period min_period max_period = not (ltb_ℤ (pos 0) min_period) || ltb_ℤ max_period min_period

-- `min(n, start+period)`, whose sum is an int that wraps around.
abbrev pub period_end : ℕ → ℤ → ℕ → ℤ
period_end n start period =
    let sum = add64 start (pos period) in if ltb_ℤ sum (pos n) then sum else pos n

-- The loop that assigns from `start` up to `end`; an index below 0 is out of range. `end` is at most the
-- length.
unfoldable pub assign_between {ℓ} : {A : Type ℓ} → ℤ → ℤ → A → List A → Option (List A)
unfolding assign_range
assign_between (pos start) end x xs = some (assign_range (pos_part end - start) start x xs)
assign_between (negsuc start) end x xs = if ltb_ℤ (negsuc start) end then none else some xs

module _ {F : Type 0} where
  abbrev pub stable : ℕ → Scenario F → List (Scenario F)
  stable n scenario = replicate n scenario

  unfoldable pub slowdown_then_recovery : ℕ → Scenario F → Scenario F → List (Scenario F)
  slowdown_then_recovery n fast slow = assign_range (2 * n / 3 - n / 3) (n / 3) slow (stable n fast)

  -- `int_n` draws a number below its argument from the generator: `rng.IntN`.
  module _ {R : Type 0} (int_n : R → ℕ → ℕ × R) where
    -- The loop over `truths`, where `none` is an index out of range.
    unfoldable pub draw_prefixes : R → List ℤ → List (Scenario F) → Option (List (Scenario F))
    draw_prefixes rng sizes [] = some []
    draw_prefixes rng sizes (s ∷ ss) =
        let (i, rng') = int_n rng (length sizes) in
        elim (get_elem? sizes i) [
          | none ↦ none
          | some tokens ↦ elim (draw_prefixes rng' sizes ss) [
            | none ↦ none
            | some rest ↦ some (with_prefix s tokens ∷ rest)
          ]
        ]

    unfoldable pub mixed_prefixes :
        R → ℕ → Scenario F → List ℤ → Result (Option (List (Scenario F)))
    mixed_prefixes rng n scenario [] = err no_prefix_sizes
    mixed_prefixes rng n scenario (p ∷ ps) = ok (draw_prefixes rng (p ∷ ps) (stable n scenario))

    -- The loop of `Flapping` from `start`, with a round of fuel for each period; `none` is an index out of
    -- range, or no fuel left.
    unfoldable pub flap_loop :
        ℕ → ℕ → ℕ → ℕ → Scenario F → R → Bool → ℤ → List (Scenario F) → Option (List (Scenario F))
    unfolding assign_between
    flap_loop zero n min_period max_period slow rng is_slow start truths = none
    flap_loop (suc fuel) n min_period max_period slow rng is_slow start truths =
        let (k, rng') = int_n rng (max_period - min_period + 1) in
        let end = period_end n start (min_period + k) in
        let rest : Option (List (Scenario F)) =
          elim (if is_slow then assign_between start end slow truths else some truths) [
            | none ↦ none
            | some truths' ↦
                flap_loop fuel n min_period max_period slow rng' (not is_slow) end truths'
          ] in
        if ltb_ℤ start (pos n) then rest else some truths

    unfoldable pub flapping :
        R → ℕ → ℤ → ℤ → Scenario F → Scenario F → Result (Option (List (Scenario F)))
    flapping rng n min_period max_period fast slow =
        if is_bad_period min_period max_period
        then err invalid_period
        else ok (
            flap_loop (n + 1) n (pos_part min_period) (pos_part max_period) slow rng false (pos 0)
              (stable n fast))

module _ {F : Type 0} ⦃fl : Float64 F⦄ where
  -- The rate of index `i` in `Drift`.
  abbrev pub drifted : ℕ → Scenario F → Scenario F → ℕ → F
  drifted n fast slow i =
      let fast_spb = one ⊘ fast.bandwidth_bytes_per_sec in
      let slow_spb = one ⊘ slow.bandwidth_bytes_per_sec in
      let half = fl.of_int (pos (n - 1)) ⊘ fl.of_int (pos 2) in
      let to_slow = one ⊖ fl.abs (fl.of_int (pos i) ⊖ half) ⊘ half in
      one ⊘ (fast_spb ⊕ to_slow ⊗ (slow_spb ⊖ fast_spb))

  -- The loop over `truths` from index `i`.
  unfoldable pub drift_loop :
      ℕ → Scenario F → Scenario F → ℕ → List (Scenario F) → List (Scenario F)
  drift_loop n fast slow i [] = []
  drift_loop n fast slow i (s ∷ ss) =
      record s { bandwidth_bytes_per_sec = drifted n fast slow i }
      ∷ drift_loop n fast slow (i + 1) ss

  unfoldable pub drift : ℕ → Scenario F → Scenario F → List (Scenario F)
  drift n fast slow =
      let drifting = drift_loop n fast slow 0 (stable n fast) in
      if ltb n 2 then stable n fast else drifting
