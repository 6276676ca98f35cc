-- ===== src/KvLoadSimRuns.antt =====
-- A run of kvloadsim on whole numbers, whose division rounds up so that its first belief is positive.
use native.Mathlib.Nat.{one-mul, le-div_iff_mul-le, div-lt_iff_lt-mul}
use kvflow.Prelude.{
  ℕ, zero, suc, ◌+◌, ◌-◌, ◌/◌, ◌<◌, ◌≤◌, ◌≡◌, refl, true, List, [], ◌∷◌, ok, err, Matched, map,
  arith,
}
use kvflow.Int.{ℤ, pos, negsuc, ltb_ℤ, ◌*ℤ◌, ◌+ℤ◌}
use kvflow.XferCsv.{Row, parsed}
use kvflow.NetTrace.{Trace, from_rows, add_rows}
use kvflow.Learner.LastSample.{new_last_sample}
use kvflow.Learner.Ewma.{new_ewma}
use kvflow.Learner.Line.{new_line}
use kvflow.KvLoadSim.{oracle, starts}
use kvflow.KvLoadSim.Ranks.{HasRanks}
use kvflow.KvLoadSim.Policies.{Named, name, Stats, new_policies}
use kvflow.KvLoadSim.Table.{insert, sorted, Flags, Columns, printed, main}
use kvflow.KvLoadSim.Printed.{TookAll, IsReported, main-prints}
use kvflow.KvControlRuns.{upward}
use kvflow.Whole.{le_ℤ}

abbrev plain : Stats ℤ
plain = record { ceil = λ x. x; decimal = λ n. "n" }

div_up-one : (m n : ℕ) → 0 < m → m ≤ n → (m + n - 1) / n ≡ 1
div_up-one m n h k =
    let low : 1 ≤ (m + n - 1) / n =
      (le-div_iff_mul-le {k = n} {x = 1} {y = m + n - 1} (omega arith)).1
        (omega (arith, one-mul n)) in
    let high : (m + n - 1) / n < 2 =
      (div-lt_iff_lt-mul {k = n} {x = m + n - 1} {y = 2} (omega arith)).1 (omega arith) in
    omega arith

product_whole :
    (x : ℤ) (n : ℕ)
    → ltb_ℤ (pos 0) x ≡ true
    → le_ℤ x (pos 1) ≡ true
    → 0 < n
    → (ltb_ℤ (pos 0) (x *ℤ pos n) ≡ true) × (le_ℤ (x *ℤ pos n) (pos n) ≡ true)
unfolding ◌*ℤ◌
product_whole (pos zero) n h k l = cc
product_whole (pos (suc zero)) n h k l = (ground (arith, one-mul n), ground (arith, one-mul n))
product_whole (pos (suc (suc m))) n h k l = absurd (ground arith)
product_whole (negsuc m) n h k l = absurd (ground arith)

rank_of :
    (x : ℤ) (n : ℕ)
    → ltb_ℤ (pos 0) x ≡ true
    → le_ℤ x (pos n) ≡ true
    → (k : ℕ) × (x ≡ pos (suc k)) × (k < n)
rank_of (pos zero) n h k = cc
rank_of (pos (suc m)) n h k = (m, refl, ground arith)
rank_of (negsuc m) n h k = absurd (ground arith)

plain-HasRanks : HasRanks ⦃fl = upward⦄ plain
plain-HasRanks = record {
  fraction = λ m n h k l. rw (div_up-one m n h k) (refl, refl);
  product = product_whole;
  ceil_between = λ x n h k l. rank_of x n h k;
}

abbrev row : Row ℤ
row = record { reuse = true; round = pos 1; bytes = pos 10; seconds = pos 2 }

abbrev trace : Trace ℤ
trace = record { front = []; last = record { end = pos 2; rate = pos 5 } }

abbrev flags : Flags ℤ
flags = record {
  tokens = pos 4;
  chunk = pos 2;
  bytes_per_token = pos 3;
  prefill = pos 1;
  interval = pos 1;
  probe = pos 2;
}

abbrev policies : List (Named ℤ)
unfolding new_policies
policies = elim (new_policies ⦃fl = upward⦄ plain (pos 2)) [ err e ↦ [] | ok ps ↦ ps ]

main-prints_example :
    (oracle_times : List ℤ) × (lines : List (Columns ℤ)) × TookAll ⦃fl = upward⦄ plain 3 flags trace
      (pos 0 ∷ pos 1 ∷ [])
      oracle
      oracle_times
    × (main ⦃fl = upward⦄ plain 3 flags (parsed (row ∷ [])) ≡ printed 2 lines)
    × Matched
        (IsReported ⦃fl = upward⦄ plain 3 flags trace (pos 0 ∷ pos 1 ∷ []) oracle_times)
        policies
        lines
unfolding starts from_rows new_policies ◌+ℤ◌ add_rows new_last_sample new_ewma new_line
main-prints_example =
    main-prints ⦃fl = upward⦄ plain plain-HasRanks 3 flags (row ∷ []) trace policies
      (pos 0 ∷ pos 1 ∷ []) refl refl refl refl (omega arith) (omega arith) (omega arith)

-- There are 10 policies, half of the learning ones with a probe interval.
policies_names :
    map name policies
    ≡ "oracle, one at a time" ∷ "always-load" ∷ "always-recompute" ∷ "cake" ∷ "last-sample"
      ∷ "last-sample, probe n" ∷ "ewma a=0.5" ∷ "ewma a=0.5, probe n" ∷ "line a=0.5"
      ∷ "line a=0.5, probe n" ∷ []
unfolding new_policies new_last_sample new_ewma new_line name
policies_names = refl

three_sorted : sorted ⦃fl = upward⦄ (pos 3 ∷ pos 1 ∷ pos 2 ∷ []) ≡ pos 1 ∷ pos 2 ∷ pos 3 ∷ []
unfolding sorted insert
three_sorted = refl
