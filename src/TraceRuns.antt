-- ===== src/TraceRuns.antt =====
-- A trace of two transfers, and loads over it.
use kvflow.KvLoadSim.{starts}
use kvflow.Whole.{whole, whole-IsIeee}
use kvflow.LiveRuns.{hopeful}
use kvflow.Learner.LastSample.{LastSample, last_sample}
use kvflow.LoadSim.Rounds.{load_cake_ends}
use kvflow.NetTrace.Rows.{IsTraceOf, from_rows_lem}
use kvflow.LoadSim.Probes.{loaded_at, chunked_probes}
use kvflow.Int.{pos, ℤ, ◌≤ℤ◌, ◌+ℤ◌}
use kvflow.LoadSim.{Load, Chunked, load_cake}
use kvflow.NetTrace.Segments.{IsAscending, segment_lem}
use kvflow.NetTrace.{Trace, segment, from_rows, ends_after}
use kvflow.XferCsv.{Row}
use kvflow.Prelude.{
  [], ◌∷◌, zero, suc, none, some, refl, true, false, List, ℕ, ◌≤◌, arith, ◌<◌, ◌≡◌, ok, ◌⊎◌,
}

abbrev quick : Row ℤ
quick = record { reuse = true; round = pos 1; bytes = pos 10; seconds = pos 2 }

abbrev slow : Row ℤ
slow = record { reuse = true; round = pos 2; bytes = pos 6; seconds = pos 3 }

abbrev timed : List (Row ℤ)
timed = quick ∷ slow ∷ []

abbrev two_steps : Trace ℤ
two_steps = record {
  front = record { end = pos 2; rate = pos 5 } ∷ [];
  last = record { end = pos 5; rate = pos 2 };
}

from_rows_lem_example : ((t : Trace ℤ) × (from_rows timed ≡ ok t) × IsTraceOf timed t)
from_rows_lem_example =
    (from_rows_lem whole-IsIeee timed).0 (λ e. ground arith) ((refl, refl), ((refl, refl), tt))

two_steps-IsAscending : IsAscending two_steps
two_steps-IsAscending zero zero at p q h = h
two_steps-IsAscending zero (suc zero) at p q h = ground (arith, h)
two_steps-IsAscending zero (suc (suc m)) at p q h = absurd (omega arith)
two_steps-IsAscending (suc k) zero at p q h = absurd (omega arith)
two_steps-IsAscending (suc zero) (suc zero) at p q h = h
two_steps-IsAscending (suc k) (suc (suc m)) at p q h = absurd (omega arith)
two_steps-IsAscending (suc (suc k)) (suc zero) at p q h = absurd (omega arith)

segment_lem_example :
    let i = segment two_steps (pos 3) in
    (i ≤ 1)
    × ((k : ℕ) → k < i → ends_after two_steps (pos 3) k ≡ false)
    × ((ends_after two_steps (pos 3) i ≡ true) ⊎ (i ≡ 1))
segment_lem_example = segment_lem two_steps (pos 3) two_steps-IsAscending

abbrev two_chunks : Load ℤ
two_chunks = record { chunks = pos 2; chunk_bytes = pos 10; chunk_compute = pos 1 }

load_cake_ends_example :
    ((n : ℕ)
      → pos 2 ≡ pos (suc n)
      → ((x : ℤ) × (load_cake two_steps (suc n) (pos 0) two_chunks ≡ some x))
        × ((fuel : ℕ) → fuel < suc n → load_cake two_steps fuel (pos 0) two_chunks ≡ none))
    × (pos 2 ≤ℤ pos 0 → (fuel : ℕ) → load_cake two_steps fuel (pos 0) two_chunks ≡ none)
load_cake_ends_example = load_cake_ends two_steps (pos 0) two_chunks

abbrev loader : Chunked (LastSample ℤ)
loader = record { learner = hopeful; probe_every = pos 2; since_load = 0 }

chunked_probes_example :
    (j : ℕ) × (3 ≤ j)
    × (j ≤ 5)
    × (loaded_at two_steps last_sample two_chunks (pos 0, loader) j ≡ true)
chunked_probes_example =
    chunked_probes two_steps last_sample two_chunks 2 (pos 0, loader) refl (omega arith) 3

three_starts : starts 4 (pos 0) (pos 5) (pos 2) ≡ some (pos 0 ∷ pos 2 ∷ pos 4 ∷ [])
unfolding starts ◌+ℤ◌
three_starts = refl
