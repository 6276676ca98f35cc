-- ===== src/KvLoadSim.antt =====
-- cmd/kvloadsim/main.go: the load and the moments at which it starts, and how long each policy takes.
pub mod Starts
pub mod Policies
pub mod Table
pub mod Ranks
pub mod Printed
use kvflow.NetTrace.{Trace}
use kvflow.Learner.{Learner}
use kvflow.Int.{pos, ℤ}
use kvflow.Float64.{Float64, ◌⊕◌, ◌⊗◌, ◌⊘◌}
use kvflow.LoadSim.{Chunked, Load, load_oracle, load_cake, load_fixed, load_chunked}
use kvflow.Prelude.{
  [], ◌∷◌, zero, suc, none, some, true, false, ◌>>=◌, Bool, ℕ, ◌==◌, ◌||◌, not, ◌%◌, Option, List,
  if◌then◌else◌, ◌/◌,
}

-- A `loadsim.Policy` of this command.
pub data Policy (L : Type 0) : Type 0 where
  oracle cake : Policy L
  fixed : Bool → Policy L
  chunked : Chunked L → Policy L

-- `log.Fatal` on tokens that are no positive multiple of a chunk.
abbrev pub is_bad_size : ℤ → ℤ → Bool
is_bad_size (pos tokens) (pos chunk) = tokens == 0 || chunk == 0 || not (tokens % chunk == 0)
is_bad_size _ _ = true

module _ {F : Type 0} ⦃fl : Float64 F⦄ where
  abbrev pub load : ℕ → ℕ → F → F → Load F
  load tokens chunk bytes_per_token prefill = record {
    chunks = pos (tokens / chunk);
    chunk_bytes = fl.of_int (pos chunk) ⊗ bytes_per_token;
    chunk_compute = fl.of_int (pos chunk) ⊘ prefill;
  }

  -- The loop over `at`; `none` if it has not ended in so many rounds.
  unfoldable pub starts : ℕ → F → F → F → Option (List F)
  starts zero at duration interval = none
  starts (suc fuel) at duration interval =
      let rest = starts fuel (at ⊕ interval) duration interval in
      if fl.lt at duration
      then elim rest [ none ↦ none | some more ↦ some (at ∷ more) ]
      else some []

  module _ {L : Type 0} (learner : Learner F L) (tr : Trace F) (ld : Load F) where
    -- `p.Load`: how long it took, `none` if `Cake` did not end in so many rounds, and the policy after it.
    abbrev pub load_once : ℕ → Policy L → F → Option F × Policy L
    load_once fuel oracle at = (some (load_oracle tr at ld), oracle)
    load_once fuel cake at = (load_cake tr fuel at ld, cake)
    load_once fuel (fixed recompute) at = (some (load_fixed tr recompute at ld), fixed recompute)
    load_once fuel (chunked c) at =
        let (took, c') = load_chunked tr learner c at ld in (some took, chunked c')

    -- `times[i]` for one policy.
    unfoldable pub times : ℕ → Policy L → List F → List (Option F)
    times fuel p [] = []
    times fuel p (at ∷ more) = let (took, p') = load_once fuel p at in took ∷ times fuel p' more
