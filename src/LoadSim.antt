-- ===== src/LoadSim.antt =====
-- internal/loadsim/loadsim.go: loaders that choose between sending and recomputing each chunk. `Load` of
-- a policy returns the seconds it took; `Chunked` returns its new state too.
pub mod Rounds
pub mod Probes
use kvflow.Prelude.{
  ℕ, zero, suc, ◌+◌, Bool, true, false, not, ◌||◌, ◌==◌, Option, none, some, if◌then◌else◌,
}
use kvflow.Int.{ℤ, pos, negsuc, pos_part, ltb_ℤ}
use kvflow.Float64.{Float64, ◌⊕◌, ◌⊖◌, ◌⊗◌, seconds}
use kvflow.Learner.{Learner}
use kvflow.NetTrace.{Trace, send_time}
use kvflow.Simulator.Policy.{is_probe_due}

pub record Load (F : Type 0) : Type 0 where
  pub chunks : ℤ
  pub chunk_bytes : F
  pub chunk_compute : F

-- `Chunked` without its label: the learner, the probe interval and the chunks since the last load.
pub record Chunked (L : Type 0) : Type 0 where
  pub learner : L
  pub probe_every : ℤ
  pub since_load : ℕ

-- The loop of `Cake`: what is computed and loaded so far, and when each side is next done.
pub record Meeting (F : Type 0) : Type 0 where
  pub computed : ℕ
  pub loaded : ℕ
  pub next_compute : F
  pub next_load : F

module _ {F : Type 0} ⦃fl : Float64 F⦄ (tr : Trace F) where
  unfoldable pub load_fixed : Bool → F → Load F → F
  load_fixed recompute at ld =
      if recompute
      then fl.of_int ld.chunks ⊗ ld.chunk_compute
      else send_time tr at (fl.of_int ld.chunks ⊗ ld.chunk_bytes)

  -- `for range ld.Chunks` runs not at all below 0.
  unfoldable pub oracle_loop : ℕ → Load F → F → F
  oracle_loop zero ld now = now
  oracle_loop (suc n) ld now =
      oracle_loop n ld (now ⊕ fl.min (send_time tr now ld.chunk_bytes) ld.chunk_compute)

  unfoldable pub load_oracle : F → Load F → F
  load_oracle at ld = oracle_loop (pos_part ld.chunks) ld at ⊖ at

  module _ {L : Type 0} (learner : Learner F L) where
    -- Whether the belief or a due probe has a chunk loaded.
    unfoldable pub loads : Load F → Chunked L → Bool
    loads ld c =
        let predicted =
          seconds (learner.startup c.learner)
          ⊕ ld.chunk_bytes ⊗ learner.seconds_per_byte c.learner in
        fl.lt predicted ld.chunk_compute || is_probe_due c.probe_every c.since_load

    -- One chunk, from the time `now`.
    unfoldable pub chunk_step : Load F → F × Chunked L → F × Chunked L
    chunk_step ld (now, c) =
        let took = send_time tr now ld.chunk_bytes in
        if not (loads ld c)
        then (now ⊕ ld.chunk_compute, record c { since_load = c.since_load + 1 })
        else (
          now ⊕ took,
          record c { learner = learner.observe c.learner ld.chunk_bytes took; since_load = 0 },
        )

    unfoldable pub chunk_loop : ℕ → Load F → F × Chunked L → F × Chunked L
    chunk_loop zero ld s = s
    chunk_loop (suc n) ld s = chunk_loop n ld (chunk_step ld s)

    unfoldable pub load_chunked : Chunked L → F → Load F → F × Chunked L
    load_chunked c at ld =
        let (now, c') = chunk_loop (pos_part ld.chunks) ld (at, c) in (now ⊖ at, c')

  -- One round of `Cake`'s loop: the time of it, and the state after it.
  unfoldable pub meeting_step : Load F → Meeting F → F × Meeting F
  meeting_step ld m =
      if fl.le m.next_compute m.next_load
      then (
        m.next_compute,
        record m { computed = m.computed + 1; next_compute = m.next_compute ⊕ ld.chunk_compute },
      )
      else (
        m.next_load,
        record m {
          loaded = m.loaded + 1;
          next_load = m.next_load ⊕ send_time tr m.next_load ld.chunk_bytes;
        },
      )

  -- `computed+loaded == ld.Chunks`
  abbrev pub all_covered : Load F → Meeting F → Bool
  all_covered ld m = elim ld.chunks [ pos n ↦ m.computed + m.loaded == n | negsuc n ↦ false ]

  -- `none` if the loop has not ended in so many rounds.
  unfoldable pub meeting_loop : ℕ → Load F → F → Meeting F → Option F
  meeting_loop zero ld at m = none
  meeting_loop (suc fuel) ld at m =
      let (now, m') = meeting_step ld m in
      let rest = meeting_loop fuel ld at m' in if all_covered ld m' then some (now ⊖ at) else rest

  -- `Cake`'s `Load`, cut after so many rounds.
  unfoldable pub load_cake : ℕ → F → Load F → Option F
  load_cake fuel at ld = meeting_loop fuel ld at (record {
    computed = 0;
    loaded = 0;
    next_compute = at ⊕ ld.chunk_compute;
    next_load = at ⊕ send_time tr at ld.chunk_bytes;
  })
