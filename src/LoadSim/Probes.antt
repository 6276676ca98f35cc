-- ===== src/LoadSim/Probes.antt =====
-- When `Chunked` loads a chunk.
use kvflow.Prelude.{
  zero, suc, refl, inl, inr, true, false, ◌≡◌, Bool-cases, ◌<◌, ◌∙◌, ap, arith, ◌≤◌, ◌+◌,
}
use kvflow.Int.{pos, ◌≤ℤ◌}
use kvflow.Float64.{Float64}
use kvflow.Learner.{Learner}
use kvflow.NetTrace.{Trace}
use kvflow.LoadSim.{Load, Chunked, loads, chunk_step, chunk_loop, ℕ, Bool}

module _ {F L : Type 0} ⦃fl : Float64 F⦄ (tr : Trace F) (learner : Learner F L) (ld : Load F) where
  -- Whether the chunk of index `j` of a run of chunks is loaded.
  abbrev pub loaded_at : F × Chunked L → ℕ → Bool
  loaded_at s j = loads tr learner ld (chunk_loop tr learner j ld s).1

  step_recomputed :
      (s : F × Chunked L)
      → loads tr learner ld s.1 ≡ false
      → (chunk_step tr learner ld s).1 ≡ record s.1 { since_load = s.1.since_load + 1 }
  unfolding chunk_step
  step_recomputed (now, c) h = rw h refl

  step_loaded :
      (s : F × Chunked L)
      → loads tr learner ld s.1 ≡ true
      → (chunk_step tr learner ld s).1.probe_every ≡ s.1.probe_every
  unfolding chunk_step
  step_loaded (now, c) h = rw h refl

  step_probe_every :
      (s : F × Chunked L) → (chunk_step tr learner ld s).1.probe_every ≡ s.1.probe_every
  step_probe_every s = elim (Bool-cases (loads tr learner ld s.1)) [
    | inl h ↦ step_loaded s h
    | inr h ↦ ap (λ c. c.probe_every) (step_recomputed s h)
  ]

  not_due :
      (c : Chunked L) (p : ℕ)
      → c.probe_every ≡ pos p
      → 0 < p
      → loads tr learner ld c ≡ false
      → c.since_load < p
  unfolding loads
  not_due c p e h f = ground arith

  -- With `k` chunks until a probe is due, one of the next `k + 1` is loaded.
  loads_within :
      (k p : ℕ) (s : F × Chunked L)
      → s.1.probe_every ≡ pos p
      → 0 < p
      → p ≤ s.1.since_load + k
      → (j : ℕ) × (j ≤ k) × (loaded_at s j ≡ true)
  unfolding chunk_loop
  loads_within zero p s e h due = elim (Bool-cases (loads tr learner ld s.1)) [
    | inl now ↦ (0, omega arith, now)
    | inr later ↦ absurd (omega (arith, not_due s.1 p e h later))
  ]
  loads_within (suc k) p s e h due = elim (Bool-cases (loads tr learner ld s.1)) [
    | inl now ↦ (0, omega arith, now)
    | inr later ↦
        let s' = chunk_step tr learner ld s in
        let counted = ap (λ c. c.since_load) (step_recomputed s later) in
        let (j, le, yes_) =
          loads_within k p s' (step_probe_every s ∙ e) h (omega (arith, counted)) in
        (suc j, omega arith, yes_)
  ]

  chunk_loop-probe_every :
      (n : ℕ) (s : F × Chunked L) → (chunk_loop tr learner n ld s).1.probe_every ≡ s.1.probe_every
  unfolding chunk_loop
  chunk_loop-probe_every zero s = refl
  chunk_loop-probe_every (suc n) s =
      chunk_loop-probe_every n (chunk_step tr learner ld s) ∙ step_probe_every s

  chunk_loop-add :
      (i j : ℕ) (s : F × Chunked L)
      → chunk_loop tr learner (i + j) ld s
        ≡ chunk_loop tr learner j ld (chunk_loop tr learner i ld s)
  unfolding chunk_loop
  chunk_loop-add zero j s =
      let same : 0 + j ≡ j = omega arith in ap (λ n. chunk_loop tr learner n ld s) same
  chunk_loop-add (suc i) j s =
      let shift : suc i + j ≡ suc (i + j) = omega arith in
      ap (λ n. chunk_loop tr learner n ld s) shift ∙ chunk_loop-add i j (chunk_step tr learner ld s)

  -- With probing on, of every `p + 1` consecutive chunks, `p` the probe interval, at least one is loaded,
  -- whatever the learner believes and however long ago the last load was.
  pub chunked_probes :
      (p : ℕ) (s : F × Chunked L)
      → s.1.probe_every ≡ pos p
      → 0 < p
      → (i : ℕ) → (j : ℕ) × (i ≤ j) × (j ≤ i + p) × (loaded_at s j ≡ true)
  chunked_probes p s e h i =
      let s' = chunk_loop tr learner i ld s in
      let (j, le, found) = loads_within p p s' (chunk_loop-probe_every i s ∙ e) h (omega arith) in
      (i + j, omega arith, omega arith, rw (chunk_loop-add i j s) found)

  never_due :
      (c : Chunked L)
      → ◌≤ℤ◌ c.probe_every (pos 0)
      → loads tr learner ld c ≡ false
      → loads tr learner ld (record c { since_load = c.since_load + 1 }) ≡ false
  unfolding loads
  never_due c h f = ground arith

  -- With probing off, a belief by which loading a chunk is not faster than recomputing it stays: no
  -- later chunk of the load is loaded, the learner learns nothing, and each chunk is counted.
  pub chunked_stuck :
      (s : F × Chunked L)
      → ◌≤ℤ◌ s.1.probe_every (pos 0)
      → loaded_at s 0 ≡ false
      → (n : ℕ)
      → (loaded_at s n ≡ false)
        × ((chunk_loop tr learner n ld s).1.learner ≡ s.1.learner)
        × ((chunk_loop tr learner n ld s).1.since_load ≡ s.1.since_load + n)
  unfolding chunk_loop
  chunked_stuck s h f zero = (f, refl, omega arith)
  chunked_stuck s h f (suc n) =
      let s' = chunk_step tr learner ld s in
      let same = step_recomputed s f in
      let off = rw (← step_probe_every s) at h in
      let still : loads tr learner ld s'.1 ≡ false = rw same (never_due s.1 h f) in
      let (a, b, c) = chunked_stuck s' off still n in
      (a, b ∙ ap (λ x. x.learner) same, omega (arith, c, ap (λ x. x.since_load) same))
