-- ===== src/LoadSim/Rounds.antt =====
-- When the loop of `Cake` ends.
use kvflow.Prelude.{
  zero, suc, none, some, refl, inl, inr, false, ◌≡◌, ◌⊎◌, ◌<◌, arith, ◌+◌, Bool-cases, ◌≤◌, ◌∙◌,
  ◌==◌, sym,
}
use kvflow.Int.{pos, negsuc, ℤ, ◌≤ℤ◌}
use kvflow.Float64.{Float64, ◌⊖◌}
use kvflow.NetTrace.{Trace}
use kvflow.LoadSim.{Load, Meeting, meeting_step, all_covered, meeting_loop, load_cake, ℕ}

chunks_cases : (a : ℤ) → ((n : ℕ) × (a ≡ pos n)) ⊎ ((n : ℕ) × (a ≡ negsuc n))
chunks_cases (pos n) = inl (n, refl)
chunks_cases (negsuc n) = inr (n, refl)

module _ {F : Type 0} ⦃fl : Float64 F⦄ (tr : Trace F) where
  -- A round covers one chunk.
  meeting_step_covers :
      (ld : Load F) (m : Meeting F)
      → let m' = (meeting_step tr ld m).1 in m'.computed + m'.loaded ≡ m.computed + m.loaded + 1
  unfolding meeting_step
  meeting_step_covers ld m = elim (Bool-cases (fl.le m.next_compute m.next_load)) [
    | inl h ↦ rw h (omega arith)
    | inr h ↦ rw h (omega arith)
  ]

  all_covered_eq :
      (ld : Load F) (m : Meeting F) (n : ℕ)
      → ld.chunks ≡ pos n
      → all_covered tr ld m ≡ (m.computed + m.loaded == n)
  all_covered_eq ld m n e = rw e refl

  meeting_loop_ends :
      (fuel n : ℕ) (ld : Load F) (at : F) (m : Meeting F)
      → ld.chunks ≡ pos n
      → m.computed + m.loaded < n
      → n ≤ m.computed + m.loaded + fuel
      → (x : F) × (meeting_loop tr fuel ld at m ≡ some x)
  unfolding meeting_loop
  meeting_loop_ends zero n ld at m e h k = absurd (omega arith)
  meeting_loop_ends (suc fuel) n ld at m e h k =
      let m' = (meeting_step tr ld m).1 in
      let c = meeting_step_covers ld m in
      elim (Bool-cases (all_covered tr ld m')) [
        | inl done ↦ ((meeting_step tr ld m).0 ⊖ at, rw (done, meeting_loop) refl)
        | inr more ↦
            let open_ : (m'.computed + m'.loaded == n) ≡ false =
              sym (all_covered_eq ld m' n e) ∙ more in
            let (x, q) =
              meeting_loop_ends fuel n ld at m' e (ground (arith, c, open_)) (omega (arith, c)) in
            (x, rw (more, meeting_loop) q)
      ]

  meeting_loop_short :
      (fuel n : ℕ) (ld : Load F) (at : F) (m : Meeting F)
      → ld.chunks ≡ pos n
      → m.computed + m.loaded + fuel < n
      → meeting_loop tr fuel ld at m ≡ none
  unfolding meeting_loop
  meeting_loop_short zero n ld at m e h = refl
  meeting_loop_short (suc fuel) n ld at m e h =
      let m' = (meeting_step tr ld m).1 in
      let c = meeting_step_covers ld m in
      let open_ : all_covered tr ld m' ≡ false = all_covered_eq ld m' n e ∙ ground (arith, c) in
      rw (open_, meeting_loop) (meeting_loop_short fuel n ld at m' e (omega (arith, c)))

  not_covered :
      (ld : Load F) (m m' : Meeting F)
      → ld.chunks ≤ℤ pos (m.computed + m.loaded)
      → m'.computed + m'.loaded ≡ m.computed + m.loaded + 1
      → all_covered tr ld m' ≡ false
  not_covered ld m m' h c = elim (chunks_cases ld.chunks) [
    | inl (n, e) ↦ all_covered_eq ld m' n e ∙ ground (arith, c, h)
    | inr (n, e) ↦ rw e refl
  ]

  meeting_loop_stuck :
      (fuel : ℕ) (ld : Load F) (at : F) (m : Meeting F)
      → ld.chunks ≤ℤ pos (m.computed + m.loaded)
      → meeting_loop tr fuel ld at m ≡ none
  unfolding meeting_loop
  meeting_loop_stuck zero ld at m h = refl
  meeting_loop_stuck (suc fuel) ld at m h =
      let m' = (meeting_step tr ld m).1 in
      let c = meeting_step_covers ld m in
      let open_ : all_covered tr ld m' ≡ false = not_covered ld m m' h c in
      rw (open_, meeting_loop) (meeting_loop_stuck fuel ld at m' (omega (arith, c)))

  pub load_cake_enough :
      (at : F) (ld : Load F) (n fuel : ℕ)
      → ld.chunks ≡ pos n
      → 0 < n
      → n ≤ fuel
      → (x : F) × (load_cake tr fuel at ld ≡ some x)
  unfolding load_cake
  load_cake_enough at ld n fuel e h k =
      meeting_loop_ends fuel n ld at _ e (omega arith) (omega arith)

  -- `Cake` ends for a load of at least one chunk, in just as many rounds as there are chunks: with
  -- fewer it has not ended. For a load of no chunks, or of fewer, it never ends.
  pub load_cake_ends :
      (at : F) (ld : Load F)
      → ((n : ℕ)
          → ld.chunks ≡ pos (suc n)
          → ((x : F) × (load_cake tr (suc n) at ld ≡ some x))
            × ((fuel : ℕ) → fuel < suc n → load_cake tr fuel at ld ≡ none))
        × (ld.chunks ≤ℤ pos 0 → (fuel : ℕ) → load_cake tr fuel at ld ≡ none)
  unfolding load_cake
  load_cake_ends at ld = (
    λ n e. (
      meeting_loop_ends (suc n) (suc n) ld at _ e (omega arith) (omega arith),
      λ fuel h. meeting_loop_short fuel (suc n) ld at _ e (omega arith),
    ),
    λ h fuel. meeting_loop_stuck fuel ld at _ (omega arith),
  )
