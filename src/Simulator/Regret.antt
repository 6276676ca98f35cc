-- ===== src/Simulator/Regret.antt =====
-- The regret of an action is its true time less that of the best one.
use Prim.Native.String.{String}
use kvflow.Prelude.{◌≡◌, refl, sym, ◌∙◌, ap, List, [], ◌∷◌, ok, err, unknown_action, arith}
use kvflow.Int.{ℤ, pos, ◌≤ℤ◌, ◌+ℤ◌, ◌-ℤ◌, IsTime, sub64_exact, sub_self, sub_nonneg, add_sub}
use kvflow.Float64.{Float64, IsIeee}
use kvflow.Scheduler.{
  Action, wait, transfer, recompute, other, action_eq, Candidate, choose_from, choose_lowest_ttft,
}
use kvflow.CostModel.Validity.{IsValid}
use kvflow.CostModel.Bounds.{
  IsWithin, estimate_exact, exact-IsTime, exact_wait, exact_transfer, exact_recompute,
}
use kvflow.Simulator.{Scenario, inputs, actual_ttft, best_actual, regret, ttft_of}

-- The time of each known action.
abbrev time_of : ℤ → ℤ → ℤ → Action → ℤ
time_of a b c wait = a
time_of a b c transfer = b
time_of a b c recompute = c
time_of a b c (other s) = a

abbrev pub IsKnown : Action → Type 0
IsKnown (other s) = ⊥
IsKnown _ = Unit

abbrev three : ℤ → ℤ → ℤ → List Candidate
three a b c =
    record { action = wait; estimated_ttft = a }
    ∷ record { action = transfer; estimated_ttft = b }
    ∷ record { action = recompute; estimated_ttft = c }
    ∷ []

ttft_of-three :
    (a b c : ℤ) (x : Action) → IsKnown x → ttft_of (three a b c) x ≡ ok (time_of a b c x)
unfolding ttft_of action_eq
ttft_of-three a b c wait k = refl
ttft_of-three a b c transfer k = refl
ttft_of-three a b c recompute k = refl
ttft_of-three a b c (other s) k = absurd k

choose : ℤ → ℤ → ℤ → Candidate
choose a b c =
    choose_from (record { action = wait; estimated_ttft = a })
      (record { action = transfer; estimated_ttft = b }
        ∷ record { action = recompute; estimated_ttft = c }
        ∷ [])

-- The choice among three times is one of them, and the least.
choose_lem :
    (a b c : ℤ)
    → let r = choose a b c in
      (r.estimated_ttft ≤ℤ a)
      × (r.estimated_ttft ≤ℤ b)
      × (r.estimated_ttft ≤ℤ c)
      × (time_of a b c r.action ≡ r.estimated_ttft)
      × IsKnown r.action
unfolding choose choose_from
choose_lem a b c = ground arith

choose-le : (a b c : ℤ) (x : Action) → IsKnown x → (choose a b c).estimated_ttft ≤ℤ time_of a b c x
choose-le a b c wait k = (choose_lem a b c).0
choose-le a b c transfer k = (choose_lem a b c).1
choose-le a b c recompute k = (choose_lem a b c).2
choose-le a b c (other s) k = absurd k

time_of-IsTime :
    (a b c : ℤ) (x : Action) → IsTime a → IsTime b → IsTime c → IsTime (time_of a b c x)
time_of-IsTime a b c wait p q r = p
time_of-IsTime a b c transfer p q r = q
time_of-IsTime a b c recompute p q r = r
time_of-IsTime a b c (other s) p q r = p

module _ {F : Type 0} ⦃fl : Float64 F⦄ where
  -- The truth is valid and its durations are at most 2 ^ 53 nanoseconds.
  pub record IsPlain (truth : Scenario F) : Type 0 where
    pub valid : IsValid (inputs truth truth.transfer_startup)
    pub within : IsWithin (inputs truth truth.transfer_startup)

  module _ (laws : IsIeee F) (truth : Scenario F) (plain : IsPlain truth) where
    abbrev real : Action → ℤ
    real =
        let i = inputs truth truth.transfer_startup in
        time_of (exact_wait i) (exact_transfer i) (exact_recompute i)

    abbrev fastest : Candidate
    fastest =
        let i = inputs truth truth.transfer_startup in
        choose (exact_wait i) (exact_transfer i) (exact_recompute i)

    real-IsTime : (x : Action) → IsTime (real x)
    real-IsTime x =
        let (p, q, r) = exact-IsTime laws _ plain.valid plain.within in time_of-IsTime _ _ _ x p q r

    actual_ttft-real : (x : Action) → IsKnown x → actual_ttft truth x ≡ ok (real x)
    unfolding actual_ttft
    actual_ttft-real x k =
        rw (estimate_exact laws _ plain.valid plain.within).0 (ttft_of-three _ _ _ x k)

    best_actual-fastest : best_actual truth ≡ ok fastest
    unfolding best_actual choose_lowest_ttft choose
    best_actual-fastest = rw (estimate_exact laws _ plain.valid plain.within).0 refl

    fastest-real : (real fastest.action ≡ fastest.estimated_ttft) × IsKnown fastest.action
    fastest-real =
        let i = inputs truth truth.transfer_startup in
        let f = choose_lem (exact_wait i) (exact_transfer i) (exact_recompute i) in (f.3, f.4)

    fastest-IsTime : IsTime fastest.estimated_ttft
    fastest-IsTime = let t = real-IsTime fastest.action in rw fastest-real.0 at t

    regret-real : (x : Action) → IsKnown x → regret truth x ≡ ok (real x -ℤ fastest.estimated_ttft)
    unfolding regret
    regret-real x k =
        rw (actual_ttft-real x k, best_actual-fastest)
          (ap ok (sub64_exact (real x) fastest.estimated_ttft (real-IsTime x) fastest-IsTime))

    regret-other : (s : String) → regret truth (other s) ≡ err unknown_action
    unfolding regret actual_ttft ttft_of action_eq
    regret-other s = rw (estimate_exact laws _ plain.valid plain.within).0

    -- For a valid truth with durations of up to 2 ^ 53 nanoseconds there is a best action; its true
    -- time is the one it is chosen by, its regret is 0, the regret of every known action is not negative and is just what its true time exceeds
    -- the best one's by, and the regret of an unknown action is an error.
    pub regret_lem :
        (best : Candidate) × (best_actual truth ≡ ok best)
        × (actual_ttft truth best.action ≡ ok best.estimated_ttft)
        × (regret truth best.action ≡ ok (pos 0))
        × ((x : Action)
            → IsKnown x
            → (r : ℤ) × (regret truth x ≡ ok r)
              × (pos 0 ≤ℤ r)
              × (actual_ttft truth x ≡ ok (best.estimated_ttft +ℤ r)))
        × ((s : String) → regret truth (other s) ≡ err unknown_action)
    regret_lem = (
      fastest,
      best_actual-fastest,
      actual_ttft-real fastest.action fastest-real.1 ∙ ap ok fastest-real.0,
      regret-real fastest.action fastest-real.1 ∙ ap ok (rw fastest-real.0 (sub_self _)),
      λ x k. (
        real x -ℤ fastest.estimated_ttft,
        regret-real x k,
        sub_nonneg _ _ (choose-le _ _ _ x k),
        actual_ttft-real x k ∙ ap ok (sym (add_sub fastest.estimated_ttft (real x))),
      ),
      regret-other,
    )
