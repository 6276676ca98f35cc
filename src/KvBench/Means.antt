-- ===== src/KvBench/Means.antt =====
-- What the means are means of.
use kvflow.KvBench.{
  Tally, add_adaptations, add_errors, plus, action_eq, transfer, length, Float64, Scenario, ℕ,
  Result, ok, error_loop, adaptation_loop, mean_transfer_error_ms, adaptation_times, seeds, start,
  ◌⊘◌, millisecond, mean_adaptation,
}
use kvflow.Int.{ℤ, pos, sub64}
use kvflow.Simulator.{Outcome}
use kvflow.Simulator.Adaptation.{Adaptation}
use kvflow.Scheduler.{Action}
use mathlib.Core.Path.{subst}
use kvflow.Prelude.{
  [], ◌∷◌, none, some, refl, inl, inr, true, List, Option, ◌++◌, Bool, ◌≡◌, ◌&&◌, Bool-cases, arith,
  if◌then◌else◌, ◌+◌, ◌==◌, ◌∙◌,
}

abbrev pub concat : {A : Type 0} → List (List A) → List A
concat [] = []
concat (xs ∷ rest) = xs ++ concat rest

-- The change points to an action, and whether each was adapted to.
abbrev pub relevant : Action → List Adaptation → List Adaptation
relevant to [] = []
relevant to (a ∷ more) = let rest = relevant to more in if action_eq a.to to then a ∷ rest else rest

abbrev pub all_adapted : List Adaptation → Bool
all_adapted [] = true
all_adapted (a ∷ more) = a.adapted && all_adapted more

abbrev pub transfers : List Outcome → List Outcome
transfers [] = []
transfers (o ∷ os) =
    let rest = transfers os in if action_eq o.executed transfer then o ∷ rest else rest

-- The sum of some numbers, as an `int64`, after a tally.
abbrev pub tally : {A : Type 0} → (A → ℤ) → Tally → List A → Tally
tally f t [] = t
tally f t (x ∷ xs) = tally f (plus t (f x)) xs

tally-append :
    {A : Type 0} (f : A → ℤ) (t : Tally) (xs ys : List A)
    → tally f t (xs ++ ys) ≡ tally f (tally f t xs) ys
tally-append f t [] ys = refl
tally-append f t (x ∷ xs) ys = tally-append f (plus t (f x)) xs ys

tally-count :
    {A : Type 0} (f : A → ℤ) (t : Tally) (xs : List A) → (tally f t xs).count ≡ t.count + length xs
tally-count f t [] = omega arith
tally-count f t (x ∷ xs) = omega (arith, tally-count f (plus t (f x)) xs)

relevant-append :
    (to : Action) (xs ys : List Adaptation)
    → relevant to (xs ++ ys) ≡ relevant to xs ++ relevant to ys
relevant-append to [] ys = refl
relevant-append to (x ∷ xs) ys = elim (Bool-cases (action_eq x.to to)) [
  | inl e ↦ rw (e, relevant-append to xs ys) refl
  | inr e ↦ rw (e, relevant-append to xs ys) refl
]

all_adapted-append :
    (xs ys : List Adaptation) → all_adapted (xs ++ ys) ≡ (all_adapted xs && all_adapted ys)
all_adapted-append [] ys = refl
all_adapted-append (x ∷ xs) ys = ground (arith, all_adapted-append xs ys)

transfers-append : (xs ys : List Outcome) → transfers (xs ++ ys) ≡ transfers xs ++ transfers ys
transfers-append [] ys = refl
transfers-append (x ∷ xs) ys = elim (Bool-cases (action_eq x.executed transfer)) [
  | inl e ↦ rw (e, transfers-append xs ys) refl
  | inr e ↦ rw (e, transfers-append xs ys) refl
]

abbrev pub requests : Adaptation → ℤ
requests a = pos a.requests

abbrev pub error_of : Outcome → ℤ
error_of o = sub64 o.actual o.predicted

-- The tally of the change points, if each was adapted to.
abbrev adapted_tally : Tally → List Adaptation → Option Tally
adapted_tally t xs = if all_adapted xs then some (tally requests t xs) else none

add_adaptations_lem :
    (to : Action) (t : Tally) (xs : List Adaptation)
    → add_adaptations to t xs ≡ adapted_tally t (relevant to xs)
unfolding add_adaptations
add_adaptations_lem to t [] = refl
add_adaptations_lem to t (a ∷ more) = elim (Bool-cases (action_eq a.to to)) [
  | inr e ↦ rw (e, add_adaptations_lem to t more) refl
  | inl e ↦ elim (Bool-cases a.adapted) [
    | inl d ↦ rw (e, d, add_adaptations_lem to (plus t (pos a.requests)) more) refl
    | inr d ↦ rw (e, d) refl
  ]
]

add_errors_lem : (t : Tally) (os : List Outcome) → add_errors t os ≡ tally error_of t (transfers os)
unfolding add_errors
add_errors_lem t [] = refl
add_errors_lem t (o ∷ os) = elim (Bool-cases (action_eq o.executed transfer)) [
  | inl e ↦ rw e (add_errors_lem (plus t (error_of o)) os)
  | inr e ↦ rw e (add_errors_lem t os)
]

module _ {F : Type 0} ⦃fl : Float64 F⦄ (run : List (Scenario F) → ℕ → Result (List Outcome)) where
  -- From a seed on, the outcomes of the runs.
  abbrev pub Outcomes : List (Scenario F) → ℕ → List (List Outcome) → Type 0
  Outcomes truths seed [] = Unit {0}
  Outcomes truths seed (os ∷ more) = (run truths seed ≡ ok os) × Outcomes truths (seed + 1) more

  -- From a seed on, the adaptation times of the runs.
  abbrev pub Reports : List (Scenario F) → ℕ → List (List Adaptation) → Type 0
  Reports truths seed [] = Unit {0}
  Reports truths seed (xs ∷ more) =
      ((os : List Outcome) × (run truths seed ≡ ok os) × (adaptation_times truths os ≡ ok xs))
      × Reports truths (seed + 1) more

  error_loop_lem :
      (truths : List (Scenario F)) (seed : ℕ) (t : Tally) (runs : List (List Outcome))
      → Outcomes truths seed runs
      → error_loop run (length runs) seed truths t ≡ ok (tally error_of t (transfers (concat runs)))
  unfolding error_loop
  error_loop_lem truths seed t [] h = refl
  error_loop_lem truths seed t (os ∷ more) (e, h) =
      let ih = error_loop_lem truths (seed + 1) (add_errors t os) more h in
      rw
        (
          e,
          transfers-append os (concat more),
          tally-append error_of t (transfers os) (transfers (concat more)),
          ← add_errors_lem t os,
        )
        ih

  adaptation_loop_lem :
      (truths : List (Scenario F)) (to : Action) (seed : ℕ) (t : Tally)
      (reports : List (List Adaptation))
      → Reports truths seed reports
      → adaptation_loop run (length reports) seed truths to t
        ≡ ok (adapted_tally t (relevant to (concat reports)))
  unfolding adaptation_loop
  adaptation_loop_lem truths to seed t [] h = refl
  adaptation_loop_lem truths to seed t (xs ∷ more) ((os, e, a), h) =
      let here = relevant to xs in
      let there = relevant to (concat more) in
      let whole = relevant-append to xs (concat more) in
      elim (Bool-cases (all_adapted here)) [
        | inl all ↦
            let ih = adaptation_loop_lem truths to (seed + 1) (tally requests t here) more h in
            rw
              (
                e,
                a,
                add_adaptations_lem to t xs,
                whole,
                all_adapted-append here there,
                all,
                tally-append requests t here there,
              )
              ih
        | inr some_ ↦
            rw (e, a, add_adaptations_lem to t xs, whole, all_adapted-append here there, some_) refl
      ]

  -- Where the run of each of the 20 seeds succeeds, the mean error is that of the executed transfers of
  -- all runs: the sum of their actual less their predicted times, as an `int64` of nanoseconds, over their
  -- number. There is none just if no run executed a transfer.
  pub mean_transfer_error_ms_lem :
      (truths : List (Scenario F)) (runs : List (List Outcome))
      → length runs ≡ seeds
      → Outcomes truths 0 runs
      → let xs = transfers (concat runs) in
        mean_transfer_error_ms run truths
        ≡ ok (
            if length xs == 0
            then none
            else some (
                fl.of_int (tally error_of start xs).total
                ⊘ millisecond
                ⊘ fl.of_int (pos (length xs))))
  unfolding mean_transfer_error_ms
  mean_transfer_error_ms_lem truths runs n h =
      let xs = transfers (concat runs) in
      let loop : error_loop run seeds 0 truths start ≡ ok (tally error_of start xs) =
        subst (λ m. error_loop run m 0 truths start ≡ ok (tally error_of start xs)) n
          (error_loop_lem truths 0 start runs h) in
      let number : (tally error_of start xs).count ≡ length xs =
        tally-count error_of start xs ∙ omega arith in
      rw (loop, number) refl

  -- Where the run of each of the 20 seeds succeeds and has adaptation times, there is no mean just if one
  -- of the change points to the action was not adapted to. Otherwise it is the sum of the requests that
  -- they took, as an `int64`, over their number, also where there are no such change points.
  pub mean_adaptation_lem :
      (truths : List (Scenario F)) (to : Action) (reports : List (List Adaptation))
      → length reports ≡ seeds
      → Reports truths 0 reports
      → let xs = relevant to (concat reports) in
        mean_adaptation run truths to
        ≡ ok (
            if all_adapted xs
            then some (fl.of_int (tally requests start xs).total ⊘ fl.of_int (pos (length xs)))
            else none)
  unfolding mean_adaptation
  mean_adaptation_lem truths to reports n h =
      let xs = relevant to (concat reports) in
      let loop : adaptation_loop run seeds 0 truths to start ≡ ok (adapted_tally start xs) =
        subst (λ m. adaptation_loop run m 0 truths to start ≡ ok (adapted_tally start xs)) n
          (adaptation_loop_lem truths to 0 start reports h) in
      let number : (tally requests start xs).count ≡ length xs =
        tally-count requests start xs ∙ omega arith in
      elim (Bool-cases (all_adapted xs)) [
        | inl all ↦ rw (loop, all, number) refl
        | inr some_ ↦ rw (loop, some_) refl
      ]
