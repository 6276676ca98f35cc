-- ===== src/KvLoadSim/Starts.antt =====
-- The moments at which loads start.
use kvflow.KvLoadSim.{starts, ℕ}
use kvflow.Float64.{Float64, ◌≺◌, ◌⊕◌, IsIeee, nought}
use mathlib.Core.Path.{subst}
use mathlib.Core.Option.{some-injective}
use kvflow.Prelude.{
  [], ◌∷◌, zero, suc, none, some, refl, inl, inr, false, List, ◌≡◌, ap, ◌∙◌, Bool-cases, sym,
  Option-cases,
}

module _ {F : Type 0} ⦃fl : Float64 F⦄ (duration interval : F) where
  -- Moments from one on, each an interval after the one before it: just those before `duration`.
  abbrev pub Spaced : F → List F → Type 0
  Spaced at [] = fl.lt at duration ≡ false
  Spaced at (x ∷ more) = (x ≡ at) × (at ≺ duration) × Spaced (at ⊕ interval) more

  starts-Spaced :
      (fuel : ℕ) (at : F) (xs : List F) → starts fuel at duration interval ≡ some xs → Spaced at xs
  unfolding starts
  starts-Spaced zero at xs e = cc
  starts-Spaced (suc fuel) at xs e = elim (Bool-cases (fl.lt at duration)) [
    | inr stop ↦
        let ended : starts (suc fuel) at duration interval ≡ some [] = rw (stop, starts) refl in
        subst (Spaced at) (some-injective _ _ (sym ended ∙ e)) stop
    | inl before ↦ elim (Option-cases (starts fuel (at ⊕ interval) duration interval)) [
      | inl cut ↦
          let never : starts (suc fuel) at duration interval ≡ none =
            rw (before, cut, starts) refl in
          cc
      | inr (more, r) ↦
          let first : starts (suc fuel) at duration interval ≡ some (at ∷ more) =
            rw (before, r, starts) refl in
          subst (Spaced at) (some-injective _ _ (sym first ∙ e))
            (refl, before, starts-Spaced fuel (at ⊕ interval) more r)
    ]
  ]

  starts_stuck :
      (fuel : ℕ) (at : F)
      → at ≺ duration
      → ◌≡◌ {A = F} (at ⊕ interval) at
      → starts fuel at duration interval ≡ none
  unfolding starts
  starts_stuck zero at h e = refl
  starts_stuck (suc fuel) at h e =
      let ih : starts fuel (at ⊕ interval) duration interval ≡ none =
        ap (λ x. starts fuel x duration interval) e ∙ starts_stuck fuel at h e in
      rw (h, ih) refl

module _ {F : Type 0} ⦃fl : Float64 F⦄ (laws : IsIeee F) where
  -- Where the loop over the starts ends, they are 0 and the moments an interval apart after it, just those
  -- before the duration. With an interval of 0 and a duration above 0 it never ends.
  pub starts_lem :
      (duration interval : F)
      → ((fuel : ℕ) (xs : List F)
          → starts fuel nought duration interval ≡ some xs
          → Spaced duration interval nought xs)
        × (interval ≡ nought
            → nought ≺ duration
            → (fuel : ℕ) → starts fuel nought duration interval ≡ none)
  starts_lem duration interval = (
    λ fuel xs e. starts-Spaced duration interval fuel nought xs e,
    λ zero_ h fuel.
        starts_stuck duration interval fuel nought h
          (ap (λ x. nought ⊕ x) zero_ ∙ laws.zero_add_zero),
  )
