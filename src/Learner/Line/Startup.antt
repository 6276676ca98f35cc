-- ===== src/Learner/Line/Startup.antt =====
-- The startup that a line learns is never negative.
use kvflow.CostModel.Bounds.{IsShort, IsDuration, second_not_inf, to_int-IsDuration}
use kvflow.Learner.{observe_all}
use kvflow.Int.{pos}
use kvflow.Prelude.{◌≡◌, List, [], ◌∷◌, arith}
use kvflow.Float64.{Float64, IsIeee, ◌≼◌, nought, ◌⊗◌, second}
use kvflow.Learner.Line.{
  Line, observe_line, add_point, fit_line, through_mean, new_line, startup_line, ok, refit,
}

module _ {F : Type 0} ⦃fl : Float64 F⦄ where
  module _ (laws : IsIeee F) where
    zero_le_zero : ◌≼◌ {F = F} nought nought
    zero_le_zero = laws.of_int_mono (pos 0) (pos 0) (omega arith)

    through_mean-startup : (l : Line F) → nought ≼ l.startup → nought ≼ (through_mean l).startup
    unfolding through_mean
    through_mean-startup l h = ground (arith, zero_le_zero)

    fit_line-startup : (l : Line F) → nought ≼ l.startup → nought ≼ (fit_line l).startup
    unfolding fit_line
    fit_line-startup l h = ground (arith, zero_le_zero)

    observe_line-startup :
        (l : Line F) (bytes seconds : F)
        → nought ≼ l.startup
        → nought ≼ (observe_line l bytes seconds).startup
    unfolding observe_line refit add_point
    observe_line-startup l bytes seconds h =
        let l' = add_point l bytes seconds in ground (arith, zero_le_zero, fit_line-startup l' h)

    observe_all-startup :
        (l : Line F) (points : List (F × F))
        → nought ≼ l.startup
        → nought ≼ (observe_all observe_line l points).startup
    observe_all-startup l [] h = h
    observe_all-startup l ((bytes, seconds) ∷ rest) h =
        observe_all-startup (observe_line l bytes seconds) rest
          (observe_line-startup l bytes seconds h)

    -- Whatever a line learner has observed since it was made, its startup is at least 0, and its
    -- duration lies between 0 and 2 ^ 53 nanoseconds if the float in nanoseconds is at most 2 ^ 53,
    -- so that the cost model accepts it.
    pub new_line-startup :
        (alpha initial : F) (points : List (F × F)) {l : Line F}
        → new_line alpha initial ≡ ok l
        → let learned = observe_all observe_line l points in
          (nought ≼ learned.startup)
          × (IsShort (learned.startup ⊗ second) → IsDuration (startup_line learned))
    unfolding new_line startup_line
    new_line-startup alpha initial points {l} e =
        let start : nought ≼ l.startup = ground (arith, zero_le_zero) in
        let learned = observe_all observe_line l points in
        let h = observe_all-startup l points start in
        let n =
          laws.mul_nonneg learned.startup second h (laws.of_int_pos _) (second_not_inf laws) in
        (h, λ short. to_int-IsDuration laws _ n short)
