-- ===== src/Learner.antt =====
-- internal/simulator/simulator.go, `Learner`: what a policy needs of a learner of transfer costs. The
-- children model those of internal/learner.
pub mod Ewma
pub mod LastSample
pub mod Line
pub mod Agreement
use kvflow.Prelude.{[], ◌∷◌, List, Bool, not, ◌&&◌, ◌||◌, List}
use kvflow.Int.{ℤ}
use kvflow.Float64.{Float64, nought, one}

pub record Learner (F L : Type 0) : Type 0 where
  -- One transfer of so many bytes that took so many seconds.
  pub observe : L → F → F → L
  pub startup : L → ℤ
  pub seconds_per_byte : L → F

module _ {F : Type 0} ⦃fl : Float64 F⦄ where
  -- `alpha > 0 && alpha <= 1`
  abbrev pub is_alpha : F → Bool
  is_alpha alpha = fl.lt nought alpha && fl.le alpha one

  -- `!(x > 0) || math.IsInf(x, 0)`
  abbrev pub is_bad_rate : F → Bool
  is_bad_rate x = not (fl.lt nought x) || fl.is_inf x

-- The observations of a run, in order: pairs of bytes and seconds.
abbrev pub observe_all : {F L : Type 0} → (L → F → F → L) → L → List (F × F) → L
observe_all observe l [] = l
observe_all observe l ((bytes, seconds) ∷ rest) = observe_all observe (observe l bytes seconds) rest
