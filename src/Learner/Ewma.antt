-- ===== src/Learner/Ewma.antt =====
-- internal/learner/ewma.go: a moving average of the seconds per byte.
use kvflow.Int.{pos}
use kvflow.Prelude.{Result, if◌then◌else◌, err, invalid_alpha, invalid_seconds_per_byte, ok}
use kvflow.Float64.{Float64, ◌⊕◌, ◌⊖◌, ◌⊗◌, ◌⊘◌, one}
use kvflow.Learner.{Learner, is_alpha, is_bad_rate, not}

pub record Ewma (F : Type 0) : Type 0 where
  pub alpha : F
  pub seconds_per_byte : F

module _ {F : Type 0} ⦃fl : Float64 F⦄ where
  unfoldable pub new_ewma : F → F → Result (Ewma F)
  new_ewma alpha initial =
      if not (is_alpha alpha)
      then err invalid_alpha
      else if is_bad_rate initial
      then err invalid_seconds_per_byte
      else ok (record { alpha = alpha; seconds_per_byte = initial })

  unfoldable pub observe_ewma : Ewma F → F → F → Ewma F
  observe_ewma e bytes seconds = record e {
    seconds_per_byte = (one ⊖ e.alpha) ⊗ e.seconds_per_byte ⊕ e.alpha ⊗ seconds ⊘ bytes;
  }

  -- `Startup` is always 0.
  abbrev pub ewma : Learner F (Ewma F)
  unfolding observe_ewma
  ewma = record {
    observe = observe_ewma;
    startup = λ e. pos 0;
    seconds_per_byte = λ e. e.seconds_per_byte;
  }
