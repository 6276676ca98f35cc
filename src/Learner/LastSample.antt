-- ===== src/Learner/LastSample.antt =====
-- internal/learner/lastsample.go: the rate of the last transfer.
use kvflow.Int.{pos}
use kvflow.Prelude.{Result, if◌then◌else◌, err, invalid_seconds_per_byte, ok}
use kvflow.Float64.{Float64, ◌⊘◌}
use kvflow.Learner.{Learner, is_bad_rate}

pub record LastSample (F : Type 0) : Type 0 where
  pub seconds_per_byte : F

module _ {F : Type 0} ⦃fl : Float64 F⦄ where
  unfoldable pub new_last_sample : F → Result (LastSample F)
  new_last_sample initial =
      if is_bad_rate initial
      then err invalid_seconds_per_byte
      else ok (record { seconds_per_byte = initial })

  unfoldable pub observe_last_sample : LastSample F → F → F → LastSample F
  observe_last_sample s bytes seconds = record { seconds_per_byte = seconds ⊘ bytes }

  -- `Startup` is always 0.
  abbrev pub last_sample : Learner F (LastSample F)
  unfolding observe_last_sample
  last_sample = record {
    observe = observe_last_sample;
    startup = λ s. pos 0;
    seconds_per_byte = λ s. s.seconds_per_byte;
  }
