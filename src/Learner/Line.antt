-- ===== src/Learner/Line.antt =====
-- internal/learner/line.go: a straight line through the observed transfers, with fading weights.
pub mod Startup
use kvflow.Prelude.{Result, if◌then◌else◌, err, invalid_alpha, invalid_seconds_per_byte, ok, ◌&&◌}
use kvflow.Float64.{Float64, ◌⊕◌, ◌⊖◌, ◌⊗◌, ◌⊘◌, one, nought, second}
use kvflow.Learner.{Learner, is_alpha, is_bad_rate, ℤ, not}

pub record Line (F : Type 0) : Type 0 where
  pub alpha : F
  pub weight : F
  pub mean_bytes : F
  pub mean_seconds : F
  pub bytes_var : F
  pub bytes_seconds_cov : F
  pub startup : F
  pub seconds_per_byte : F

module _ {F : Type 0} ⦃fl : Float64 F⦄ where
  -- Fields that the literal of `NewLine` leaves out are 0.
  unfoldable pub new_line : F → F → Result (Line F)
  new_line alpha initial =
      if not (is_alpha alpha)
      then err invalid_alpha
      else if is_bad_rate initial
      then err invalid_seconds_per_byte
      else ok (record {
        alpha = alpha;
        weight = nought;
        mean_bytes = nought;
        mean_seconds = nought;
        bytes_var = nought;
        bytes_seconds_cov = nought;
        startup = nought;
        seconds_per_byte = initial;
      })

  unfoldable pub startup_line : Line F → ℤ
  startup_line l = fl.to_int (l.startup ⊗ second)

  -- The weighted Welford update: fade the old points and add the new one.
  unfoldable pub add_point : Line F → F → F → Line F
  add_point l bytes seconds =
      let decay = one ⊖ l.alpha in
      let weight = decay ⊗ l.weight ⊕ one in
      let d_bytes = bytes ⊖ l.mean_bytes in
      let mean_bytes = l.mean_bytes ⊕ d_bytes ⊘ weight in
      let mean_seconds = l.mean_seconds ⊕ (seconds ⊖ l.mean_seconds) ⊘ weight in
      record l {
        weight = weight;
        mean_bytes = mean_bytes;
        mean_seconds = mean_seconds;
        bytes_var = decay ⊗ l.bytes_var ⊕ d_bytes ⊗ (bytes ⊖ mean_bytes);
        bytes_seconds_cov = decay ⊗ l.bytes_seconds_cov ⊕ d_bytes ⊗ (seconds ⊖ mean_seconds);
      }

  -- Too little spread, or a falling line: keep the startup if it is below the mean.
  unfoldable pub through_mean : Line F → Line F
  through_mean l =
      let startup = if fl.le l.mean_seconds l.startup then nought else l.startup in
      record l { startup = startup; seconds_per_byte = (l.mean_seconds ⊖ startup) ⊘ l.mean_bytes }

  -- The slope and the startup of the line through the points.
  unfoldable pub fit_line : Line F → Line F
  unfolding through_mean
  fit_line l =
      let slope = l.bytes_seconds_cov ⊘ l.bytes_var in
      let startup = l.mean_seconds ⊖ slope ⊗ l.mean_bytes in
      if fl.lt nought slope && fl.le nought startup
      then record l { startup = startup; seconds_per_byte = slope }
      else if fl.lt nought slope
      then record l { startup = nought; seconds_per_byte = l.mean_seconds ⊘ l.mean_bytes }
      else through_mean l

  abbrev pub spread : Line F → F
  spread l = fl.sqrt (l.bytes_var ⊘ l.weight) ⊘ l.mean_bytes

  -- The belief after a point is added.
  unfoldable pub refit : Line F → Line F
  unfolding through_mean
  refit l = if fl.le fl.tenth (spread l) then fit_line l else through_mean l

  unfoldable pub observe_line : Line F → F → F → Line F
  observe_line l bytes seconds = refit (add_point l bytes seconds)

  abbrev pub line : Learner F (Line F)
  unfolding observe_line startup_line
  line = record {
    observe = observe_line;
    startup = startup_line;
    seconds_per_byte = λ l. l.seconds_per_byte;
  }
