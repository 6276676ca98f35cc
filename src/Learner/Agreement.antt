-- ===== src/Learner/Agreement.antt =====
-- Where the learners agree: `LastSample` is `EWMA` with alpha 1, and the first point of a line.
use kvflow.Learner.{observe_all, is_alpha, is_bad_rate}
use kvflow.Int.{pos}
use kvflow.Prelude.{◌≡◌, ok, true, List, All, false, arith, ok-injective, ap, [], ◌∷◌, refl}
use kvflow.Float64.{Float64, IsIeee, ◌≺◌, ◌⊘◌, nought, one, is_finite, ◌≼◌}
use kvflow.Learner.Ewma.{Ewma, new_ewma, observe_ewma}
use kvflow.Learner.LastSample.{LastSample, new_last_sample, observe_last_sample}
use kvflow.Learner.Line.{Line, new_line, observe_line, add_point, refit}

module _ {F : Type 0} ⦃fl : Float64 F⦄ where
  -- A transfer of finite positive size and duration, at a finite positive rate.
  pub record IsMeasured (point : F × F) : Type 0 where
    pub bytes_pos : nought ≺ point.0
    pub bytes_finite : is_finite point.0 ≡ true
    pub seconds_pos : nought ≺ point.1
    pub seconds_finite : is_finite point.1 ≡ true
    pub rate_pos : nought ≺ point.1 ⊘ point.0
    pub rate_finite : is_finite (point.1 ⊘ point.0) ≡ true

  -- The line that `NewLine` makes.
  abbrev fresh : F → F → Line F
  fresh alpha initial = record {
    alpha = alpha;
    weight = nought;
    mean_bytes = nought;
    mean_seconds = nought;
    bytes_var = nought;
    bytes_seconds_cov = nought;
    startup = nought;
    seconds_per_byte = initial;
  }

  abbrev eager : F → Ewma F
  eager rate = record { alpha = one; seconds_per_byte = rate }

  module _ (laws : IsIeee F) where
    observe_ewma-eager :
        (rate : F) (point : F × F)
        → nought ≺ rate
        → is_finite rate ≡ true
        → IsMeasured point
        → observe_ewma (eager rate) point.0 point.1 ≡ eager (point.1 ⊘ point.0)
    unfolding observe_ewma
    observe_ewma-eager rate (bytes, seconds) p f m = rw (
      laws.sub_self one (laws.of_int_finite (pos 1)),
      laws.zero_mul rate p f,
      laws.one_mul seconds (laws.numbers_of_lt nought seconds m.seconds_pos).1,
      laws.zero_add _ m.rate_pos,
    )

    eager_run :
        (rate : F) (points : List (F × F))
        → nought ≺ rate
        → is_finite rate ≡ true
        → All IsMeasured points
        → observe_all observe_ewma (eager rate) points
          ≡ eager
              (observe_all observe_last_sample
                (record { seconds_per_byte = rate })
                points).seconds_per_byte
    unfolding observe_last_sample
    eager_run rate [] p f all = refl
    eager_run rate ((bytes, seconds) ∷ rest) p f (m, all) =
        rw (observe_ewma-eager rate (bytes, seconds) p f m)
          (eager_run (seconds ⊘ bytes) rest m.rate_pos m.rate_finite all)

    one_pos : ◌≺◌ {F = F} nought one
    one_pos = laws.of_int_pos 0

    one_accepted : is_alpha {F = F} one ≡ true
    one_accepted = rw (one_pos, laws.le_refl one (laws.numbers_of_lt nought one one_pos).1)

    -- `LastSample` is `EWMA` with alpha 1: they accept the same initial rate, and after any
    -- transfers of finite positive size, duration and rate they believe the same.
    pub last_sample-ewma :
        (initial : F) (points : List (F × F)) {s : LastSample F}
        → new_last_sample initial ≡ ok s
        → All IsMeasured points
        → (e : Ewma F) × (new_ewma one initial ≡ ok e)
          × ((observe_all observe_ewma e points).seconds_per_byte
              ≡ (observe_all observe_last_sample s points).seconds_per_byte)
    unfolding new_ewma new_last_sample
    last_sample-ewma initial points {s} h all =
        let good : is_bad_rate initial ≡ false = ground arith in
        let positive : nought ≺ initial = ground arith in
        let finite : is_finite initial ≡ true =
          ground (arith, laws.numbers_of_lt nought initial positive) in
        let same : record { seconds_per_byte = initial } ≡ s = ok-injective (rw good at h) in
        (
          eager initial,
          rw (one_accepted, good),
          rw (← same) (ap (λ e. e.seconds_per_byte) (eager_run initial points positive finite all)),
        )

    is_number_of_finite : (x : F) → is_finite x ≡ true → fl.is_nan x ≡ false
    is_number_of_finite x h = ground arith

    nought_number : fl.is_nan nought ≡ false
    nought_number = is_number_of_finite nought (laws.of_int_finite (pos 0))

    -- The line that `NewLine` makes, after its first point.
    add_point-first :
        (alpha initial bytes seconds : F)
        → nought ≺ alpha
        → alpha ≼ one
        → IsMeasured (bytes, seconds)
        → add_point (fresh alpha initial) bytes seconds ≡ record (fresh alpha initial) {
          weight = one;
          mean_bytes = bytes;
          mean_seconds = seconds;
        }
    unfolding add_point
    add_point-first alpha initial bytes seconds a b m = simp (
      laws.decay_mul_zero alpha a b,
      laws.zero_add one one_pos,
      laws.sub_zero bytes (is_number_of_finite bytes m.bytes_finite),
      laws.sub_zero seconds (is_number_of_finite seconds m.seconds_finite),
      laws.div_one bytes (is_number_of_finite bytes m.bytes_finite),
      laws.div_one seconds (is_number_of_finite seconds m.seconds_finite),
      laws.zero_add bytes m.bytes_pos,
      laws.zero_add seconds m.seconds_pos,
      laws.sub_self bytes m.bytes_finite,
      laws.sub_self seconds m.seconds_finite,
      laws.mul_zero bytes m.bytes_pos m.bytes_finite,
      laws.zero_add_zero,
    )

    -- One point has no spread.
    no_spread :
        (bytes : F)
        → nought ≺ bytes
        → is_finite bytes ≡ true
        → fl.le fl.tenth (fl.sqrt (nought ⊘ one) ⊘ bytes) ≡ false
    no_spread bytes p q =
        rw (laws.div_one nought nought_number, laws.sqrt_zero, laws.zero_div bytes p q)
          (ground (
            arith,
            laws.tenth_pos,
            laws.lt-eq-not-le nought fl.tenth nought_number
                (laws.numbers_of_lt nought fl.tenth laws.tenth_pos).1,
          ))

    -- A duration that is not 0 is longer than no startup.
    not_below_zero : (x : F) → nought ≺ x → fl.le x nought ≡ false
    not_below_zero x h =
        ground (arith, laws.lt-eq-not-le nought x nought_number (laws.numbers_of_lt nought x h).1)

    -- The first point of a line learner, a transfer of finite positive size, duration and rate, makes
    -- it believe the rate of that transfer and no startup, as `LastSample` does.
    pub first_point-last_sample :
        (alpha initial bytes seconds : F) {l : Line F} {s : LastSample F}
        → new_line alpha initial ≡ ok l
        → new_last_sample initial ≡ ok s
        → IsMeasured (bytes, seconds)
        → let learned = observe_line l bytes seconds in
          (learned.startup ≡ nought)
          × (learned.seconds_per_byte ≡ (observe_last_sample s bytes seconds).seconds_per_byte)
    unfolding new_line observe_line refit observe_last_sample
    first_point-last_sample alpha initial bytes seconds {l} {s} e f m =
        let made : fresh alpha initial ≡ l = ground arith in
        let low : nought ≺ alpha = ground arith in
        let high : alpha ≼ one = ground arith in
        rw
          (
            ← made,
            add_point-first alpha initial bytes seconds low high m,
            no_spread bytes m.bytes_pos m.bytes_finite,
            not_below_zero seconds m.seconds_pos,
            laws.sub_zero seconds (is_number_of_finite seconds m.seconds_finite),
          )
          (refl, refl)
