-- ===== src/KvXfer.antt =====
-- cmd/kvxfer/main.go: `run`, which times transfers round by round and prints a row of CSV for each.
pub mod Lines
pub mod Rounds
pub mod Report
pub mod Modes
pub mod Output
use kvflow.Int.{ℤ, pos, ltb_ℤ}
use mathlib.Core.Option.{map as option_map}
use kvflow.Prelude.{
  [], ◌∷◌, zero, suc, none, some, true, false, Bool, ℕ, List, Option, map, if◌then◌else◌, ◌+◌, ◌-◌,
  ◌&&◌, not, ◌*◌, ltb, length, ◌||◌, ◌++◌,
}
use Prim.Native.String.{String}

-- The arguments of `run`. A gap or a duration that is not above 0 is off.
pub record Options : Type 0 where
  pub reuse : Bool
  pub sizes : List ℤ
  pub repeats : ℤ
  pub has_duration : Bool
  pub has_gap : Bool

-- What the network and the clock do: whether the dial after `i` others works, the seconds of the span
-- that times the transfer after `i` others unless its send fails, and whether the duration has passed
-- after a round.
pub record Link (F : Type 0) : Type 0 where
  pub dials : ℕ → Bool
  pub sends : ℕ → Option F
  pub has_passed : ℕ → Bool

pub data RunError : Type 0 where
  no_dial no_send : RunError

-- What a line of the output is printed from.
pub record Timing (F : Type 0) : Type 0 where
  pub reuse : Bool
  pub round : ℤ
  pub size : ℤ
  pub seconds : F

-- Whether the heading was printed and the lines printed after it, and what was done: idle gaps, dials
-- that worked, connections closed.
pub record Progress (F : Type 0) : Type 0 where
  pub has_heading : Bool
  pub printed : List (Timing F)
  pub gaps : ℕ
  pub dialed : ℕ
  pub closed : ℕ

-- How far `run` or a part of it got, and its error.
pub record Ran (F : Type 0) : Type 0 where
  pub progress : Progress F
  pub error : Option RunError

abbrev pub fine : {F : Type 0} → Progress F → Ran F
fine p = record { progress = p; error = none }

abbrev pub broke : {F : Type 0} → Progress F → RunError → Ran F
broke p e = record { progress = p; error = some e }

-- `if err != nil { return err }`, and otherwise the rest.
abbrev pub and_then : {F : Type 0} → Ran F → (Progress F → Ran F) → Ran F
and_then r next = elim r.error [ some e ↦ r | none ↦ next r.progress ]

module _ {F : Type 0} (o : Options) (link : Link F) where
  -- Without `reuse` the connection is closed after its send, whether or not that failed.
  abbrev pub after_send : Progress F → Progress F
  after_send p = if o.reuse then p else record p { closed = p.closed + 1 }

  abbrev pub timing : ℕ → ℤ → F → Timing F
  timing round n seconds = record {
    reuse = o.reuse;
    round = pos round;
    size = n;
    seconds = seconds;
  }

  abbrev pub print : Progress F → Timing F → Progress F
  print p t = record p { printed = p.printed ++ (t ∷ []) }

  -- What follows the send of `n` bytes: an error, or a line.
  abbrev pub sent : ℕ → ℤ → Progress F → Option F → Ran F
  sent round n p none = broke (after_send p) no_send
  sent round n p (some seconds) = fine (print (after_send p) (timing round n seconds))

  -- The send of `n` bytes as the transfer of this index.
  abbrev pub timed_send : ℕ → ℕ → ℤ → Progress F → Ran F
  timed_send k round n p = sent round n p (link.sends k)

  abbrev pub idle : ℕ → ℕ → Progress F → Progress F
  idle round i p =
      if o.has_gap && (ltb 1 round || ltb 0 i) then record p { gaps = p.gaps + 1 } else p

  -- One transfer: the body of the inner loop at index `i`, as the transfer of index `k` of the run.
  unfoldable pub one_transfer : ℕ → ℕ → ℕ → ℤ → Progress F → Ran F
  one_transfer k round i n p =
      let p' = idle round i p in
      if o.reuse
      then timed_send k round n p'
      else if link.dials k
      then timed_send k round n (record p' { dialed = p'.dialed + 1 })
      else broke p' no_dial

  -- The inner loop, from the size of index `i`. The transfer's index counts those of earlier rounds.
  unfoldable pub one_round : ℕ → ℕ → ℕ → List ℤ → Progress F → Ran F
  one_round k round i [] p = fine p
  one_round k round i (n ∷ ns) p =
      and_then (one_transfer k round i n p) (one_round (k + 1) round (i + 1) ns)

  abbrev pub is_done : ℕ → Bool
  is_done round =
      if o.has_duration then link.has_passed round else not (ltb_ℤ (pos round) o.repeats)

  abbrev pub after_round : Ran F → Bool → Option (Ran F) → Option (Ran F)
  after_round r done more = elim r.error [ some e ↦ some r | none ↦ if done then some r else more ]

  -- The outer loop from a round on; `none` if it has not ended in so many rounds.
  unfoldable pub rounds : ℕ → ℕ → Progress F → Option (Ran F)
  rounds zero round p = none
  rounds (suc fuel) round p =
      let r = one_round ((round - 1) * length o.sizes) round 0 o.sizes p in
      after_round r (is_done round) (rounds fuel (round + 1) r.progress)

  -- The shared connection is closed when `run` returns.
  abbrev pub close_shared : Ran F → Ran F
  close_shared r =
      if o.reuse
      then record r { progress = record r.progress { closed = r.progress.closed + 1 } }
      else r

  abbrev pub begin : Progress F
  begin = record {
    has_heading = true;
    printed = [];
    gaps = 0;
    dialed = if o.reuse then 1 else 0;
    closed = 0;
  }

  -- `run`, cut after so many rounds.
  unfoldable pub run : ℕ → Option (Ran F)
  run fuel =
      if o.reuse && not (link.dials 0)
      then some (broke (record begin { has_heading = false; dialed = 0 }) no_dial)
      else option_map close_shared (rounds fuel 1 begin)

-- The verbs %t, %d and %.6f of fmt, and the fields that a line has for the csv reader, whose commas are
-- no part of them.
pub record Verbs (F : Type 0) : Type 0 where
  pub print_bool : Bool → String
  pub print_int : ℤ → String
  pub print_seconds : F → String

abbrev pub heading : List String
heading = "reuse" ∷ "round" ∷ "bytes" ∷ "seconds" ∷ []

module _ {F : Type 0} (verbs : Verbs F) where
  abbrev pub line : Timing F → List String
  line t =
      verbs.print_bool t.reuse
      ∷ verbs.print_int t.round
      ∷ verbs.print_int t.size
      ∷ verbs.print_seconds t.seconds
      ∷ []

  abbrev pub output : Progress F → List (List String)
  output p = if p.has_heading then heading ∷ map line p.printed else []
