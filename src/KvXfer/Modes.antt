-- ===== src/KvXfer/Modes.antt =====
-- cmd/kvxfer/main.go: `main`, its sizes and its repeats. The package flag parses the flags.
use Prim.Native.String.{String}
use text.Mathlib.Text.{◌==◌ as str_eq}
use kvflow.Prelude.{
  ℕ, ◌+◌, ◌<◌, ◌≡◌, refl, Bool, true, false, Option, none, some, List, [], ◌∷◌, length,
  if◌then◌else◌, inl, inr, arith, ltb, not,
}
use kvflow.Int.{ℤ, pos, ltb_ℤ}
use kvflow.Xfer.{NetError}
use kvflow.Xfer.Server.{Event, serve_all}
use kvflow.KvXfer.{Options, Link, Ran, run, is_done}
use kvflow.KvXfer.Report.{IsReport, run_ends}

-- The flags, with durations in nanoseconds.
pub record Flags : Type 0 where
  pub addr : String
  pub reuse : Bool
  pub duration : ℤ
  pub gap : ℤ

-- What is outside: the error of `net.Listen`, or what then happens to the server; and the network and
-- the clock of a sender.
pub record World (F : Type 0) : Type 0 where
  pub listen : String → Option NetError
  pub visits : List Event
  pub link : String → Link F

-- How far `main` gets: no mode; a mode it does not know; an error of `net.Listen`; serving still, or ended
-- by the error of `ServeAll`; a run that has not ended in its rounds; or what `run` did, whose error
-- is fatal.
pub data Exit (F : Type 0) : Type 0 where
  usage : Exit F
  unknown_mode : String → Exit F
  no_listener : NetError → Exit F
  serving : Exit F
  not_serving : NetError → Exit F
  unfinished : Exit F
  ran : Ran F → Exit F

abbrev pub repeats : ℤ
repeats = pos 5

abbrev pub sizes : List ℤ
sizes = pos 1_048_576 ∷ pos 4_194_304 ∷ pos 16_777_216 ∷ pos 67_108_864 ∷ pos 268_435_456 ∷ []

abbrev pub options : Flags → Options
options flags = record {
  reuse = flags.reuse;
  sizes = sizes;
  repeats = repeats;
  has_duration = ltb_ℤ (pos 0) flags.duration;
  has_gap = ltb_ℤ (pos 0) flags.gap;
}

module _ {F : Type 0} (world : World F) where
  unfoldable pub recv : Flags → Exit F
  recv flags = elim (world.listen flags.addr) [
    | some e ↦ no_listener e
    | none ↦ elim (serve_all world.visits).returned [ none ↦ serving | some e ↦ not_serving e ]
  ]

  -- `run`, cut after so many rounds.
  unfoldable pub send : ℕ → Flags → Exit F
  send fuel flags = elim (run (options flags) (world.link flags.addr) fuel) [
    | none ↦ unfinished
    | some r ↦ ran r
  ]

  -- `main`, from the arguments after the program's name and the flags that are parsed from those after
  -- the first.
  unfoldable pub main : ℕ → List String → Flags → Exit F
  main fuel [] flags = usage
  main fuel (mode ∷ rest) flags =
      if str_eq mode "recv"
      then recv flags
      else if str_eq mode "send"
      then send fuel flags
      else unknown_mode mode

  -- The rounds of a run without a duration.
  five_rounds :
      (flags : Flags) (n : ℕ)
      → ltb_ℤ (pos 0) flags.duration ≡ false
      → 0 < n
      → is_done (options flags) (world.link flags.addr) n ≡ true
      → ((x : ℕ) → 0 < x → x < n → is_done (options flags) (world.link flags.addr) x ≡ false)
      → n ≡ 5
  five_rounds flags n off h done before =
      let late : 5 < n → ⊥ = λ l. ground (arith, rw off at (before 5 (omega arith) l)) in
      let enough : not (ltb (n + 0) 5) ≡ true = rw off at done in ground (arith, late)

  all_lines :
      (flags : Flags) (r : Ran F)
      → ltb_ℤ (pos 0) flags.duration ≡ false
      → IsReport (options flags) (world.link flags.addr) r
      → r.error ≡ none
      → length r.progress.printed ≡ 25
  all_lines flags r off report fine = elim report.end [
    | inl (n, full) ↦
        rw (five_rounds flags n off full.positive full.done full.not_before) at full.count
    | inr (e, stop, cause) ↦ cc
  ]

  -- Without a duration, `kvxfer send` returns within 5 rounds. It has closed every connection that it
  -- dialed, and prints 25 lines unless it ends in an error.
  pub main_sends :
      (flags : Flags) (rest : List String)
      → ltb_ℤ (pos 0) flags.duration ≡ false
      → (r : Ran F) × (main 5 ("send" ∷ rest) flags ≡ ran r)
        × (r.progress.closed ≡ r.progress.dialed)
        × (r.error ≡ none → length r.progress.printed ≡ 25)
  unfolding main send
  main_sends flags rest off =
      let done : is_done (options flags) (world.link flags.addr) 5 ≡ true = rw off refl in
      let (r, returned, closed, end) =
        run_ends (options flags) (world.link flags.addr) 5 (omega arith) done in
      (
        r,
        rw (returned, main, send) refl,
        closed,
        λ fine. elim end [
          | inl (unconnected, stop, bare) ↦ cc
          | inr (connected, report) ↦ all_lines flags r off report fine
        ],
      )
