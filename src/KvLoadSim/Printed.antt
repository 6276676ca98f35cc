-- ===== src/KvLoadSim/Printed.antt =====
-- What kvloadsim prints: a line for each policy, from the times of its loads.
use native.Mathlib.Nat.{mod-eq_of_lt, le-div_iff_mul-le, one-mul}
use kvflow.Prelude.{
  Bool-cases, inl, inr, ltb, ℕ, suc, ◌/◌, ◌<◌, ◌≤◌, ◌≡◌, refl, sym, ap, true, false, Option, some,
  List, [], ◌∷◌, ◌++◌, ok, err, Result, ◌>>=◌, ok-injective, length, Matched, All, arith,
}
use kvflow.Int.{ℤ, pos, negsuc, pos_part}
use kvflow.Float64.{Float64, nought, max_exact}
use kvflow.XferCsv.{Row, parsed}
use kvflow.NetTrace.{Trace, from_rows, duration}
use kvflow.Learner.LastSample.{new_last_sample}
use kvflow.Learner.Ewma.{new_ewma}
use kvflow.Learner.Line.{new_line}
use kvflow.KvReplay.{initial_seconds_per_byte}
use kvflow.LoadSim.{Load}
use kvflow.LoadSim.Rounds.{load_cake_enough}
use kvflow.KvLoadSim.{
  Policy, oracle, cake, fixed, chunked, is_bad_size, load, load_once, starts, times,
}
use kvflow.KvLoadSim.Ranks.{HasRanks, IsLine, lines_of-IsLine}
use kvflow.KvLoadSim.Policies.{
  AnyLearner, of_last, of_ewma, of_line, both_intervals, Named, Stats, any_learner, half,
  new_policies,
}
use kvflow.KvLoadSim.Table.{Flags, Columns, printed, all_some, write, all_times, simulate, main}

all_some-cons :
    {A : Type 0} (o : Option A) (rest : List (Option A)) {a : A} {as_ : List A}
    → o ≡ some a
    → all_some rest ≡ some as_
    → all_some (o ∷ rest) ≡ some (a ∷ as_)
all_some-cons o rest e es = rw (e, es) refl

Matched-through :
    {A B C : Type 0} (R : A → B → Type 0) (S : B → C → Type 0) (T : A → C → Type 0)
    → ((a : A) (b : B) (c : C) → R a b → S b c → T a c)
    → (as_ : List A) (bs : List B) (cs : List C) → Matched R as_ bs
    → Matched S bs cs
    → Matched T as_ cs
Matched-through R S T f [] [] [] h k = tt
Matched-through R S T f [] [] (c ∷ cs) h k = absurd k
Matched-through R S T f [] (b ∷ bs) cs h k = absurd h
Matched-through R S T f (a ∷ as_) [] cs h k = absurd h
Matched-through R S T f (a ∷ as_) (b ∷ bs) [] h k = absurd k
Matched-through R S T f (a ∷ as_) (b ∷ bs) (c ∷ cs) (h, hs) (k, ks) =
    (f a b c h k, Matched-through R S T f as_ bs cs hs ks)

module _ {F : Type 0} ⦃fl : Float64 F⦄ (stats : Stats F) (fuel : ℕ) (flags : Flags F) (tr : Trace F)
    (at : List F) where
  abbrev ld : Load F
  ld = load (pos_part flags.tokens) (pos_part flags.chunk) flags.bytes_per_token flags.prefill

  -- The seconds of each load of a policy, which all end.
  abbrev pub TookAll : Policy (AnyLearner F) → List F → Type 0
  TookAll p ts = (all_some (times any_learner tr ld fuel p at) ≡ some ts) × (length ts ≡ length at)

  -- The line of a policy, from the times of its loads.
  abbrev pub IsReported : List F → Named F → Columns F → Type 0
  IsReported os p l = (ts : List F) × TookAll p.policy ts × IsLine stats os p ts l

  module _ (ranks : HasRanks stats) (enough : pos_part flags.tokens / pos_part flags.chunk ≤ fuel)
      (some_ : 0 < pos_part flags.tokens / pos_part flags.chunk) where
    load_once-ends :
        (p : Policy (AnyLearner F)) (t : F)
        → (x : F) × ((load_once any_learner tr ld fuel p t).0 ≡ some x)
    load_once-ends oracle t = (_, refl)
    load_once-ends cake t =
        load_cake_enough tr t ld (pos_part flags.tokens / pos_part flags.chunk) fuel refl some_
          enough
    load_once-ends (fixed recompute) t = (_, refl)
    load_once-ends (chunked c) t = (_, refl)

    times-end :
        (p : Policy (AnyLearner F)) (more : List F)
        → (ts : List F) × (all_some (times any_learner tr ld fuel p more) ≡ some ts)
          × (length ts ≡ length more)
    unfolding times
    times-end p [] = ([], refl, refl)
    times-end p (t ∷ more) =
        let (x, e) = load_once-ends p t in
        let (ts, es, n) = times-end (load_once any_learner tr ld fuel p t).1 more in
        (
          x ∷ ts,
          all_some-cons (load_once any_learner tr ld fuel p t).0
              (times any_learner tr ld fuel (load_once any_learner tr ld fuel p t).1 more) e es,
          ap suc n,
        )

    IsTimed : Named F → Named F × List F → Type 0
    IsTimed p (q, ts) = (q ≡ p) × TookAll p.policy ts

    all_times-IsTimed :
        (ps : List (Named F))
        → (all : List (Named F × List F)) × (all_times stats fuel tr flags at ps ≡ some all)
          × Matched IsTimed ps all
          × All (λ e. length e.1 ≡ length at) all
    unfolding all_times IsTimed
    all_times-IsTimed [] = ([], refl, tt, tt)
    all_times-IsTimed (p ∷ ps) =
        let (ts, e, n) = times-end p.policy at in
        let (all, ea, timed, sizes) = all_times-IsTimed ps in
        ((p, ts) ∷ all, rw (e, ea, all_times) refl, ((refl, (e, n)), timed), (n, sizes))

    reported :
        (os : List F) (p : Named F) (e : Named F × List F) (l : Columns F)
        → IsTimed p e
        → IsLine stats os e.0 e.1 l
        → IsReported os p l
    unfolding IsTimed
    reported os p (q, ts) l (same, took) line = (ts, took, rw same at line)

    write-IsReported :
        (p : Named F) (ps : List (Named F))
        → 0 < length at
        → length at ≤ max_exact
        → (os : List F) × (all : List (Named F × List F)) × (ls : List (Columns F)) × TookAll
            p.policy os
          × (all_times stats fuel tr flags at (p ∷ ps) ≡ some all)
          × (write stats all ≡ some ls)
          × Matched (IsReported os) (p ∷ ps) ls
    unfolding write all_times IsTimed
    write-IsReported p ps h few =
        let (ts, e, n) = times-end p.policy at in
        let (all, ea, timed, sizes) = all_times-IsTimed ps in
        let same : All (λ x. length x.1 ≡ length ts) all = rw (← n) at sizes in
        let (ls, els, lines) =
          lines_of-IsLine stats ranks ts ((p, ts) ∷ all) (omega arith) (omega arith) (refl, same) in
        (
          ts,
          (p, ts) ∷ all,
          ls,
          (e, n),
          rw (e, ea, all_times) refl,
          els,
          Matched-through IsTimed (λ e l. IsLine stats ts e.0 e.1 l) (IsReported ts) (reported ts)
              (p ∷ ps) ((p, ts) ∷ all) ls ((refl, (e, n)), timed) lines,
        )

chain-cons :
    {A B C D : Type 0} (a : Result A) (b : Result B) (c : Result C) (d : D) (g : A → B → C → List D)
    {ps : List D}
    → (a >>= λ x. b >>= λ y. c >>= λ z. ok (d ∷ g x y z)) ≡ ok ps
    → (rest : List D) × (ps ≡ d ∷ rest)
chain-cons (err x) b c d g e = cc
chain-cons (ok x) (err y) c d g e = cc
chain-cons (ok x) (ok y) (err z) d g e = cc
chain-cons (ok x) (ok y) (ok z) d g e = (g x y z, sym (ok-injective e))

-- A positive multiple of a chunk has at least one.
some_chunks : (t c : ℤ) → is_bad_size t c ≡ false → 0 < pos_part t / pos_part c
some_chunks (negsuc t) c h = cc
some_chunks (pos t) (negsuc c) h = cc
some_chunks (pos t) (pos c) h = elim (Bool-cases (ltb t c)) [
  | inl below ↦ ground (arith, mod-eq_of_lt {n = t} {m = c})
  | inr above ↦
      (le-div_iff_mul-le {k = c} {x = 1} {y = t} (ground arith)).1 (ground (arith, one-mul c))
]

module _ {F : Type 0} ⦃fl : Float64 F⦄ (stats : Stats F) where
  new_policies-oracle :
      (probe : ℤ) {ps : List (Named F)}
      → new_policies stats probe ≡ ok ps
      → (rest : List (Named F)) × (ps ≡ record { label = ""; policy = oracle } ∷ rest)
  unfolding new_policies
  new_policies-oracle probe e =
      chain-cons
        (both_intervals stats "last-sample"
          (new_last_sample initial_seconds_per_byte >>= λ l. ok (of_last l)) probe)
        (both_intervals stats "ewma a=0.5"
          (new_ewma half initial_seconds_per_byte >>= λ l. ok (of_ewma l)) probe)
        (both_intervals stats "line a=0.5"
          (new_line half initial_seconds_per_byte >>= λ l. ok (of_line l)) probe)
        (record { label = ""; policy = oracle })
        (λ a b c.
          record { label = ""; policy = fixed false }
          ∷ record { label = ""; policy = fixed true }
          ∷ record { label = ""; policy = cake }
          ∷ (a ++ (b ++ c)))
        e

  -- Where the tokens are a positive multiple of the chunk, the rows make a trace, the learners are made, the
  -- starts are found and there are 1 to 2 ^ 53 of them, and there is a round for each chunk: every load ends,
  -- no index is out of range, and the table has a line for each policy, in order, from the seconds of its
  -- own loads, one for each start: their mean; of them in sorted order, the one whose rank is half their
  -- number, rounded up, the one whose rank is 99 in 100 of it, and the last; what they exceed the oracle's
  -- times by in all, in percent of those; and how many are more than twice the oracle's.
  pub main-prints :
      (ranks : HasRanks stats) (fuel : ℕ) (flags : Flags F) (rows : List (Row F)) (tr : Trace F)
      (ps : List (Named F)) (at : List F)
      → is_bad_size flags.tokens flags.chunk ≡ false
      → from_rows rows ≡ ok tr
      → new_policies stats flags.probe ≡ ok ps
      → starts fuel nought (duration tr) flags.interval ≡ some at
      → 0 < length at
      → length at ≤ max_exact
      → pos_part flags.tokens / pos_part flags.chunk ≤ fuel
      → (oracle_times : List F) × (lines : List (Columns F)) × TookAll stats fuel flags tr at oracle
          oracle_times
        × (main stats fuel flags (parsed rows) ≡ printed (length at) lines)
        × Matched (IsReported stats fuel flags tr at oracle_times) ps lines
  unfolding main simulate
  main-prints ranks fuel flags rows tr ps at size trace made found h few enough =
      let (rest, listed) = new_policies-oracle flags.probe made in
      let (os, all, ls, took, timed, written, lines) =
        write-IsReported stats fuel flags tr at ranks enough
          (some_chunks flags.tokens flags.chunk size) (record { label = ""; policy = oracle }) rest
          h few in
      (
        os,
        ls,
        took,
        rw (size, trace, simulate, made, found, listed, timed, written) refl,
        rw listed lines,
      )
