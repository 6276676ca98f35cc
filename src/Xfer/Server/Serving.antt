-- ===== src/Xfer/Server/Serving.antt =====
-- What `ServeAll` does, however its goroutines are scheduled: each serves its connection as if alone.
use mathlib.Core.List.{Perm, append_assoc, append-nil, perm_append_comm}
use mathlib.Core.List.Perm
use mathlib.Core.Path.{subst}
use kvflow.Prelude.{
  ℕ, zero, suc, ◌≡◌, refl, sym, ap, ◌∙◌, Option, none, some, List, [], ◌∷◌, ◌++◌, map, All,
  All-append, Option-cases, inl, inr, arith, if_keeps, is_some, if◌then◌else◌,
}
use kvflow.Xfer.{NetError}
use kvflow.Xfer.Server.{
  Peer, Goroutine, Server, Event, accept, accept_error, go_on, spawn, round, failure, new_failure,
  run_one, step, run_events, serve_all, idle, String,
}
use kvflow.Xfer.Server.Rounds.{Keeps, IsServed, Keeps-IsServed, spawn-Keeps, round-Keeps}

-- The connections up to the first error of `Accept`, and that error.
abbrev pub accepted : List Event → List Peer
accepted [] = []
accepted (accept p ∷ es) = p ∷ accepted es
accepted (accept_error e ∷ es) = []
accepted (go_on i ∷ es) = accepted es

abbrev pub first_error : List Event → Option NetError
first_error [] = none
first_error (accept p ∷ es) = first_error es
first_error (accept_error e ∷ es) = some e
first_error (go_on i ∷ es) = first_error es

abbrev pub peers : Server → List Peer
peers s = map (λ g. g.peer) s.goroutines

abbrev pub failures : List Goroutine → List (String × NetError)
failures [] = []
failures (g ∷ gs) = failure g ++ failures gs

failures-append : (gs : List Goroutine) (p : Peer) → failures (gs ++ (spawn p ∷ [])) ≡ failures gs
failures-append [] p = refl
failures-append (g ∷ gs) p = ap (λ l. failure g ++ l) (failures-append gs p)

-- A round does not change the peer, and changes the failure only of a goroutine that was running.
round-peer : (g : Goroutine) → (round g).peer ≡ g.peer
unfolding round
round-peer g = ground arith

round-failure : (g : Goroutine) → failure (round g) ≡ failure g ++ new_failure g
unfolding round
round-failure g = elim (Option-cases g.result) [
  | inl q ↦ rw q refl
  | inr (e, q) ↦ rw (q, round, q) (sym (append-nil _))
]

run_one-peers :
    (i : ℕ) (gs : List Goroutine) → map (λ g. g.peer) (run_one i gs).0 ≡ map (λ g. g.peer) gs
unfolding run_one
run_one-peers i [] = refl
run_one-peers zero (g ∷ gs) = ap (λ p. p ∷ map (λ g. g.peer) gs) (round-peer g)
run_one-peers (suc i) (g ∷ gs) = ap (λ ps. g.peer ∷ ps) (run_one-peers i gs)

perm_move : {A : Type 0} (a b c d : List A) → a ≡ b ++ c → Perm (a ++ d) ((b ++ d) ++ c)
perm_move a b c d e =
    rw (e, append_assoc b c d, append_assoc b d c) (Perm.append_left b (perm_append_comm c d))

run_one-failures :
    (i : ℕ) (gs : List Goroutine)
    → Perm (failures (run_one i gs).0) (failures gs ++ (run_one i gs).1)
unfolding run_one
run_one-failures i [] = Perm.refl []
run_one-failures zero (g ∷ gs) =
    perm_move (failure (round g)) (failure g) (new_failure g) (failures gs) (round-failure g)
run_one-failures (suc i) (g ∷ gs) =
    rw (append_assoc (failure g) (failures gs) (run_one i gs).1)
      (Perm.append_left (failure g) (run_one-failures i gs))

-- Every goroutine keeps its invariant.
AllKept : List Goroutine → Type 0
AllKept gs = All (λ g. Keeps g g.result) gs

run_one-AllKept : (i : ℕ) (gs : List Goroutine) → AllKept gs → AllKept (run_one i gs).0
unfolding run_one AllKept
run_one-AllKept i [] h = tt
run_one-AllKept zero (g ∷ gs) (h, hs) = (round-Keeps g h, hs)
run_one-AllKept (suc i) (g ∷ gs) (h, hs) = (h, run_one-AllKept i gs hs)

-- What holds of a server whatever happened.
record IsSound (s : Server) : Type 0 where
  kept : AllKept s.goroutines
  told : Perm (failures s.goroutines) s.logged

spawned-IsSound :
    (s : Server) (p : Peer)
    → IsSound s
    → IsSound (record s { goroutines = s.goroutines ++ (spawn p ∷ []) })
unfolding AllKept
spawned-IsSound s p h = record {
  kept = All-append (λ g. Keeps g g.result) s.goroutines (spawn p ∷ []) h.kept (spawn-Keeps p, tt);
  told = rw (failures-append s.goroutines p) h.told;
}

step-IsSound : (s : Server) (e : Event) → IsSound s → IsSound (step s e)
unfolding step
step-IsSound s (accept p) h =
    if_keeps IsSound (is_some s.returned) (λ _. h) (λ _. spawned-IsSound s p h)
step-IsSound s (accept_error x) h =
    if_keeps IsSound (is_some s.returned) (λ _. h) (λ _. record { kept = h.kept; told = h.told })
step-IsSound s (go_on i) h = record {
  kept = run_one-AllKept i s.goroutines h.kept;
  told =
      Perm.trans (run_one-failures i s.goroutines)
        (Perm.append_right (run_one i s.goroutines).1 h.told);
}

run_events-IsSound : (s : Server) (es : List Event) → IsSound s → IsSound (run_events s es)
unfolding run_events
run_events-IsSound s [] h = h
run_events-IsSound s (e ∷ es) h = run_events-IsSound (step s e) es (step-IsSound s e h)

-- A test of whether `ServeAll` has returned, decided.
decided :
    {A : Type 0} (r : Option NetError) {o : Option NetError} (x y : A)
    → r ≡ o
    → (if is_some r then x else y) ≡ (if is_some o then x else y)
decided r x y q = ap (λ o. if is_some o then x else y) q

stays :
    (s : Server) (e : NetError) (event : Event) (es : List Event)
    → step s event ≡ s
    → (peers (run_events s es) ≡ peers s) × ((run_events s es).returned ≡ some e)
    → (peers (run_events (step s event) es) ≡ peers s)
      × ((run_events (step s event) es).returned ≡ some e)
stays s e event es same h =
    subst (λ t. (peers (run_events t es) ≡ peers s) × ((run_events t es).returned ≡ some e))
      (sym same) h

-- Once `Accept` failed, no connection comes.
stopped_events :
    (s : Server) (e : NetError) (es : List Event)
    → s.returned ≡ some e
    → (peers (run_events s es) ≡ peers s) × ((run_events s es).returned ≡ some e)
unfolding run_events step
stopped_events s e [] q = (refl, q)
stopped_events s e (accept p ∷ es) q =
    stays s e (accept p) es
      (decided s.returned s (record s { goroutines = s.goroutines ++ (spawn p ∷ []) }) q)
      (stopped_events s e es q)
stopped_events s e (accept_error x ∷ es) q =
    stays s e (accept_error x) es (decided s.returned s (record s { returned = some x }) q)
      (stopped_events s e es q)
stopped_events s e (go_on i ∷ es) q =
    let (same, r) = stopped_events (step s (go_on i)) e es q in
    (same ∙ run_one-peers i s.goroutines, r)

map-append : {A B : Type 0} (f : A → B) (xs ys : List A) → map f (xs ++ ys) ≡ map f xs ++ map f ys
map-append f [] ys = refl
map-append f (x ∷ xs) ys = ap (λ l. f x ∷ l) (map-append f xs ys)

open_events :
    (s : Server) (es : List Event)
    → s.returned ≡ none
    → (peers (run_events s es) ≡ peers s ++ accepted es)
      × ((run_events s es).returned ≡ first_error es)
unfolding run_events step
open_events s [] q = (sym (append-nil _), q)
open_events s (accept p ∷ es) q =
    let s' : Server = record s { goroutines = s.goroutines ++ (spawn p ∷ []) } in
    let (same, r) = open_events s' es q in
    let grown : peers s' ≡ peers s ++ (p ∷ []) =
      map-append (λ g. g.peer) s.goroutines (spawn p ∷ []) in
    let moved : step s (accept p) ≡ s' = decided s.returned s s' q in
    (
      ap (λ t. peers (run_events t es)) moved
          ∙ same
          ∙ ap (λ ps. ps ++ accepted es) grown
          ∙ append_assoc (peers s) (p ∷ []) (accepted es),
      ap (λ t. (run_events t es).returned) moved ∙ r,
    )
open_events s (accept_error x ∷ es) q =
    let s' : Server = record s { returned = some x } in
    let (same, r) = stopped_events s' x es refl in
    let moved : step s (accept_error x) ≡ s' = decided s.returned s s' q in
    (
      ap (λ t. peers (run_events t es)) moved ∙ same ∙ sym (append-nil _),
      ap (λ t. (run_events t es).returned) moved ∙ r,
    )
open_events s (go_on i ∷ es) q =
    let (same, r) = open_events (step s (go_on i)) es q in
    (same ∙ ap (λ ps. ps ++ accepted es) (run_one-peers i s.goroutines), r)

AllKept-IsServed : (gs : List Goroutine) → AllKept gs → All (λ g. IsServed g g.result) gs
unfolding AllKept
AllKept-IsServed [] h = tt
AllKept-IsServed (g ∷ gs) (h, hs) = (Keeps-IsServed g g.result h, AllKept-IsServed gs hs)

-- However the goroutines are scheduled, there is one for each connection that was accepted before the
-- first error of `Accept`, in order, and that error is what `ServeAll` returns. A goroutine that has ended
-- acknowledged and returned what `Serve` does of its connection alone; one that has not acknowledged a
-- first part of that, and ran at most as often as bytes arrive. The log has just the errors of the ended
-- ones, once each.
pub serve_all-serve :
    (events : List Event)
    → let s = serve_all events in
      (peers s ≡ accepted events)
      × (s.returned ≡ first_error events)
      × All (λ g. IsServed g g.result) s.goroutines
      × Perm (failures s.goroutines) s.logged
unfolding serve_all AllKept
serve_all-serve events =
    let sound : IsSound (run_events idle events) =
      run_events-IsSound idle events (record { kept = tt; told = Perm.refl [] }) in
    let (same, r) = open_events idle events refl in
    (same, r, AllKept-IsServed _ sound.kept, sound.told)
