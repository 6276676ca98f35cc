-- ===== src/Xfer/Server.antt =====
-- internal/xfer/xfer.go: `ServeAll`, as a schedule of what `Accept` returns and of the goroutines that run.
-- A goroutine runs a round of `Serve` at a time; goroutines share nothing but the log.
pub mod Rounds
pub mod Serving
use Prim.Native.String.{String}
use kvflow.Prelude.{
  ℕ, zero, suc, ◌+◌, Option, none, some, List, [], ◌∷◌, ◌++◌, length, if◌then◌else◌, is_some,
}
use kvflow.Int.{ℤ}
use kvflow.Xfer.{NetError, End, receive, transfer, finished, failed}

-- A connection that `Accept` returned: its remote address, what arrives on it and how that ends, and
-- which replies on it fail.
pub record Peer : Type 0 where
  pub addr : String
  pub bytes : List ℕ
  pub end : End
  pub reply_error : ℕ → Option NetError

-- A goroutine in `Serve`: the bytes that it has not read, the sizes that it acknowledged, how often it
-- ran, and what `Serve` returned, which closes the connection.
pub record Goroutine : Type 0 where
  pub peer : Peer
  pub left : List ℕ
  pub sizes : List ℤ
  pub turns : ℕ
  pub result : Option (Option NetError)

-- The goroutines in the order of their connections, what was logged, and the error that `ServeAll`
-- returned.
pub record Server : Type 0 where
  pub goroutines : List Goroutine
  pub logged : List (String × NetError)
  pub returned : Option NetError

-- What happens next: a connection, an error of `Accept`, or a round of a goroutine.
pub data Event : Type 0 where
  accept : Peer → Event
  accept_error : NetError → Event
  go_on : ℕ → Event

abbrev pub spawn : Peer → Goroutine
spawn p = record { peer = p; left = p.bytes; sizes = []; turns = 0; result = none }

abbrev pub end_with : Goroutine → Option NetError → Goroutine
end_with g e = record g { result = some e; turns = g.turns + 1 }

-- A round of the loop of `Serve`, which a goroutine that has ended does not run.
unfoldable pub round : Goroutine → Goroutine
round g = elim g.result [
  | some e ↦ record g { turns = g.turns + 1 }
  | none ↦ elim (receive g.left g.peer.end) [
    | finished ↦ end_with g none
    | failed e ↦ end_with g (some e)
    | transfer n rest ↦ elim (g.peer.reply_error (length g.sizes)) [
      | some e ↦ end_with g (some e)
      | none ↦ record g { left = rest; sizes = g.sizes ++ (n ∷ []); turns = g.turns + 1 }
    ]
  ]
]

-- What a goroutine logs: an error of its `Serve`, once.
abbrev pub failure : Goroutine → List (String × NetError)
failure g = elim g.result [ none ↦ [] | some none ↦ [] | some (some e) ↦ (g.peer.addr, e) ∷ [] ]

abbrev pub new_failure : Goroutine → List (String × NetError)
new_failure g = if is_some g.result then [] else failure (round g)

-- A round of goroutine `i`: the goroutines after it, and what it logs.
unfoldable pub run_one : ℕ → List Goroutine → List Goroutine × List (String × NetError)
run_one i [] = ([], [])
run_one zero (g ∷ gs) = (round g ∷ gs, new_failure g)
run_one (suc i) (g ∷ gs) = let (gs', lines) = run_one i gs in (g ∷ gs', lines)

abbrev pub with_run : Server → List Goroutine × List (String × NetError) → Server
with_run s (gs, lines) = record s { goroutines = gs; logged = s.logged ++ lines }

-- `ServeAll` accepts until an error; its goroutines go on after it.
unfoldable pub step : Server → Event → Server
step s (accept p) =
    if is_some s.returned then s else record s { goroutines = s.goroutines ++ (spawn p ∷ []) }
step s (accept_error e) = if is_some s.returned then s else record s { returned = some e }
step s (go_on i) = with_run s (run_one i s.goroutines)

unfoldable pub run_events : Server → List Event → Server
run_events s [] = s
run_events s (e ∷ es) = run_events (step s e) es

abbrev pub idle : Server
idle = record { goroutines = []; logged = []; returned = none }

unfoldable pub serve_all : List Event → Server
unfolding run_events
serve_all events = run_events idle events
