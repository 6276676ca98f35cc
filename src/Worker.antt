-- ===== src/Worker.antt =====
-- internal/worker/worker.go: the worker's `Transfer` and its connections. The lock makes a call one step;
-- what the context, the dialer and the network did during it is given with the call.
pub mod Codes
pub mod Connections
pub mod Accounts
pub mod Reached
pub mod Control
use Prim.Native.String.{String}
use text.Mathlib.Text.{◌==◌ as str_eq}
use kvflow.Prelude.{
  ℕ, ◌+◌, Bool, true, false, not, ◌||◌, ◌&&◌, Option, none, some, List, [], ◌∷◌, ◌++◌, map,
  if◌then◌else◌, is_some,
}
use kvflow.Int.{ℤ, pos, ltb_ℤ}
use kvflow.Controller.{
  Code, invalid_argument, permission_denied, unavailable, deadline_exceeded, canceled,
}

-- context.DeadlineExceeded and context.Canceled.
pub data ContextError : Type 0 where
  late gave_up : ContextError

-- status.FromContextError
abbrev pub context_code : ContextError → Code
context_code late = deadline_exceeded
context_code gave_up = canceled

-- A `net.Conn`, told apart by how many were dialed before it.
pub record Conn : Type 0 where
  pub peer : String
  pub number : ℕ

-- `dialed` and `closed` record what was dialed and closed so far.
pub record WorkerState : Type 0 where
  pub allowed : List String
  pub conns : List (String × Conn)
  pub dialed : ℕ
  pub closed : List Conn

pub record TransferRequest : Type 0 where
  pub peer_addr : String
  pub bytes : ℤ

-- What happened during one call: `ctx.Err()` once the lock was held, whether a dial works and `ctx.Err()`
-- after one that does not, the seconds that `Send` took unless it failed, what `stop()` returned, and
-- `ctx.Err()` after a send that failed.
pub record Call (F : Type 0) : Type 0 where
  pub ended_waiting : Option ContextError
  pub dials : Bool
  pub ended_dialing : Option ContextError
  pub sent : Option F
  pub stopped : Bool
  pub ended_sending : Option ContextError

pub data Answer (F : Type 0) : Type 0 where
  answered : F → Answer F
  refused : Code → Answer F

-- How a call ended: its answer, the connection that it sent on, and the worker after it.
pub record Transferred (F : Type 0) : Type 0 where
  pub answer : Answer F
  pub used : Option Conn
  pub worker : WorkerState

unfoldable pub member : String → List String → Bool
member a [] = false
member a (b ∷ bs) = str_eq a b || member a bs

-- `w.conns[addr]`
unfoldable pub find : String → List (String × Conn) → Option Conn
find a [] = none
find a ((b, c) ∷ rest) = if str_eq a b then some c else find a rest

-- `delete(w.conns, addr)`
unfoldable pub remove : String → List (String × Conn) → List (String × Conn)
remove a [] = []
remove a ((b, c) ∷ rest) = if str_eq a b then remove a rest else (b, c) ∷ remove a rest

abbrev pub new_worker : List String → WorkerState
new_worker allowed = record { allowed = allowed; conns = []; dialed = 0; closed = [] }

-- The guard of `Transfer` on its request.
abbrev pub is_malformed : TransferRequest → Bool
is_malformed r = not (ltb_ℤ (pos 0) r.bytes) || str_eq r.peer_addr ""

abbrev pub failure : Option ContextError → Code
failure none = unavailable
failure (some e) = context_code e

-- A dialed connection, put into the map.
abbrev pub dial : WorkerState → String → WorkerState
dial w addr = record w {
  conns = (addr, record { peer = addr; number = w.dialed }) ∷ w.conns;
  dialed = w.dialed + 1;
}

-- conn.Close() and delete(w.conns, addr)
abbrev pub drop_conn : WorkerState → String → Conn → WorkerState
drop_conn w addr c = record w { conns = remove addr w.conns; closed = c ∷ w.closed }

module _ {F : Type 0} where
  abbrev pub refuse : WorkerState → Code → Transferred F
  refuse w code = record { answer = refused code; used = none; worker = w }

  -- `!stop() || err != nil`
  abbrev pub is_dropped : Call F → Bool
  is_dropped call = not call.stopped || not (is_some call.sent)

  -- The send on the connection to `addr`, and what is done about it.
  unfoldable pub send_on : WorkerState → String → Conn → Call F → Transferred F
  send_on w addr c call =
      let answer : Answer F = elim call.sent [
        | some seconds ↦ answered seconds
        | none ↦ refused (failure call.ended_sending)
      ] in
      record {
        answer = answer;
        used = some c;
        worker = if is_dropped call then drop_conn w addr c else w;
      }

  -- `Transfer` with the lock held.
  unfoldable pub transfer_locked : WorkerState → String → Call F → Transferred F
  transfer_locked w addr call = elim call.ended_waiting [
    | some e ↦ refuse w (context_code e)
    | none ↦ elim (find addr w.conns) [
      | some c ↦ send_on w addr c call
      | none ↦
          if call.dials
          then send_on (dial w addr) addr (record { peer = addr; number = w.dialed }) call
          else refuse w (failure call.ended_dialing)
    ]
  ]

  unfoldable pub transfer : WorkerState → TransferRequest → Call F → Transferred F
  transfer w r call =
      if is_malformed r
      then refuse w invalid_argument
      else if not (member r.peer_addr w.allowed)
      then refuse w permission_denied
      else transfer_locked w r.peer_addr call

-- `Close`, which closes every connection in the map.
unfoldable pub close : WorkerState → WorkerState
close w = record w { conns = []; closed = map (λ p. p.1) w.conns ++ w.closed }
