-- ===== src/Worker/Reached.antt =====
-- The states that a worker can be in, and what holds in them.
use kvflow.Prelude.{some, List, ◌≡◌}
use kvflow.Worker.{WorkerState, TransferRequest, Call, Conn, new_worker, transfer, close, String}
use kvflow.Worker.Accounts.{IsSound, IsSend, transfer-Keeps, new_worker-IsSound, close-IsSound}

-- The states of a worker: a new one, after a call, or after `Close`.
pub data Reached (F : Type 0) : WorkerState → Type 0 where
  made : (allowed : List String) → Reached F (new_worker allowed)
  served :
      {w w' : WorkerState} (r : TransferRequest) (call : Call F)
      → Reached F w
      → w' ≡ (transfer w r call).worker
      → Reached F w'
  shut : {w w' : WorkerState} → Reached F w → w' ≡ close w → Reached F w'

module _ {F : Type 0} where
  -- Whatever calls a worker has served, and `Close`s between them: every connection that it dialed is
  -- either in its map or was closed once, and none is both; the map has one connection for an address,
  -- dialed to that address, which is allowed.
  pub Reached-IsSound : (w : WorkerState) → Reached F w → IsSound w
  Reached-IsSound w (made allowed) = new_worker-IsSound allowed
  Reached-IsSound w (served {w = v} r call h e) =
      rw e (transfer-Keeps v r call (Reached-IsSound v h)).0
  Reached-IsSound w (shut {w = v} h e) = rw e (close-IsSound v (Reached-IsSound v h))

  -- A call sends only on a connection that was dialed to the peer of its request, which is allowed, and
  -- that no earlier call closed. Where the send failed or the context ended in time to stop it, the
  -- connection is closed, so that no later call sends on it; otherwise it is kept for the peer.
  pub transfer-IsSend :
      (w : WorkerState) (r : TransferRequest) (call : Call F) (c : Conn)
      → Reached F w
      → (transfer w r call).used ≡ some c
      → IsSend w r.peer_addr call c (transfer w r call).worker
  transfer-IsSend w r call c h e = (transfer-Keeps w r call (Reached-IsSound w h)).2 c e
