-- ===== src/Worker/Codes.antt =====
-- Which requests a worker refuses as its caller's mistakes.
use kvflow.Prelude.{
  none, some, refl, inl, inr, true, false, ◌≡◌, Option, Option-cases, if◌then◌else◌,
}
use kvflow.Controller.{invalid_argument, permission_denied, is_rejection}
use kvflow.Worker.{
  WorkerState, TransferRequest, Call, Answer, answered, refused, Transferred, member, is_malformed,
  failure, late, gave_up, context_code, send_on, transfer_locked, transfer, refuse, find, dial,
  Conn, ContextError, String,
}

-- The answer is not one of the codes for a caller's mistake.
abbrev pub IsAccepted : {F : Type 0} → Answer F → Type 0
IsAccepted (answered t) = Unit
IsAccepted (refused code) = is_rejection code ≡ false

failure-accepted : (e : Option ContextError) → is_rejection (failure e) ≡ false
failure-accepted none = refl
failure-accepted (some late) = refl
failure-accepted (some gave_up) = refl

module _ {F : Type 0} where
  send_on-IsAccepted :
      (w : WorkerState) (addr : String) (c : Conn) (call : Call F)
      → IsAccepted (send_on w addr c call).answer
  unfolding send_on
  send_on-IsAccepted w addr c call = go call.sent refl
    where
      go : (s : Option F) → call.sent ≡ s → IsAccepted (send_on w addr c call).answer
      go none q = rw (q, send_on) (failure-accepted call.ended_sending)
      go (some t) q = rw (q, send_on) tt

  -- The four ways in which a call that holds the lock can go.
  pub transfer_locked_elim :
      (P : Transferred F → Type 0) (w : WorkerState) (addr : String) (call : Call F)
      → ((e : ContextError) → P (refuse w (context_code e)))
      → ((c : Conn) → find addr w.conns ≡ some c → P (send_on w addr c call))
      → (find addr w.conns ≡ none
          → P (send_on (dial w addr) addr (record { peer = addr; number = w.dialed }) call))
      → P (refuse w (failure call.ended_dialing))
      → P (transfer_locked w addr call)
  unfolding transfer_locked
  transfer_locked_elim P w addr call late_ reused dialed_ undialed =
      elim (Option-cases call.ended_waiting) [
        | inr (e, q) ↦ rw (q, transfer_locked) (late_ e)
        | inl q ↦ elim (Option-cases (find addr w.conns)) [
          | inr (c, z) ↦ rw (q, z, transfer_locked) (reused c z)
          | inl z ↦
              rw (q, z, transfer_locked)
                (elim call.dials
                  as (λ b. P (
                    if b
                    then send_on (dial w addr) addr (record { peer = addr; number = w.dialed }) call
                    else refuse w (failure call.ended_dialing))) [
                      | true ↦ dialed_ z
                      | false ↦ undialed
                    ])
        ]
      ]

  transfer_locked-IsAccepted :
      (w : WorkerState) (addr : String) (call : Call F)
      → IsAccepted (transfer_locked w addr call).answer
  transfer_locked-IsAccepted w addr call =
      transfer_locked_elim (λ t. IsAccepted t.answer) w addr call (λ e. failure-accepted (some e))
        (λ c z. send_on-IsAccepted w addr c call)
        (λ z. send_on-IsAccepted (dial w addr) addr _ call) (failure-accepted call.ended_dialing)

  -- `Transfer` answers InvalidArgument for a request without bytes or without a peer, and
  -- PermissionDenied for another request whose peer is not in the allowlist. Either way nothing is
  -- sent and the worker stays as it was. For every other request it answers neither.
  pub transfer_codes :
      (w : WorkerState) (r : TransferRequest) (call : Call F)
      → let t = transfer w r call in
        (is_malformed r ≡ true
          → (t.answer ≡ refused invalid_argument) × (t.used ≡ none) × (t.worker ≡ w))
        × (is_malformed r ≡ false
            → member r.peer_addr w.allowed ≡ false
            → (t.answer ≡ refused permission_denied) × (t.used ≡ none) × (t.worker ≡ w))
        × (is_malformed r ≡ false → member r.peer_addr w.allowed ≡ true → IsAccepted t.answer)
  unfolding transfer
  transfer_codes w r call = (
    λ m. rw (m, transfer) (refl, refl, refl),
    λ m a. rw (m, a, transfer) (refl, refl, refl),
    λ m a. rw (m, a, transfer) (transfer_locked-IsAccepted w r.peer_addr call),
  )
