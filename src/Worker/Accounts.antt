-- ===== src/Worker/Accounts.antt =====
-- What holds of a worker between two calls, and what a call sends on.
use kvflow.Prelude.{
  [], ◌∷◌, none, some, refl, inl, inr, true, false, List, ℕ, ◌≡◌, arith, map, ◌≤◌, ◌+◌,
  if◌then◌else◌, ltb, All, Bool, Bool-cases,
}
use mathlib.Core.Path.{subst}
use mathlib.Core.Option.{some-injective}
use Prim.Native.String.{String}
use text.Mathlib.TextEquality.{eq_iff}
use kvflow.Worker.{
  WorkerState, TransferRequest, Call, Conn, Transferred, member, is_malformed, find, new_worker,
  dial, drop_conn, refuse, send_on, transfer_locked, transfer, close, context_code, failure, Code,
  is_dropped, invalid_argument, permission_denied,
}
use kvflow.Worker.Codes.{transfer_locked_elim}
use kvflow.Worker.Connections.{
  values, count, IsDistinct, count-append, count-remove, remove-IsDistinct, remove-All, find-All,
}

-- A connection stands in the map under the address that it was dialed to, which is allowed.
abbrev pub IsAddressed : List String → String × Conn → Type 0
IsAddressed allowed (a, c) = (c.peer ≡ a) × (member a allowed ≡ true)

-- Each connection that was dialed is in the map or was closed, once, and no other is.
pub record IsSound (w : WorkerState) : Type 0 where
  pub account :
      (n : ℕ) → count n (values w.conns) + count n w.closed ≡ (if ltb n w.dialed then 1 else 0)
  pub addressed : All (IsAddressed w.allowed) w.conns
  pub distinct : IsDistinct w.conns

pub new_worker-IsSound : (allowed : List String) → IsSound (new_worker allowed)
new_worker-IsSound allowed = record { account = λ n. ground arith; addressed = tt; distinct = tt }

dial-IsSound :
    (w : WorkerState) (addr : String)
    → IsSound w
    → find addr w.conns ≡ none
    → member addr w.allowed ≡ true
    → IsSound (dial w addr)
dial-IsSound w addr s absent allowed = record {
  account = λ n. ground (arith, s.account n);
  addressed = ((refl, allowed), s.addressed);
  distinct = (absent, s.distinct);
}

find-dial :
    (w : WorkerState) (addr : String)
    → find addr (dial w addr).conns ≡ some (record { peer = addr; number = w.dialed })
unfolding find
find-dial w addr = rw ((eq_iff addr addr).1 refl) refl

drop_conn-IsSound :
    (w : WorkerState) (addr : String) (c : Conn)
    → IsSound w
    → find addr w.conns ≡ some c
    → IsSound (drop_conn w addr c)
drop_conn-IsSound w addr c s found = record {
  account = λ n. omega (arith, s.account n, count-remove n addr w.conns s.distinct found);
  addressed = remove-All (IsAddressed w.allowed) addr w.conns s.addressed;
  distinct = remove-IsDistinct addr w.conns s.distinct;
}

count-values :
    (n : ℕ) (conns : List (String × Conn)) → count n (map (λ p. p.1) conns) ≡ count n (values conns)
count-values n [] = refl
count-values n ((a, c) ∷ rest) = omega (arith, count-values n rest)

pub close-IsSound : (w : WorkerState) → IsSound w → IsSound (close w)
unfolding close
close-IsSound w s = record {
  account = λ n. omega (
    arith,
    s.account n,
    count-append n (map (λ p. p.1) w.conns) w.closed,
    count-values n w.conns,
  );
  addressed = tt;
  distinct = tt;
}

-- What a call did that sent: it used a connection that was open, dialed to the peer of its request.
-- The connection stays in the map only if the send worked and the context had not ended.
pub record IsSend {F : Type 0} (w : WorkerState) (addr : String) (call : Call F) (c : Conn)
    (w' : WorkerState) : Type 0 where
  pub open_before : count c.number w.closed ≡ 0
  pub to_peer : c.peer ≡ addr
  pub peer_allowed : member addr w.allowed ≡ true
  pub kept_if_clean : is_dropped call ≡ false → find addr w'.conns ≡ some c
  pub closed_otherwise : is_dropped call ≡ true → count c.number w'.closed ≡ 1

module _ {F : Type 0} where
  -- After a call the worker is sound, closed no connection twice, and sent as `IsSend` says.
  abbrev pub Keeps : WorkerState → String → Call F → Transferred F → Type 0
  Keeps w addr call t =
      IsSound t.worker
      × ((n : ℕ) → count n w.closed ≤ count n t.worker.closed)
      × ((c : Conn) → t.used ≡ some c → IsSend w addr call c t.worker)

  refuse-Keeps :
      (w : WorkerState) (addr : String) (call : Call F) (code : Code)
      → IsSound w
      → Keeps w addr call (refuse w code)
  refuse-Keeps w addr call code s = (s, λ n. omega arith, λ c e. cc)

  kept :
      (w : WorkerState) (addr : String) (c : Conn) (call : Call F) (b : Bool)
      → is_dropped call ≡ b
      → IsSound w
      → find addr w.conns ≡ some c
      → let w' = if b then drop_conn w addr c else w in
        IsSound w' × ((n : ℕ) → count n w.closed ≤ count n w'.closed) × IsSend w addr call c w'
  kept w addr c call b e s found =
      let (peer, allowed) = find-All (IsAddressed w.allowed) addr w.conns s.addressed found in
      let fresh : count c.number w.closed ≡ 0 =
        ground (arith, s.account c.number, count-remove c.number addr w.conns s.distinct found) in
      by_drop b e peer allowed fresh
    where
      by_drop :
          (b : Bool)
          → is_dropped call ≡ b
          → c.peer ≡ addr
          → member addr w.allowed ≡ true
          → count c.number w.closed ≡ 0
          → let w' = if b then drop_conn w addr c else w in
            IsSound w' × ((n : ℕ) → count n w.closed ≤ count n w'.closed) × IsSend w addr call c w'
      by_drop true e peer allowed fresh = (
        drop_conn-IsSound w addr c s found,
        λ n. omega arith,
        record {
          open_before = fresh;
          to_peer = peer;
          peer_allowed = allowed;
          kept_if_clean = λ h. cc;
          closed_otherwise = λ h. ground arith;
        },
      )
      by_drop false e peer allowed fresh = (
        s,
        λ n. omega arith,
        record {
          open_before = fresh;
          to_peer = peer;
          peer_allowed = allowed;
          kept_if_clean = λ h. found;
          closed_otherwise = λ h. cc;
        },
      )

  send_on-Keeps :
      (w : WorkerState) (addr : String) (c : Conn) (call : Call F)
      → IsSound w
      → find addr w.conns ≡ some c
      → Keeps w addr call (send_on w addr c call)
  unfolding send_on
  send_on-Keeps w addr c call s found =
      let (s', grows, send) = kept w addr c call (is_dropped call) refl s found in
      (
        s',
        grows,
        λ d e.
            subst (λ x. IsSend w addr call x (send_on w addr c call).worker) (some-injective _ _ e)
              send,
      )

  transfer_locked-Keeps :
      (w : WorkerState) (addr : String) (call : Call F)
      → IsSound w
      → member addr w.allowed ≡ true
      → Keeps w addr call (transfer_locked w addr call)
  transfer_locked-Keeps w addr call s allowed =
      transfer_locked_elim (Keeps w addr call) w addr call
        (λ e. refuse-Keeps w addr call (context_code e) s)
        (λ c found. send_on-Keeps w addr c call s found)
        (λ absent.
          dialed w addr call
            (send_on (dial w addr) addr (record { peer = addr; number = w.dialed }) call)
            (send_on-Keeps (dial w addr) addr _ call (dial-IsSound w addr s absent allowed)
              (find-dial w addr)))
        (refuse-Keeps w addr call (failure call.ended_dialing) s)
    where
      dialed :
          (w : WorkerState) (addr : String) (call : Call F) (t : Transferred F)
          → Keeps (dial w addr) addr call t
          → Keeps w addr call t
      dialed w addr call t (s', grows, send) = (
        s',
        grows,
        λ c e.
            let h = send c e in
            record {
              open_before = h.open_before;
              to_peer = h.to_peer;
              peer_allowed = h.peer_allowed;
              kept_if_clean = h.kept_if_clean;
              closed_otherwise = h.closed_otherwise;
            },
      )

  pub transfer-Keeps :
      (w : WorkerState) (r : TransferRequest) (call : Call F)
      → IsSound w
      → Keeps w r.peer_addr call (transfer w r call)
  unfolding transfer
  transfer-Keeps w r call s = elim (Bool-cases (is_malformed r)) [
    | inl m ↦ rw (m, transfer) (refuse-Keeps w r.peer_addr call invalid_argument s)
    | inr m ↦ elim (Bool-cases (member r.peer_addr w.allowed)) [
      | inr a ↦ rw (m, a, transfer) (refuse-Keeps w r.peer_addr call permission_denied s)
      | inl a ↦ rw (m, a, transfer) (transfer_locked-Keeps w r.peer_addr call s a)
    ]
  ]
