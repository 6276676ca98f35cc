-- ===== src/Xfer/Server/Rounds.antt =====
-- What a goroutine of `ServeAll` does, round by round.
use mathlib.Core.List.{append_assoc, append-nil}
use kvflow.Prelude.{
  ℕ, zero, suc, ◌+◌, ◌≤◌, ◌<◌, ◌≡◌, refl, sym, ap, ◌∙◌, Option, none, some, List, [], ◌∷◌, ◌++◌,
  length, length-append, Option-cases, inl, inr, arith,
}
use kvflow.Int.{ℤ}
use kvflow.Xfer.{
  NetError, Received, receive, transfer, finished, failed, returned, Service, serve_loop, serve,
}
use kvflow.Xfer.Receiving.{receive_shrinks}
use kvflow.Xfer.Server.{Peer, Goroutine, spawn, round}

-- What `Serve` does with a connection that is served alone.
abbrev pub alone : Peer → Service
alone p = serve p.reply_error p.bytes p.end

-- An ended goroutine has acknowledged and returned what `Serve` does of its connection alone. Another
-- has acknowledged a first part of it, and has run no more often than bytes arrive.
abbrev pub IsServed : Goroutine → Option (Option NetError) → Type 0
IsServed g (some e) = alone g.peer ≡ record { sizes = g.sizes; end = returned e }
IsServed g none =
    ((rest : List ℤ) × ((alone g.peer).sizes ≡ g.sizes ++ rest)) × (g.turns ≤ length g.peer.bytes)

abbrev pub after : List ℤ → Service → Service
after sizes s = record s { sizes = sizes ++ s.sizes }

-- What a goroutine does in all if it goes on alone, with so many rounds.
abbrev pub resumed : Goroutine → ℕ → Service
resumed g fuel =
    after g.sizes (serve_loop fuel (length g.sizes) g.peer.reply_error g.left g.peer.end)

-- The invariant of a goroutine.
abbrev pub Keeps : Goroutine → Option (Option NetError) → Type 0
Keeps g (some e) = alone g.peer ≡ record { sizes = g.sizes; end = returned e }
Keeps g none =
    (fuel : ℕ) × (length g.left < fuel)
    × (alone g.peer ≡ resumed g fuel)
    × (g.turns + length g.left ≤ length g.peer.bytes)

pub Keeps-IsServed : (g : Goroutine) (r : Option (Option NetError)) → Keeps g r → IsServed g r
Keeps-IsServed g (some e) h = h
Keeps-IsServed g none (fuel, _, same, few) = (
  (
    (serve_loop fuel (length g.sizes) g.peer.reply_error g.left g.peer.end).sizes,
    ap (λ s. s.sizes) same,
  ),
  omega arith,
)

pub spawn-Keeps : (p : Peer) → Keeps (spawn p) none
unfolding serve
spawn-Keeps p = (length p.bytes + 1, omega arith, refl, omega arith)

-- A round of a running goroutine, by what it reads and whether it can reply.
running_round :
    (g : Goroutine) (fuel : ℕ) (r : Received)
    → g.result ≡ none
    → receive g.left g.peer.end ≡ r
    → length g.left < suc fuel
    → alone g.peer ≡ resumed g (suc fuel)
    → g.turns + length g.left ≤ length g.peer.bytes
    → Keeps (round g) (round g).result
unfolding round serve_loop
running_round g fuel finished q e lt same few =
    rw (q, round, e) (same ∙ rw (e, serve_loop, append-nil g.sizes) refl)
running_round g fuel (failed x) q e lt same few =
    rw (q, round, e) (same ∙ rw (e, serve_loop, append-nil g.sizes) refl)
running_round g fuel (transfer n rest) q e lt same few =
    elim (Option-cases (g.peer.reply_error (length g.sizes))) [
      | inr (x, z) ↦ rw (q, round, e, z) (same ∙ rw (e, serve_loop, z, append-nil g.sizes) refl)
      | inl z ↦
          let shorter = receive_shrinks g.left g.peer.end e in
          let loop = λ (i : ℕ). serve_loop fuel i g.peer.reply_error rest g.peer.end in
          let count : length g.sizes + 1 ≡ length (g.sizes ++ (n ∷ [])) =
            sym (length-append g.sizes (n ∷ [])) in
          let moved : resumed g (suc fuel)
              ≡ after (g.sizes ++ (n ∷ [])) (loop (length g.sizes + 1)) =
            rw (e, serve_loop, z)
              (ap (λ l. record { sizes = l; end = (loop (length g.sizes + 1)).end })
                (sym (append_assoc g.sizes (n ∷ []) (loop (length g.sizes + 1)).sizes))) in
          rw (q, round, e, z, q)
            (
              fuel,
              omega arith,
              same ∙ moved ∙ ap (λ i. after (g.sizes ++ (n ∷ [])) (loop i)) count,
              omega arith,
            )
    ]

ended_round :
    (g : Goroutine) (e : Option NetError)
    → g.result ≡ some e
    → alone g.peer ≡ record { sizes = g.sizes; end = returned e }
    → Keeps (round g) (round g).result
unfolding round
ended_round g e q h = rw (q, round, q) h

pub round-Keeps : (g : Goroutine) → Keeps g g.result → Keeps (round g) (round g).result
round-Keeps g h = go g.result refl h
  where
    go :
        (r : Option (Option NetError)) → g.result ≡ r → Keeps g r → Keeps (round g) (round g).result
    go (some e) q h = ended_round g e q h
    go none q (zero, lt, same, few) = absurd (omega arith)
    go none q (suc fuel, lt, same, few) =
        running_round g fuel (receive g.left g.peer.end) q refl lt same few
