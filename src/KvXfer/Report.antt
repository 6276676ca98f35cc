-- ===== src/KvXfer/Report.antt =====
-- How a run of transfers ends, and what it has printed and closed by then.
use mathlib.Core.Path.{subst}
use kvflow.KvXfer.{
  no_dial, is_done, Bool, close_shared, begin, run, not, Options, Link, Ran, RunError, ℕ, Option,
  length,
}
use kvflow.Prelude.{
  zero, suc, none, some, refl, inl, inr, true, false, ◌≡◌, ◌⊎◌, ◌*◌, ◌+◌, arith, ◌&&◌, sym,
  if_keeps, ◌<◌,
}
use kvflow.KvXfer.Lines.{Lines, Cause, shared, shared_one, shared_none, IsSettled, IsSound}
use kvflow.KvXfer.Rounds.{Ended, rounds_lem}

module _ {F : Type 0} (o : Options) (link : Link F) where
  -- The run stopped after so many full rounds, the first after which it was to.
  pub record IsFull (n : ℕ) (r : Ran F) : Type 0 where
    pub no_error : r.error ≡ none
    pub positive : 0 < n
    pub done : is_done o link n ≡ true
    pub not_before : (x : ℕ) → 0 < x → x < n → is_done o link x ≡ false
    pub count : length r.progress.printed ≡ n * length o.sizes

  -- How a run that had its shared connection, if it needs one, ended.
  pub record IsReport (r : Ran F) : Type 0 where
    pub heading : r.progress.has_heading ≡ true
    pub lines : Lines o link 0 r.progress.printed
    pub end :
        ((n : ℕ) × IsFull n r)
        ⊎ ((e : RunError) × (r.error ≡ some e) × Cause o link (length r.progress.printed) (some e))

  Cause-error :
      (m : ℕ) (r : Ran F) (e : RunError)
      → r.error ≡ some e
      → IsSound o link m r
      → Cause o link (length r.progress.printed) (some e)
  Cause-error m r e stop s =
      subst (λ n. Cause o link n (some e)) (sym s.state.count) (subst (Cause o link m) stop s.cause)

  Ended-IsReport :
      (r : Ran F)
      → Ended o link 0 r
      → IsReport r × (r.progress.closed + shared o link ≡ r.progress.dialed)
  Ended-IsReport r (inl (n, d)) =
      let s = d.sound.state in
      (
        record {
          heading = s.heading;
          lines = s.lines;
          end = inl (
            n,
            record {
              no_error = d.no_error;
              positive = d.after;
              done = d.done;
              not_before = d.not_before;
              count = s.count;
            },
          );
        },
        s.balance,
      )
  Ended-IsReport r (inr (e, m, stop, s)) = (
    record {
      heading = s.state.heading;
      lines = s.state.lines;
      end = inr (e, stop, Cause-error m r e stop s);
    },
    s.state.balance,
  )

  IsReport-close :
      (r : Ran F)
      → IsReport r
      → r.progress.closed + shared o link ≡ r.progress.dialed
      → IsReport (close_shared o link r)
        × ((close_shared o link r).progress.closed ≡ (close_shared o link r).progress.dialed)
  IsReport-close r h b =
      if_keeps (λ x. IsReport x × (x.progress.closed ≡ x.progress.dialed)) o.reuse
        (λ e. (
          record { heading = h.heading; lines = h.lines; end = moved h.end },
          omega (arith, b, shared_one o link e),
        ))
        (λ e. (h, omega (arith, b, shared_none o link e)))
    where
      moved :
          ((n : ℕ) × IsFull n r)
            ⊎ ((e : RunError) × (r.error ≡ some e)
                × Cause o link (length r.progress.printed) (some e))
          → let r' = record r { progress = record r.progress { closed = r.progress.closed + 1 } } in
            ((n : ℕ) × IsFull n r')
            ⊎ ((e : RunError) × (r'.error ≡ some e)
                × Cause o link (length r'.progress.printed) (some e))
      moved (inl (n, d)) = inl (
        n,
        record {
          no_error = d.no_error;
          positive = d.positive;
          done = d.done;
          not_before = d.not_before;
          count = d.count;
        },
      )
      moved (inr stop) = inr stop

  begin-IsSettled : IsSettled o link 0 (begin o link)
  begin-IsSettled = record { heading = refl; count = refl; lines = tt; balance = omega arith }

  -- Whether the run needs a shared connection that cannot be dialed.
  abbrev pub is_unconnected : Bool
  is_unconnected = o.reuse && not (link.dials 0)

  abbrev pub Returns : Option (Ran F) → Type 0
  Returns x =
      (r : Ran F) × (x ≡ some r)
      × (r.progress.closed ≡ r.progress.dialed)
      × (((is_unconnected ≡ true) × (r.error ≡ some no_dial) × (r.progress.has_heading ≡ false))
          ⊎ ((is_unconnected ≡ false) × IsReport r))

  -- A run that is to stop after some round returns within so many rounds, and has closed every connection
  -- that it dialed. If it needs a shared connection and cannot dial it, it prints nothing. Otherwise it
  -- prints the heading and, for each transfer in order, its round, its size and the time that it took: for
  -- all sizes of every round up to the first after which it was to stop, or, with an error, for the
  -- transfers before the one whose dial or send failed.
  pub run_ends : (last : ℕ) → 0 < last → is_done o link last ≡ true → Returns (run o link last)
  unfolding run
  run_ends zero pos_ done = absurd (omega arith)
  run_ends (suc d) pos_ done =
      if_keeps Returns is_unconnected (λ e. (_, refl, refl, inl (e, refl, refl)))
        (λ e.
          let start =
            subst (λ n. IsSettled o link n (begin o link)) (omega arith) begin-IsSettled in
          let (r, ran, end) =
            rounds_lem o link (suc d) 0 (begin o link) start d (omega arith)
              (subst (λ n. is_done o link n ≡ true) (omega arith) done) in
          let (report, balance) = Ended-IsReport r end in
          let (report', balance') = IsReport-close r report balance in
          (close_shared o link r, rw ran refl, balance', inr (e, report')))
