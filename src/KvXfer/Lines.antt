-- ===== src/KvXfer/Lines.antt =====
-- The lines that the transfers of a round print.
use mathlib.Core.Path.{subst}
use kvflow.KvXfer.{
  no_dial, no_send, after_send, timing, ltb, one_transfer, sent, one_round, and_then, Options, Link,
  Timing, Progress, Ran, RunError, ℕ, List, Option, length, ℤ, idle, pos,
}
use kvflow.Prelude.{
  [], ◌∷◌, suc, none, some, refl, inl, inr, true, false, ◌≡◌, ◌⊎◌, ◌*◌, ◌+◌, if◌then◌else◌, ◌++◌,
  get_elem?, arith, ◌&&◌, ◌∙◌, ap, ◌||◌, sym, if_keeps,
}

module _ {F : Type 0} (o : Options) (link : Link F) where
  -- The line of the transfer of index `k`: the next size of its round, in the time that it took.
  pub record IsLine (k : ℕ) (t : Timing F) : Type 0 where
    pub rounds_before : ℕ
    pub index : ℕ
    pub place : k ≡ rounds_before * length o.sizes + index
    pub size : get_elem? o.sizes index ≡ some t.size
    pub round : t.round ≡ pos (rounds_before + 1)
    pub mode : t.reuse ≡ o.reuse
    pub time : link.sends k ≡ some t.seconds

  abbrev pub Lines : ℕ → List (Timing F) → Type 0
  Lines k [] = Unit {0}
  Lines k (t ∷ ts) = IsLine k t × Lines (k + 1) ts

  -- Why the run stopped at the transfer of index `k`.
  abbrev pub Cause : ℕ → Option RunError → Type 0
  Cause k none = Unit {0}
  Cause k (some no_dial) = link.dials k ≡ false
  Cause k (some no_send) = link.sends k ≡ none

  abbrev pub shared : ℕ
  shared = if o.reuse then 1 else 0

  pub shared_one : o.reuse ≡ true → shared ≡ 1
  shared_one e = rw e refl

  pub shared_none : o.reuse ≡ false → shared ≡ 0
  shared_none e = rw e refl

  -- After `k` transfers: their lines are printed, and every connection but a shared one is closed.
  pub record IsSettled (k : ℕ) (p : Progress F) : Type 0 where
    pub heading : p.has_heading ≡ true
    pub count : length p.printed ≡ k
    pub lines : Lines 0 p.printed
    pub balance : p.closed + shared ≡ p.dialed

  -- Before a transfer: one connection is open.
  record IsReady (k : ℕ) (p : Progress F) : Type 0 where
    heading : p.has_heading ≡ true
    count : length p.printed ≡ k
    lines : Lines 0 p.printed
    balance : p.closed + 1 ≡ p.dialed

  pub record IsSound (k : ℕ) (r : Ran F) : Type 0 where
    pub state : IsSettled k r.progress
    pub cause : Cause k r.error

  Lines-append :
      (k : ℕ) (ts : List (Timing F)) (t : Timing F)
      → Lines k ts
      → IsLine (k + length ts) t
      → Lines k (ts ++ (t ∷ []))
  Lines-append k [] t h l =
      let same : k + 0 ≡ k = omega arith in (subst (λ n. IsLine n t) same l, tt)
  Lines-append k (x ∷ xs) t (h, hs) l =
      let same : k + length (x ∷ xs) ≡ k + 1 + length xs = omega arith in
      (h, Lines-append (k + 1) xs t hs (subst (λ n. IsLine n t) same l))

  length-snoc : (ts : List (Timing F)) (t : Timing F) → length (ts ++ (t ∷ [])) ≡ length ts + 1
  length-snoc [] t = refl
  length-snoc (x ∷ xs) t = omega (arith, length-snoc xs t)

  -- A part of the run that ended well after `k` transfers, or earlier with an error.
  abbrev pub Went : ℕ → Ran F → Type 0
  Went k r =
      ((r.error ≡ none) × IsSound k r)
      ⊎ ((e : RunError) × (m : ℕ) × (r.error ≡ some e) × IsSound m r)

  after_send-IsSettled : (k : ℕ) (p : Progress F) → IsReady k p → IsSettled k (after_send o link p)
  after_send-IsSettled k p h =
      if_keeps (IsSettled k) o.reuse
        (λ e. record {
          heading = h.heading;
          count = h.count;
          lines = h.lines;
          balance = omega (arith, h.balance, shared_one e);
        })
        (λ e. record {
          heading = h.heading;
          count = h.count;
          lines = h.lines;
          balance = omega (arith, h.balance, shared_none e);
        })

  idle-IsSettled :
      (k round i : ℕ) (p : Progress F) → IsSettled k p → IsSettled k (idle o link round i p)
  idle-IsSettled k round i p h =
      if_keeps (IsSettled k) (o.has_gap && (ltb 1 round || ltb 0 i))
        (λ e. record { heading = h.heading; count = h.count; lines = h.lines; balance = h.balance })
        (λ e. h)

  sent_lem :
      (k q i : ℕ) (n : ℤ) (p : Progress F) (x : Option F)
      → k ≡ q * length o.sizes + i
      → get_elem? o.sizes i ≡ some n
      → IsReady k p
      → link.sends k ≡ x
      → Went (k + 1) (sent o link (suc q) n p x)
  sent_lem k q i n p none place at h e =
      inr (no_send, k, refl, record { state = after_send-IsSettled k p h; cause = e })
  sent_lem k q i n p (some x) place at h e =
      let s = after_send-IsSettled k p h in
      let ts = (after_send o link p).printed in
      let t = timing o link (suc q) n x in
      let l : IsLine (length ts) t = record {
        rounds_before = q;
        index = i;
        place = s.count ∙ place;
        size = at;
        round = ap pos (omega arith);
        mode = refl;
        time = ap link.sends s.count ∙ e;
      } in
      inl (
        refl,
        record {
          state = record {
            heading = s.heading;
            count = length-snoc ts t ∙ omega (arith, s.count);
            lines = Lines-append 0 ts t s.lines (subst (λ m. IsLine m t) (omega arith) l);
            balance = s.balance;
          };
          cause = tt;
        },
      )

  one_transfer_lem :
      (k q i : ℕ) (n : ℤ) (p : Progress F)
      → k ≡ q * length o.sizes + i
      → get_elem? o.sizes i ≡ some n
      → IsSettled k p
      → Went (k + 1) (one_transfer o link k (suc q) i n p)
  unfolding one_transfer
  one_transfer_lem k q i n p place at h =
      let s = idle-IsSettled k (suc q) i p h in
      if_keeps (Went (k + 1)) o.reuse
        (λ e.
          sent_lem k q i n _ (link.sends k) place at
            (record {
              heading = s.heading;
              count = s.count;
              lines = s.lines;
              balance = omega (arith, s.balance, shared_one e);
            })
            refl)
        (λ e.
          if_keeps (Went (k + 1)) (link.dials k)
            (λ d.
              sent_lem k q i n _ (link.sends k) place at
                (record {
                  heading = s.heading;
                  count = s.count;
                  lines = s.lines;
                  balance = omega (arith, s.balance, shared_none e);
                })
                refl)
            (λ d. inr (no_dial, k, refl, record { state = s; cause = d })))

  Went-and_then :
      (k k' : ℕ) (r : Ran F) (next : Progress F → Ran F)
      → Went k r
      → (IsSettled k r.progress → Went k' (next r.progress))
      → Went k' (and_then r next)
  Went-and_then k k' r next (inl (e, s)) then_ =
      subst (λ x. Went k' (elim x [ some _ ↦ r | none ↦ next r.progress ])) (sym e) (then_ s.state)
  Went-and_then k k' r next (inr (e, m, stop, s)) then_ =
      subst (λ x. Went k' (elim x [ some _ ↦ r | none ↦ next r.progress ])) (sym stop)
        (inr (e, m, stop, s))

  pub one_round_lem :
      (k q i : ℕ) (ns : List ℤ) (p : Progress F)
      → k ≡ q * length o.sizes + i
      → ((j : ℕ) (n : ℤ) → get_elem? ns j ≡ some n → get_elem? o.sizes (i + j) ≡ some n)
      → IsSettled k p
      → Went (k + length ns) (one_round o link k (suc q) i ns p)
  unfolding one_round
  one_round_lem k q i [] p place at h =
      let same : k ≡ k + 0 = omega arith in
      inl (refl, record { state = subst (λ m. IsSettled m p) same h; cause = tt })
  one_round_lem k q i (n ∷ ns) p place at h =
      let here : i + 0 ≡ i = omega arith in
      let first = subst (λ j. get_elem? o.sizes j ≡ some n) here (at 0 n refl) in
      let later : (j : ℕ) (x : ℤ)
          → get_elem? ns j ≡ some x
          → get_elem? o.sizes (i + 1 + j) ≡ some x =
        λ j x e.
          let same : i + suc j ≡ i + 1 + j = omega arith in
          subst (λ j'. get_elem? o.sizes j' ≡ some x) same (at (suc j) x e) in
      let total : k + 1 + length ns ≡ k + length (n ∷ ns) = omega arith in
      let next = one_round o link (k + 1) (suc q) (i + 1) ns in
      let r = one_transfer o link k (suc q) i n p in
      Went-and_then (k + 1) (k + length (n ∷ ns)) r next (one_transfer_lem k q i n p place first h)
        (λ s.
          subst (λ m. Went m (next r.progress)) total
            (one_round_lem (k + 1) q (i + 1) ns r.progress (omega (arith, place)) later s))
