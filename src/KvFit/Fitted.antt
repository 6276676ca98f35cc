-- ===== src/KvFit/Fitted.antt =====
-- What kvfit prints: a section for each selection that has a row, up to the first that has no line.
use mathlib.Core.List.{append_assoc, append-nil}
use kvflow.Prelude.{
  ◌≡◌, refl, sym, ap, Option, none, some, List, [], ◌∷◌, ◌++◌, Result, Error, ok, err, length, ◌==◌,
  arith, false,
}
use kvflow.Int.{ℤ}
use kvflow.Float64.{Float64}
use kvflow.XferCsv.{Row, parsed}
use kvflow.KvFit.{filter, fit}
use kvflow.KvFit.Sections.{
  Choice, Section, Exit, fatal, printed, choices, section_of, sections, main,
}

module _ {F : Type 0} ⦃fl : Float64 F⦄ (rows : List (Row F)) where
  abbrev selected : Choice → List (Row F)
  selected c = filter rows c.0 c.1

  -- The sections of these choices, in order: none of a selection without rows, and otherwise the one of
  -- the line through it.
  pub data Shows : List Choice → List (Section F) → Type 0 where
    shows_none : Shows [] []
    shows_skip :
        {c : Choice} {cs : List Choice} {ss : List (Section F)}
        → selected c ≡ []
        → Shows cs ss
        → Shows (c ∷ cs) ss
    shows_line :
        {c : Choice} {cs : List Choice} {ss : List (Section F)} {line : ℤ × F}
        → fit (selected c) ≡ some (ok line)
        → Shows cs ss
        → Shows (c ∷ cs) (section_of c (selected c) line ∷ ss)

  -- The sections of all choices are printed, or those of the choices before one whose rows have no line.
  pub data Ends (done : List (Section F)) (cs : List Choice) (x : Exit F) : Type 0 where
    ends_all : (ss : List (Section F)) → Shows cs ss → x ≡ printed (done ++ ss) → Ends done cs x
    ends_early :
        (before after : List Choice) (c : Choice) (ss : List (Section F)) (e : Error)
        → cs ≡ before ++ (c ∷ after)
        → Shows before ss
        → fit (selected c) ≡ some (err e)
        → x ≡ fatal e (done ++ ss)
        → Ends done cs x

  Ends-skip :
      {done : List (Section F)} {c : Choice} {cs : List Choice} {x : Exit F}
      → selected c ≡ []
      → Ends done cs x
      → Ends done (c ∷ cs) x
  Ends-skip none_kept (ends_all ss shown d) = ends_all ss (shows_skip none_kept shown) d
  Ends-skip {c = c} none_kept (ends_early before after bad ss e listed shown failed d) =
      ends_early (c ∷ before) after bad ss e (ap (λ l. c ∷ l) listed) (shows_skip none_kept shown)
        failed d

  Ends-line :
      {done : List (Section F)} {c : Choice} {cs : List Choice} {x : Exit F} {line : ℤ × F}
      → fit (selected c) ≡ some (ok line)
      → Ends (done ++ (section_of c (selected c) line ∷ [])) cs x
      → Ends done (c ∷ cs) x
  Ends-line {done = done} {c = c} {line = line} fitted (ends_all ss shown d) =
      let s : Section F = section_of c (selected c) line in
      ends_all (s ∷ ss) (shows_line fitted shown) (rw (append_assoc done (s ∷ []) ss) at d)
  Ends-line {done = done} {c = c} {line = line} fitted
        (ends_early before after bad ss e listed shown failed d) =
      let s : Section F = section_of c (selected c) line in
      ends_early (c ∷ before) after bad (s ∷ ss) e (ap (λ l. c ∷ l) listed)
        (shows_line fitted shown) failed (rw (append_assoc done (s ∷ []) ss) at d)

  some_kept : (r : Row F) (sel : List (Row F)) → (length (r ∷ sel) == 0) ≡ false
  some_kept r sel = ground arith

  has_line : (r : Row F) (sel : List (Row F)) → fit (r ∷ sel) ≡ none → ⊥
  unfolding fit
  has_line r sel e = ground (arith, e)

  -- One round, from what its selection and the line of it are.
  round-Ends :
      (done : List (Section F)) (c : Choice) (cs : List Choice) (sel : List (Row F))
      (line : Option (Result (ℤ × F)))
      → selected c ≡ sel
      → fit sel ≡ line
      → Ends done cs (sections rows done cs)
      → ((l : ℤ × F)
          → let more = done ++ (section_of c (selected c) l ∷ []) in
            Ends more cs (sections rows more cs))
      → Ends done (c ∷ cs) (sections rows done (c ∷ cs))
  unfolding sections
  round-Ends done c cs [] line kept fitted skipped next =
      Ends-skip kept (rw (kept, sections) skipped)
  round-Ends done c cs (r ∷ sel) none kept fitted skipped next = absurd (has_line r sel fitted)
  round-Ends done c cs (r ∷ sel) (some (err e)) kept fitted skipped next =
      let found : fit (selected c) ≡ some (err e) = rw kept fitted in
      let some_ : (length (selected c) == 0) ≡ false = rw kept (some_kept r sel) in
      ends_early [] cs c [] e refl shows_none found
        (rw (some_, found, sections) (ap (fatal e) (sym (append-nil done))))
  round-Ends done c cs (r ∷ sel) (some (ok l)) kept fitted skipped next =
      let found : fit (selected c) ≡ some (ok l) = rw kept fitted in
      let some_ : (length (selected c) == 0) ≡ false = rw kept (some_kept r sel) in
      Ends-line {line = l} found (rw (some_, found, sections) (next l))

  sections-Ends :
      (done : List (Section F)) (cs : List Choice) → Ends done cs (sections rows done cs)
  unfolding sections
  sections-Ends done [] = ends_all [] shows_none (ap printed (sym (append-nil done)))
  sections-Ends done (c ∷ cs) =
      round-Ends done c cs (selected c) (fit (selected c)) refl refl (sections-Ends done cs)
        (λ l. sections-Ends (done ++ (section_of c (selected c) l ∷ [])) cs)

  -- For all rows, `main` ends in the sections of the four choices, in order, none of a selection without
  -- rows and otherwise the one of the line through it; or in the error of the first selection whose rows
  -- have no line, after the sections of the choices before it. It never ends in an index out of range.
  pub main-Ends : Ends [] choices (main (parsed rows))
  unfolding main
  main-Ends = sections-Ends [] choices
