-- ===== src/KvXfer/Output.antt =====
-- The output of `run`, read back by the parser of the CSV.
use kvflow.XferCsv.{Fields, Row, parse_rows, parse, parsed}
use kvflow.Float64.{Float64}
use kvflow.Prelude.{[], ◌∷◌, some, refl, true, ◌≡◌, ◌+◌, All}
use kvflow.KvXfer.{Timing, Progress, Verbs, line, output, ℕ, List, map}

module _ {F : Type 0} ⦃fl : Float64 F⦄ (verbs : Verbs F) (fields : Fields F) where
  -- What strconv gives of what fmt printed of a line: the Boolean and the round come back, the size reads
  -- as the float of it, and the seconds come back as rounded to six digits.
  pub record IsReadBack (rounded : F → F) (t : Timing F) : Type 0 where
    pub mode : fields.parse_bool (verbs.print_bool t.reuse) ≡ some t.reuse
    pub round : fields.atoi (verbs.print_int t.round) ≡ some t.round
    pub size : fields.parse_float (verbs.print_int t.size) ≡ some (fl.of_int t.size)
    pub time : fields.parse_float (verbs.print_seconds t.seconds) ≡ some (rounded t.seconds)

  abbrev pub row_of : (F → F) → Timing F → Row F
  row_of rounded t = record {
    reuse = t.reuse;
    round = t.round;
    bytes = fl.of_int t.size;
    seconds = rounded t.seconds;
  }

  parse_rows-lines :
      (rounded : F → F) (i : ℕ) (ts : List (Timing F))
      → All (IsReadBack rounded) ts
      → parse_rows fields i (map (line verbs) ts) ≡ parsed (map (row_of rounded) ts)
  unfolding parse_rows
  parse_rows-lines rounded i [] back = refl
  parse_rows-lines rounded i (t ∷ ts) (b, back) =
      rw (b.mode, b.round, b.size, b.time, parse_rows-lines rounded (i + 1) ts back) refl

  -- Where each printed line reads back, what `run` prints once it has a connection parses: into a row for
  -- each line, in order, with its mode, its round, its size as a float and its seconds as they were rounded.
  pub parse-output :
      (rounded : F → F) (p : Progress F)
      → p.has_heading ≡ true
      → All (IsReadBack rounded) p.printed
      → parse fields (output verbs p) ≡ parsed (map (row_of rounded) p.printed)
  unfolding parse
  parse-output rounded p h back = rw h (parse_rows-lines rounded 1 p.printed back)
