-- ===== src/KvReplay/Columns.antt =====
-- The columns of a replay.
use kvflow.KvReplay.{replay_row, replay, prediction}
use kvflow.XferCsv.{Row}
use kvflow.Learner.{Learner, observe_all}
use kvflow.Float64.{Float64}
use mathlib.Core.Option.{some-injective}
use kvflow.Prelude.{[], ◌∷◌, zero, suc, some, refl, List, map, ◌≡◌, ap, ℕ, get_elem?, take, ◌∙◌}

map-map :
    {A B C : Type 0} (f : B → C) (g : A → B) (xs : List A)
    → map f (map g xs) ≡ map (λ x. f (g x)) xs
map-map f g [] = refl
map-map f g (x ∷ xs) = ap (λ ys. f (g x) ∷ ys) (map-map f g xs)

module _ {F L : Type 0} ⦃fl : Float64 F⦄ (learner : Learner F L) where
  -- A learner after some rows.
  abbrev pub after : L → List (Row F) → L
  after l rows = observe_all learner.observe l (map (λ r. (r.bytes, r.seconds)) rows)

  replay_row_lem :
      (r : Row F) (ls : List L)
      → replay_row learner r ls
        ≡ (map (prediction learner r) ls, map (λ l. learner.observe l r.bytes r.seconds) ls)
  unfolding replay_row
  replay_row_lem r [] = refl
  replay_row_lem r (l ∷ ls) = rw (replay_row_lem r ls) refl

  -- The predictions for a row of a replay are, learner by learner, what each predicts of the transfer
  -- after it alone has seen the rows before, and only those.
  pub replay_lem :
      (rows : List (Row F)) (ls : List L) (i : ℕ) (r : Row F)
      → get_elem? rows i ≡ some r
      → get_elem? (replay learner rows ls) i
        ≡ some (map (λ l. prediction learner r (after l (take i rows))) ls)
  unfolding replay
  replay_lem [] ls i r e = cc
  replay_lem (x ∷ rows) ls zero r e =
      let same : x ≡ r = some-injective _ _ e in
      ap (λ p. some p.0) (replay_row_lem x ls) ∙ ap (λ y. some (map (prediction learner y) ls)) same
  replay_lem (x ∷ rows) ls (suc i) r e =
      let next : L → L = λ l. learner.observe l x.bytes x.seconds in
      ap (λ p. get_elem? (replay learner rows p.1) i) (replay_row_lem x ls)
      ∙ replay_lem rows (map next ls) i r e
      ∙ ap some (map-map (λ l. prediction learner r (after l (take i rows))) next ls)
