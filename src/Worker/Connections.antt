-- ===== src/Worker/Connections.antt =====
-- Lookup and removal in the worker's map, and how often a connection occurs in a list.
use kvflow.Prelude.{
  [], ◌∷◌, none, some, refl, inl, inr, List, ℕ, ◌≡◌, Bool-cases, All, ap, if◌then◌else◌, ◌+◌, ◌++◌,
  arith, ◌==◌,
}
use mathlib.Core.Option.{some-injective}
use Prim.Native.String.{String}
use text.Mathlib.Text.{◌==◌ as str_eq}
use text.Mathlib.TextEquality.{eq_iff}
use kvflow.Worker.{Conn, find, remove}

abbrev pub values : List (String × Conn) → List Conn
values [] = []
values ((a, c) ∷ rest) = c ∷ values rest

-- Once for the connection with the number.
abbrev pub once : ℕ → Conn → ℕ
once n c = if c.number == n then 1 else 0

abbrev pub count : ℕ → List Conn → ℕ
count n [] = 0
count n (c ∷ cs) = once n c + count n cs

abbrev pub IsDistinct : List (String × Conn) → Type 0
IsDistinct [] = Unit
IsDistinct ((a, c) ∷ rest) = (find a rest ≡ none) × IsDistinct rest

pub count-append : (n : ℕ) (cs ds : List Conn) → count n (cs ++ ds) ≡ count n cs + count n ds
count-append n [] ds = omega arith
count-append n (c ∷ cs) ds = omega (arith, count-append n cs ds)

remove-none :
    (a : String) (conns : List (String × Conn)) → find a conns ≡ none → remove a conns ≡ conns
unfolding find remove
remove-none a [] h = refl
remove-none a ((b, d) ∷ rest) h = elim (Bool-cases (str_eq a b)) [
  | inl e ↦ cc (rw (e, find) at h)
  | inr e ↦ rw (e, remove) (ap (λ r. (b, d) ∷ r) (remove-none a rest (rw (e, find) at h)))
]

-- The map with a found connection is the rest and that connection.
pub count-remove :
    (n : ℕ) (a : String) (conns : List (String × Conn)) {c : Conn}
    → IsDistinct conns
    → find a conns ≡ some c
    → count n (values conns) ≡ once n c + count n (values (remove a conns))
unfolding find remove
count-remove n a [] d h = cc
count-remove n a ((b, d) ∷ rest) {c} (fresh, distinct) h = elim (Bool-cases (str_eq a b)) [
  | inl e ↦
      let same : d ≡ c = some-injective _ _ (rw (e, find) at h) in
      let gone : find a rest ≡ none = rw ((eq_iff a b).0 e) fresh in
      rw (e, remove, remove-none a rest gone, same) refl
  | inr e ↦
      let ih = count-remove n a rest distinct (rw (e, find) at h) in
      rw (e, remove) (omega (arith, ih))
]

find-remove :
    (a b : String) (conns : List (String × Conn))
    → find b conns ≡ none
    → find b (remove a conns) ≡ none
unfolding find remove
find-remove a b [] h = refl
find-remove a b ((x, d) ∷ rest) h = elim (Bool-cases (str_eq b x)) [
  | inl e ↦ cc (rw (e, find) at h)
  | inr e ↦
      let ih = find-remove a b rest (rw (e, find) at h) in
      elim (Bool-cases (str_eq a x)) [
        | inl f ↦ rw (f, remove) ih
        | inr f ↦ rw (f, remove, e, find) ih
      ]
]

pub remove-IsDistinct :
    (a : String) (conns : List (String × Conn)) → IsDistinct conns → IsDistinct (remove a conns)
unfolding remove
remove-IsDistinct a [] h = tt
remove-IsDistinct a ((b, d) ∷ rest) (fresh, distinct) = elim (Bool-cases (str_eq a b)) [
  | inl e ↦ rw (e, remove) (remove-IsDistinct a rest distinct)
  | inr e ↦ rw (e, remove) (find-remove a b rest fresh, remove-IsDistinct a rest distinct)
]

module _ (P : String × Conn → Type 0) where
  pub remove-All :
      (a : String) (conns : List (String × Conn)) → All P conns → All P (remove a conns)
  unfolding remove
  remove-All a [] h = tt
  remove-All a ((b, d) ∷ rest) (p, h) = elim (Bool-cases (str_eq a b)) [
    | inl e ↦ rw (e, remove) (remove-All a rest h)
    | inr e ↦ rw (e, remove) (p, remove-All a rest h)
  ]

  pub find-All :
      (a : String) (conns : List (String × Conn)) {c : Conn}
      → All P conns
      → find a conns ≡ some c
      → P (a, c)
  unfolding find
  find-All a [] h e = cc
  find-All a ((b, d) ∷ rest) {c} (p, h) e = elim (Bool-cases (str_eq a b)) [
    | inl t ↦
        let same : d ≡ c = some-injective _ _ (rw (t, find) at e) in rw ((eq_iff a b).0 t, ← same) p
    | inr f ↦ find-All a rest h (rw (f, find) at e)
  ]
