-- ===== src/Reference/Causelib/Labelled.antt =====
-- reference/causelib.py, `cause`: the labels that it can give.
use autobench.Prelude.{
  String, Bool, true, Option, none, some, List, [], ◌∷◌, ◌≡◌, refl, arith, map, any, all, ◌==◌,
  contains, Bool-cases, inl, inr, select,
}
use autobench.Prelude.Dict.{Dict, get, put}
use autobench.Reference.Causelib.{
  legacy, slug_labels, labels, get_or, slug_of, label_of, first_label, parse_scrubbed, or_nothing,
  cause,
}

-- A label of the list that a generator iterates.
abbrev pub is_listed : String → Bool
is_listed label = any (λ l. l == label) labels

all_tail : (x : String) (xs : List String) → all is_listed (x ∷ xs) ≡ true → all is_listed xs ≡ true
unfolding all
all_tail x xs h = ground arith

all_head : (x : String) (xs : List String) → all is_listed (x ∷ xs) ≡ true → is_listed x ≡ true
unfolding all
all_head x xs h = ground arith

get-is_listed :
    (slug : String) (d : Dict String)
    → is_listed "other" ≡ true
    → all is_listed (map (λ e. e.1) d) ≡ true
    → is_listed (get_or "other" (get slug d)) ≡ true
unfolding get
get-is_listed slug [] other h = other
get-is_listed slug ((k, v) ∷ d) other h = elim (Bool-cases (k == slug)) [
  | inl e ↦ rw e (all_head v (map (λ e. e.1) d) h)
  | inr e ↦ rw e (get-is_listed slug d other (all_tail v (map (λ e. e.1) d) h))
]

first_label-is_listed :
    (rows : List (String × List String)) (text : String)
    → is_listed "other" ≡ true
    → all is_listed (map (λ row. row.0) rows) ≡ true
    → is_listed (first_label rows text) ≡ true
unfolding first_label
first_label-is_listed [] text other h = other
first_label-is_listed ((label, patterns) ∷ rows) text other h =
    elim (Bool-cases (any (contains text) patterns)) [
      | inl e ↦ rw e (all_head label (map (λ row. row.0) rows) h)
      | inr e ↦
          rw e (first_label-is_listed rows text other (all_tail label (map (λ row. row.0) rows) h))
    ]

other_listed : is_listed "other" ≡ true
unfolding labels any select put
other_listed = refl

slugs_listed : all is_listed (map (λ e. e.1) slug_labels) ≡ true
unfolding labels any all select put
slugs_listed = refl

legacy_listed : all is_listed (map (λ row. row.0) legacy) ≡ true
unfolding labels any all select put
legacy_listed = refl

-- Whatever the error, of either form or none at all, its label is one of LABELS.
pub cause_listed : (msg : Option String) → is_listed (cause msg) ≡ true
unfolding cause label_of
cause_listed msg =
    elim (parse_scrubbed msg)
      as (λ p.
        is_listed (elim p [
          | some parsed ↦ label_of (slug_of parsed)
          | none ↦ first_label legacy (or_nothing msg)
        ])
        ≡ true) [
          | none ↦ first_label-is_listed legacy (or_nothing msg) other_listed legacy_listed
          | some parsed ↦ get-is_listed (slug_of parsed) slug_labels other_listed slugs_listed
        ]
