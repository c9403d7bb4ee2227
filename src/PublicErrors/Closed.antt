-- ===== src/PublicErrors/Closed.antt =====
-- public_errors.py, `classify` and `public_error`: the categories that are published.
use autobench.Prelude.{
  String, Bool, true, false, ◌≡◌, ◌⊎◌, inl, inr, none, some, List, [], ◌∷◌, any, ◌==◌, eq_refl,
  Bool-cases, arith, if◌then◌else◌,
}
use autobench.Prelude.Json.{Json, null, str, truth}
use mathlib.Core.Path.{subst}
use mathlib.Core.Option.{some-injective}
use autobench.PublicErrors.{
  causes, labels_of, categories, first_label, classify, is_blank, published, public_error,
  public_json, text_or_null,
}

abbrev pub IsCategory : String → Type 0
IsCategory label = any (λ c. c == label) categories ≡ true

first_label_known :
    (table : List (String × List String)) (message : String)
    → any (λ c. c == first_label table message) (labels_of table) ≡ true
unfolding first_label labels_of any
first_label_known [] message = ground (arith, eq_refl "other")
first_label_known ((label, patterns) ∷ rest) message =
    ground (arith, eq_refl label, first_label_known rest message)

-- `classify` gives None for a blank message and a member of `CATEGORIES` for every other.
pub classify_total :
    (message : String)
    → ((is_blank message ≡ true) × (classify (some message) ≡ none))
      ⊎ ((is_blank message ≡ false)
          × (label : String) × (classify (some message) ≡ some label)
          × IsCategory label)
unfolding classify categories
classify_total message = elim (Bool-cases (is_blank message)) [
  | inl h ↦ inl (h, ground arith)
  | inr h ↦ inr (h, first_label causes message, ground arith, first_label_known causes message)
]

module _ (shape_id : String → String) where
  -- A value that tells of its message only the category and the shape.
  pub data IsPublic : Json → Type 0 where
    nothing : IsPublic null
    known :
        (category message : String)
        → IsCategory category
        → IsPublic (str (published category (shape_id message)))

  text_public :
      (blank : Bool) (label message : String)
      → IsCategory label
      → IsPublic (
          text_or_null (elim (if blank then none else some label) [
            | none ↦ none
            | some category ↦ some (published category (shape_id message))
          ]))
  unfolding text_or_null
  text_public true label message h = nothing
  text_public false label message h = known label message h

  IsPublic-text :
      (message : String) → IsPublic (text_or_null (public_error shape_id (some message)))
  unfolding public_error classify categories
  IsPublic-text message =
      text_public (is_blank message) (first_label causes message) message
        (first_label_known causes message)

  module _ (is_zero : String → Bool) where
    else_public :
        (b : Bool) (clean : Json) → (if b then none else some null) ≡ some clean → IsPublic clean
    else_public true clean h = ground arith
    else_public false clean h = subst IsPublic (some-injective _ _ h) nothing

    pub public_json-IsPublic :
        (value clean : Json) → public_json shape_id is_zero value ≡ some clean → IsPublic clean
    unfolding public_json
    public_json-IsPublic (str message) clean h =
        subst IsPublic (some-injective _ _ h) (IsPublic-text message)
    public_json-IsPublic value clean h = else_public (truth is_zero value) clean h
