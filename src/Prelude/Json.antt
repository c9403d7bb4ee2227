-- ===== src/Prelude/Json.antt =====
-- JSON values as `json.loads` returns them. A number is its numeral.
use Prim.Native.String.{String}
use mathlib.Core.Path.{◌≡◌, refl}
use native.Mathlib.Omega.{arith}
use text.Mathlib.TextEquality.{eq_iff}
use mathlib.Core.Bool.{Bool, true, false, not}
use mathlib.Core.Option.{Option, none, some}
use text.Mathlib.Text.{◌==◌}
use autobench.Prelude.Tests.{truthy, if◌then◌else◌}

mutual
  pub data Json : Type 0 where
    null : Json
    bool : Bool → Json
    number : String → Json
    str : String → Json
    array : Items → Json
    object : Fields → Json

  pub data Items : Type 0 where
    nil : Items
    cons : Json → Items → Items

  pub data Fields : Type 0 where
    end : Fields
    field : String → Json → Fields → Fields

-- The last of equal keys counts: `json.loads` lets it overwrite the others.
unfoldable pub lookup : String → Fields → Option Json
lookup key end = none
lookup key (field k v rest) = elim (lookup key rest) [
  | some later ↦ some later
  | none ↦ if k == key then some v else none
]

-- `d.get(key, default)`
abbrev pub get_or : String → Json → Fields → Json
get_or key default fields = elim (lookup key fields) [ none ↦ default | some v ↦ v ]

-- `bool(value)`; `is_zero` says which numerals are 0.
abbrev pub truth : (String → Bool) → Json → Bool
truth is_zero null = false
truth is_zero (bool b) = b
truth is_zero (number n) = not (is_zero n)
truth is_zero (str s) = truthy s
truth is_zero (array nil) = false
truth is_zero (array (cons _ _)) = true
truth is_zero (object end) = false
truth is_zero (object (field _ _ _)) = true

-- `d[key] = value` for a key that is there, and what `lookup` finds afterwards.
unfoldable pub set_field : String → Json → Fields → Fields
set_field key value end = end
set_field key value (field k v rest) =
    let others = set_field key value rest in
    if k == key then field k value others else field k v others

pub lookup-set_field :
    (key k : String) (value : Json) (fields : Fields)
    → lookup k (set_field key value fields)
      ≡ elim (lookup k fields) [ none ↦ none | some old ↦ some (if key == k then value else old) ]
unfolding lookup set_field
lookup-set_field key k value end = refl
lookup-set_field key k value (field i v rest) =
    ground (arith, eq_iff key k, eq_iff i key, eq_iff i k, lookup-set_field key k value rest)

append_field : String → Json → Fields → Fields
append_field key value end = field key value end
append_field key value (field k v rest) = field k v (append_field key value rest)

-- `d[key] = value`, or `{**fields, key: value}`
unfoldable pub put_field : String → Json → Fields → Fields
unfolding append_field
put_field key value fields = elim (lookup key fields) [
  | none ↦ append_field key value fields
  | some old ↦ set_field key value fields
]
