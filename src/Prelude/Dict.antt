-- ===== src/Prelude/Dict.antt =====
-- Python's dict with text keys, in insertion order: a key that is there keeps its place.
use Prim.Native.String.{String}
use mathlib.Core.Path.{◌≡◌, refl}
use mathlib.Core.Option.{Option, none, some}
use mathlib.Core.List.{List, [], ◌∷◌, ◌++◌, map}
use native.Mathlib.Omega.{arith}
use text.Mathlib.Text.{◌==◌}
use text.Mathlib.TextEquality.{eq_iff}
use autobench.Prelude.Tests.{if◌then◌else◌}

abbrev pub Dict {ℓ} : Type ℓ → Type ℓ
Dict V = List (String × V)

module _ {ℓ} {V : Type ℓ} where
  -- `d.get(key)`
  unfoldable pub get : String → Dict V → Option V
  get key [] = none
  get key ((k, v) ∷ rest) = if k == key then some v else get key rest

  -- `d[key] = value`
  unfoldable pub put : String → V → Dict V → Dict V
  put key value [] = (key, value) ∷ []
  put key value ((k, v) ∷ rest) =
      if k == key then (k, value) ∷ rest else (k, v) ∷ put key value rest

  -- `d.pop(key, None)`
  unfoldable pub pop : String → Dict V → Dict V
  pop key [] = []
  pop key ((k, v) ∷ rest) = let kept = pop key rest in if k == key then kept else (k, v) ∷ kept

  abbrev pub values : Dict V → List V
  values d = map (λ e. e.1) d

  pub get-put :
      (key k : String) (value : V) (d : Dict V)
      → get k (put key value d) ≡ (if key == k then some value else get k d)
  unfolding get put
  get-put key k value [] = refl
  get-put key k value ((i, v) ∷ rest) =
      ground (arith, eq_iff key k, eq_iff i key, eq_iff i k, get-put key k value rest)

  pub get-pop :
      (key k : String) (d : Dict V) → get k (pop key d) ≡ (if key == k then none else get k d)
  unfolding get pop
  get-pop key k [] = ground arith
  get-pop key k ((i, v) ∷ rest) =
      ground (arith, eq_iff key k, eq_iff i key, eq_iff i k, get-pop key k rest)

  -- A key that is not there is added at the end.
  pub put_new :
      (key : String) (value : V) (d : Dict V)
      → get key d ≡ none
      → put key value d ≡ d ++ (key, value) ∷ []
  unfolding get put
  put_new key value [] h = refl
  put_new key value ((i, v) ∷ rest) h = ground (arith, put_new key value rest)
