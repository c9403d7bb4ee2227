-- ===== src/S3Export/Keys/Safe.antt =====
-- s3_export.py, `_safe`: the characters of a key's segment.
use Prim.Native.Char.{Char, code}
use autobench.Prelude.{String, Bool, true, false, ◌&&◌, ◌≡◌, refl, some, truthy, arith}
use autobench.Prelude.Text.{lstrip, rstrip}
use autobench.Benchmarks.Definition.{or_else}
use autobench.S3Export.Keys.{is_safe, collapse, strip_char, safe}

-- Every character is in `[A-Za-z0-9._-]`, so none is a slash.
unfoldable pub all_safe : String → Bool
all_safe String.[] = true
all_safe (String.◌∷◌ c rest) = is_safe (code c) && all_safe rest

dash_safe : is_safe (code "-") ≡ true
unfolding is_safe
dash_safe = refl

collapse_safe : (replaced : Bool) (text : String) → all_safe (collapse replaced text) ≡ true
unfolding all_safe collapse
collapse_safe replaced String.[] = refl
collapse_safe replaced (String.◌∷◌ c rest) =
    ground (arith, dash_safe, collapse_safe true rest, collapse_safe false rest)

rstrip_safe : (c : Char) (text : String) → all_safe text ≡ true → all_safe (rstrip c text) ≡ true
unfolding all_safe rstrip
rstrip_safe c String.[] h = refl
rstrip_safe c (String.◌∷◌ d rest) h = ground (arith, rstrip_safe c rest)

lstrip_safe : (c : Char) (text : String) → all_safe text ≡ true → all_safe (lstrip c text) ≡ true
unfolding all_safe lstrip
lstrip_safe c String.[] h = refl
lstrip_safe c (String.◌∷◌ d rest) h = ground (arith, lstrip_safe c rest)

unknown_safe : all_safe "unknown" ≡ true
unfolding all_safe is_safe
unknown_safe = refl

or_unknown :
    (text : String)
    → all_safe text ≡ true
    → (truthy (or_else (some text) "unknown") ≡ true)
      × (all_safe (or_else (some text) "unknown") ≡ true)
unfolding all_safe
or_unknown String.[] h = (refl, unknown_safe)
or_unknown (String.◌∷◌ c rest) h = (refl, h)

-- A segment of a key is not empty and has only characters of `[A-Za-z0-9._-]`, whatever text it comes
-- from.
pub safe_segment :
    (segment : String) → (truthy (safe segment) ≡ true) × (all_safe (safe segment) ≡ true)
unfolding safe
safe_segment segment =
    or_unknown (strip_char "-" (collapse false segment))
      (lstrip_safe "-" _ (rstrip_safe "-" _ (collapse_safe false segment)))
