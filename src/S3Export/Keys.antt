-- ===== src/S3Export/Keys.antt =====
-- s3_export.py: the keys and the urls of the objects.
pub mod Safe
use Prim.Native.Char.{Char, code}
use autobench.Prelude.{
  ℕ, String, ◌⧺◌, Bool, true, false, not, ◌&&◌, ◌||◌, Option, none, some, List, [], ◌∷◌, ◌++◌,
  select, eqb, leb, is_set, truthy, if◌then◌else◌,
}
use autobench.Prelude.Text.{lstrip, rstrip, join, without_prefix}
use autobench.Models.Config.{S3Config}
use autobench.Benchmarks.Definition.{or_else}

abbrev within : ℕ → ℕ → ℕ → Bool
within first last c = leb first c && leb c last

-- `[A-Za-z0-9._-]`
unfoldable pub is_safe : ℕ → Bool
is_safe c = within 65 90 c || within 97 122 c || within 48 57 c || eqb c 46 || eqb c 95 || eqb c 45

-- `_UNSAFE.sub("-", text)`; the flag says that the character before is replaced already.
unfoldable pub collapse : Bool → String → String
collapse replaced String.[] = String.[]
collapse replaced (String.◌∷◌ c rest) =
    let kept = collapse false rest in
    let dropped = collapse true rest in
    if is_safe (code c)
    then String.◌∷◌ c kept
    else if replaced
    then dropped
    else String.◌∷◌ "-" dropped

abbrev pub strip_char : Char → String → String
strip_char c text = lstrip c (rstrip c text)

-- `_safe`
unfoldable pub safe : String → String
safe segment = or_else (some (strip_char "-" (collapse false segment))) "unknown"

-- `re.sub(r"^https?://", "", iss)`
unfoldable pub without_scheme : String → String
without_scheme iss = elim (without_prefix "http://" iss) [
  | some rest ↦ rest
  | none ↦ elim (without_prefix "https://" iss) [ some rest ↦ rest | none ↦ iss ]
]

unfoldable pub source_key : String → String
source_key iss = safe (without_scheme iss)

prefix_parts : Option String → List String
prefix_parts none = []
prefix_parts (some prefix) = if truthy prefix then strip_char "/" prefix ∷ [] else []

unfoldable pub run_prefix : S3Config → String → String → String → String → String
unfolding prefix_parts
run_prefix cfg preferred_username source_iss benchmark run_id = join "/" (
    select truthy (
      prefix_parts cfg.prefix
      ++ safe preferred_username ∷ source_key source_iss ∷ safe benchmark ∷ safe run_id ∷ []))

-- A bucket that is None is `str(None)` in the url.
abbrev bucket_text : S3Config → String
bucket_text cfg = elim cfg.bucket [ none ↦ "None" | some bucket ↦ bucket ]

regional : S3Config → String → String
regional cfg key =
    "https://"
    ⧺ (bucket_text cfg ⧺ (".s3." ⧺ (or_else cfg.region "us-east-1" ⧺ (".amazonaws.com/" ⧺ key))))

unfoldable pub object_url : S3Config → String → String
unfolding regional
object_url cfg key = elim cfg.endpoint_url [
  | none ↦ regional cfg key
  | some endpoint ↦
      if truthy endpoint
      then rstrip "/" endpoint ⧺ ("/" ⧺ (bucket_text cfg ⧺ ("/" ⧺ key)))
      else regional cfg key
]
