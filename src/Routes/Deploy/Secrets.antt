-- ===== src/Routes/Deploy/Secrets.antt =====
-- routes/benchmarks.py and routes/runs.py: the Secret that a deploy asks for, as its record says it,
-- and as a run reads it back.
use Prim.Native.Char.{Char, code}
use autobench.Prelude.{
  String, ◌⧺◌, Bool, true, false, ◌≡◌, refl, ap, ◌∙◌, Option, none, some, eqb, truthy, arith,
  if◌then◌else◌,
}
use autobench.Models.Workload.{SecretKeyRef}
use autobench.Routes.Start.{ok, split_once, deployed_key}
use autobench.Routes.Deploy.{partition, parse_key_secret, asked_secret, default_key, key_text}
use text.Mathlib.TextLemmas.{nil-append, cons-append}

-- A text before a colon has none.
pub no_colon : String → Bool
no_colon String.[] = true
no_colon (String.◌∷◌ c rest) = if eqb (code c) 58 then false else no_colon rest

split_once_colon :
    (name key : String) → no_colon name ≡ true → split_once (name ⧺ (":" ⧺ key)) ≡ some (name, key)
unfolding no_colon split_once
split_once_colon String.[] key h = ap split_once (
    nil-append (":" ⧺ key)
    ∙ (cons-append ":" String.[] key ∙ ap (λ (t : String). String.◌∷◌ ":" t) (nil-append key)))
split_once_colon (String.◌∷◌ c rest) key h =
    ap split_once (cons-append c rest (":" ⧺ key)) ∙ ground (arith, split_once_colon rest key)

abbrev Plain : Option (String × String) → String → Type 0
Plain none ref = no_colon ref ≡ true
Plain (some (name, key)) ref = no_colon name ≡ true

Plain-step :
    (here : Bool) (c : Char) (rest : String) (found : Option (String × String))
    → eqb (code c) 58 ≡ here
    → Plain found rest
    → Plain
        (if here then some ("", rest) else elim found [
          | none ↦ none
          | some (before, after) ↦ some (String.◌∷◌ c before, after)
        ])
        (String.◌∷◌ c rest)
unfolding no_colon
Plain-step true c rest found h p = refl
Plain-step false c rest none h p = rw h p
Plain-step false c rest (some (before, after)) h p = rw h p

split_once-Plain : (ref : String) → Plain (split_once ref) ref
unfolding no_colon split_once
split_once-Plain String.[] = refl
split_once-Plain (String.◌∷◌ c rest) =
    Plain-step (eqb (code c) 58) c rest (split_once rest) refl (split_once-Plain rest)

-- The name before the colon has no colon.
partition_plain : (ref : String) → no_colon (partition ref).name ≡ true
unfolding partition
partition_plain ref = of (split_once ref) (split_once-Plain ref)
  where
    of :
        (found : Option (String × String))
        → Plain found ref
        → no_colon
            (elim found as (λ _. SecretKeyRef) [
              | none ↦ record { name = ref; key = "apikey" }
              | some (name, key) ↦ record {
                name = name;
                key = if truthy key then key else "apikey";
              }
            ]).name
          ≡ true
    of none p = p
    of (some (name, key)) p = p

-- The Secret of a deploy: the one that it has asked for, or the default one.
abbrev pub secret_of : Option SecretKeyRef → SecretKeyRef
secret_of none = default_key
secret_of (some ref) = ref

abbrev pub PlainSecret : Option SecretKeyRef → Type 0
PlainSecret none = Unit
PlainSecret (some ref) = no_colon ref.name ≡ true

default_back :
    (gateway model : String)
    → deployed_key
        (some (record { gateway = gateway; model = model; key_secret = "openai-secret:apikey" }))
      ≡ ok (some default_key)
unfolding deployed_key split_once
default_back gateway model = refl

-- What the record of a deploy with this Secret says is read back as the Secret.
pub deployed_key_back :
    (key_secret : Option SecretKeyRef) (gateway model : String)
    → PlainSecret key_secret
    → deployed_key
        (some (record { gateway = gateway; model = model; key_secret = key_text key_secret }))
      ≡ ok (some (secret_of key_secret))
unfolding deployed_key key_text
deployed_key_back none gateway model p = default_back gateway model
deployed_key_back (some ref) gateway model p =
    rw (split_once_colon ref.name ref.key p, deployed_key) refl

pub asked_plain :
    (is_secret_name is_secret_key : String → Bool) (asked : Option String)
    (key_secret : Option SecretKeyRef)
    → asked_secret is_secret_name is_secret_key asked ≡ ok key_secret
    → PlainSecret key_secret
unfolding asked_secret parse_key_secret
asked_plain is_secret_name is_secret_key none none h = tt
asked_plain is_secret_name is_secret_key none (some ref) h = cc
asked_plain is_secret_name is_secret_key (some text) none h = tt
asked_plain is_secret_name is_secret_key (some text) (some ref) h =
    ground (arith, partition_plain text)
