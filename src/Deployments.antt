-- ===== src/Deployments.antt =====
-- deployments.py: what the LLM calls of each live deployment go to, by the deployment's key.
use autobench.Prelude.{
  String, Bool, true, ◌&&◌, ◌≡◌, refl, ◌∙◌, Option, none, some, List, [], ◌∷◌, ◌==◌, eq_iff,
  eq_refl, arith, if◌then◌else◌,
}
use autobench.Models.Run.{DeploymentLlm}

-- iss, namespace, benchmark, agent, experiment
pub record Key : Type 0 where
  pub iss : String
  pub namespace : String
  pub benchmark : String
  pub agent : String
  pub experiment : String

unfoldable pub same_key : Key → Key → Bool
same_key a b =
    a.iss == b.iss
    && a.namespace == b.namespace
    && a.benchmark == b.benchmark
    && a.agent == b.agent
    && a.experiment == b.experiment

abbrev pub DeploymentRecords : Type 0
DeploymentRecords = List (Key × DeploymentLlm)

unfoldable pub put : Key → DeploymentLlm → DeploymentRecords → DeploymentRecords
put key llm [] = (key, llm) ∷ []
put key llm ((k, v) ∷ rest) =
    let others = put key llm rest in if same_key k key then (k, llm) ∷ rest else (k, v) ∷ others

unfoldable pub get : Key → DeploymentRecords → Option DeploymentLlm
get key [] = none
get key ((k, v) ∷ rest) = let later = get key rest in if same_key k key then some v else later

unfoldable pub drop : Key → DeploymentRecords → DeploymentRecords
drop key [] = []
drop key ((k, v) ∷ rest) =
    let others = drop key rest in if same_key k key then others else (k, v) ∷ others

pub same_key_refl : (a : Key) → same_key a a ≡ true
unfolding same_key
same_key_refl a = ground (
  arith,
  eq_refl a.iss,
  eq_refl a.namespace,
  eq_refl a.benchmark,
  eq_refl a.agent,
  eq_refl a.experiment,
)

pub same_key-eq : (a b : Key) → same_key a b ≡ true → a ≡ b
unfolding same_key
same_key-eq a b h = ground (
  arith,
  eq_iff a.iss b.iss,
  eq_iff a.namespace b.namespace,
  eq_iff a.benchmark b.benchmark,
  eq_iff a.agent b.agent,
  eq_iff a.experiment b.experiment,
)

pub get-put :
    (key k : Key) (llm : DeploymentLlm) (records : DeploymentRecords)
    → get k (put key llm records) ≡ (if same_key key k then some llm else get k records)
unfolding get put
get-put key k llm [] = refl
get-put key k llm ((i, v) ∷ rest) = ground (
  arith,
  same_key-eq i key,
  same_key-eq i k,
  same_key-eq key k,
  same_key_refl k,
  same_key_refl key,
  get-put key k llm rest,
)

pub get-drop :
    (key k : Key) (records : DeploymentRecords)
    → get k (drop key records) ≡ (if same_key key k then none else get k records)
unfolding get drop
get-drop key k [] = ground arith
get-drop key k ((i, v) ∷ rest) = ground (
  arith,
  same_key-eq i key,
  same_key-eq i k,
  same_key-eq key k,
  same_key_refl k,
  same_key_refl key,
  get-drop key k rest,
)

-- What was put last under a key is found there.
pub get-put_same :
    (key : Key) (llm : DeploymentLlm) (records : DeploymentRecords)
    → get key (put key llm records) ≡ some llm
get-put_same key llm records = get-put key key llm records ∙ rw (same_key_refl key) refl
