-- ===== src/Instances.antt =====
-- instances.py: the configurations of the instances, by their issuers.
use autobench.Prelude.{
  String, Option, none, some, List, [], ◌∷◌, map, is_some, if◌then◌else◌, ◌≡◌, arith, ◌==◌, eq_iff,
}
use autobench.Prelude.Dict.{Dict, get, put, get-put}
use autobench.Models.Config.{InstanceConfig}

-- `InstanceRegistry.load`: the files of the directory in the order of their names, each with the
-- configuration in it, or none where reading or validating it raises.
unfoldable pub load : Dict InstanceConfig → List (Option InstanceConfig) → Dict InstanceConfig
load by_iss [] = by_iss
load by_iss (none ∷ files) = load by_iss files
load by_iss (some cfg ∷ files) =
    load (if is_some (get cfg.iss by_iss) then by_iss else put cfg.iss cfg by_iss) files

-- `allowlist`
unfoldable pub allowlist : Dict InstanceConfig → List String
allowlist by_iss = map (λ e. e.0) by_iss

-- The first configuration of an issuer in the files.
abbrev pub first_of : String → List (Option InstanceConfig) → Option InstanceConfig
first_of iss [] = none
first_of iss (none ∷ files) = first_of iss files
first_of iss (some cfg ∷ files) = if cfg.iss == iss then some cfg else first_of iss files

abbrev or_later : Option InstanceConfig → Option InstanceConfig → Option InstanceConfig
or_later none later = later
or_later (some cfg) later = some cfg

load_lem :
    (iss : String) (by_iss : Dict InstanceConfig) (files : List (Option InstanceConfig))
    → get iss (load by_iss files) ≡ or_later (get iss by_iss) (first_of iss files)
unfolding load
load_lem iss by_iss [] = ground arith
load_lem iss by_iss (none ∷ files) = load_lem iss by_iss files
load_lem iss by_iss (some cfg ∷ files) = ground (
  arith,
  eq_iff cfg.iss iss,
  get-put cfg.iss iss cfg by_iss,
  load_lem iss by_iss files,
  load_lem iss (put cfg.iss cfg by_iss) files,
)

-- The registry that is loaded finds for an issuer the configuration of the first valid file with this
-- very issuer, and nothing for an issuer that no valid file has.
pub load_first :
    (iss : String) (files : List (Option InstanceConfig))
    → get iss (load [] files) ≡ first_of iss files
unfolding get
load_first iss files = load_lem iss [] files
