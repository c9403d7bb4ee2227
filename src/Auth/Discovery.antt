-- ===== src/Auth/Discovery.antt =====
-- auth/discovery.py: the urls of an instance's Keycloak. `repr` prints a text as Python does.
use autobench.Prelude.{String, ◌⧺◌, none, some, truthy, if◌then◌else◌}
use autobench.Prelude.Text.{partition_on, before, rstrip}
use autobench.Models.Config.{InstanceConfig}
use autobench.Benchmarks.Definition.{or_else}
use autobench.Auth.{Checked, accepted, rejected}

pub record KeycloakEndpoints : Type 0 where
  pub realm : String
  pub jwks_url : String
  pub token_url : String

-- The urls of a realm under a base.
compose : String → String → KeycloakEndpoints
compose base realm =
    let prefix = rstrip "/" base ⧺ ("/realms/" ⧺ (realm ⧺ "/protocol/openid-connect")) in
    record { realm = realm; jwks_url = prefix ⧺ "/certs"; token_url = prefix ⧺ "/token" }

module _ (repr : String → String) where
  unfoldable pub endpoints_for : InstanceConfig → Checked KeycloakEndpoints
  unfolding compose
  endpoints_for instance_config = elim (partition_on "/realms/" instance_config.iss) [
    | none ↦ rejected ("iss missing '/realms/' segment: " ⧺ repr instance_config.iss)
    | some (iss_base, tail) ↦
        let realm = before "/" tail in
        if truthy realm
        then accepted (compose (or_else instance_config.keycloak_backchannel_url iss_base) realm)
        else rejected ("iss has empty realm: " ⧺ repr instance_config.iss)
  ]
