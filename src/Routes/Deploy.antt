-- ===== src/Routes/Deploy.antt =====
-- routes/benchmarks.py: the deploy, the status and the teardown of a benchmark, with `parse_key_secret`
-- of models.py. The platform's client is an argument, and so are the two expressions that a Secret's
-- name and key are checked by.
pub mod Recorded
pub mod Secrets
pub mod Teardown
use autobench.Prelude.{
  ℕ, String, ◌⧺◌, Bool, true, false, not, ◌&&◌, ◌||◌, Option, none, some, List, [], ◌∷◌, eqb,
  is_some, is_set, truthy, ◌==◌, if◌then◌else◌,
}
use autobench.Prelude.Dict.{get}
use autobench.Prelude.Json.{Json, Fields, object}
use autobench.Models.Run.{DeploymentLlm}
use autobench.Models.Config.{InstanceConfig}
use autobench.Models.Workload.{
  SecretKeyRef, WorkloadLlmConfig, AgentCreateRequest, ToolCreateRequest,
}
use autobench.Benchmarks.Env.{LlmBase, require_llm_base, effective_llm}
use autobench.Benchmarks.Definition.{
  BenchmarkDefinition, Format, or_else, resolve_model, tool_name, agent_name,
}
use autobench.Benchmarks.Requests.{AgentOptions, build_tool_request, build_agent_request}
use autobench.Benchmarks.Catalog.{benchmarks}
use autobench.Deployments.{Key, DeploymentRecords}
use autobench.Deployments
use autobench.Routes.Platform.{
  Reply, replied, refused, broken, http_status, DeployBenchmarkRequest, DeployBenchmarkResponse,
  BenchmarkStatusResponse, Platform, State, Handler, go_on, calling,
}
use autobench.Routes.Start.{Answer, ok, http_error, raised, split_once, is_ready}

-- `ref.partition(":")`, the key `apikey` where there is none.
unfoldable pub partition : String → SecretKeyRef
partition ref = elim (split_once ref) [
  | none ↦ record { name = ref; key = "apikey" }
  | some (name, key) ↦ record { name = name; key = if truthy key then key else "apikey" }
]

module _ (is_secret_name is_secret_key : String → Bool) where
  -- `parse_key_secret`; none is the ValueError.
  unfoldable pub parse_key_secret : String → Option SecretKeyRef
  parse_key_secret ref =
      let parsed = partition ref in
      if is_secret_name parsed.name && is_secret_key parsed.key then some parsed else none

  -- The Secret that a deploy asks for, if it does.
  unfoldable pub asked_secret : Option String → Answer (Option SecretKeyRef)
  asked_secret none = ok none
  asked_secret (some ref) =
      if truthy ref
      then elim (parse_key_secret ref) [
        | none ↦ raised "ValueError"
        | some parsed ↦ ok (some parsed)
      ]
      else ok none

has_plugins : DeployBenchmarkRequest → Bool
has_plugins req =
    is_set req.plugin_preset
    || elim req.plugins [ none ↦ false | some [] ↦ false | some (_ ∷ _) ↦ true ]
    || is_set req.on_error

abbrev pub dict_of : Json → Option Fields
dict_of (object fields) = some fields
dict_of _ = none

-- The checks of a deploy, in their order.
unfoldable pub deploy_guard :
    String
    → BenchmarkDefinition
    → DeployBenchmarkRequest
    → Option WorkloadLlmConfig
    → Answer (Unit {0})
unfolding has_plugins
deploy_guard name defn req own_llm =
    if not (is_some (get req.agent defn.agents))
    then http_error 404 ("unknown agent '" ⧺ (req.agent ⧺ ("' for benchmark '" ⧺ (name ⧺ "'"))))
    else if is_set req.plugin_config_file
    then http_error 422
        "plugin_config_file is a local filesystem path with no HTTP analog and is not supported by this Service. Use plugin_preset (auth-only|ibac-only|full) with optional per-plugin plugins=[\"NAME:POLICY\"] and on_error overrides instead."
    else if has_plugins req && not req.authbridge_enabled
    then http_error 422
        "plugin_preset/plugins/on_error require authbridge_enabled=true: the AuthBridge sidecar must be injected for its plugin pipeline to take effect."
    else if is_set req.llm_api_base && not (is_set req.llm_gateway)
    then http_error 422
        "llm_api_base requires llm_gateway: a label the artifacts publish in its place"
    else elim (require_llm_base (effective_llm own_llm req.llm_api_base)) [
      | LlmBase.present ↦ ok tt
      | LlmBase.missing ↦
          http_error 422
            "instance config is missing workload_llm.api_base: the LLM gateway must be set per instance because no default is correct for every cluster — each reaches its own OpenAI-compatible LLM or LiteLLM service, and a cluster on the Internet cannot route to one on an intranet. Set workload_llm.api_base in the instance file, then restart the Service — or pass llm_api_base (with llm_gateway) on this deploy."
    ]

-- `DEFAULT_KEY_SECRET`, `DEFAULT_KEY_SECRET_KEY`
abbrev pub default_key : SecretKeyRef
default_key = record { name = "openai-secret"; key = "apikey" }

-- `f"{secret_name}:{secret_key}"` of the Secret, or of the default one
unfoldable pub key_text : Option SecretKeyRef → String
key_text none = "openai-secret:apikey"
key_text (some ref) = ref.name ⧺ (":" ⧺ ref.key)

own_label : Option WorkloadLlmConfig → Option String
own_label none = none
own_label (some llm) = llm.gateway_label

module _ {W : Type 0} (platform : Platform W) (format : Format)
    (is_secret_name is_secret_key : String → Bool) (own : InstanceConfig) where
  abbrev pub key_for : String → DeployBenchmarkRequest → Key
  key_for name req = record {
    iss = own.iss;
    namespace = req.namespace;
    benchmark = name;
    agent = req.agent;
    experiment = req.experiment;
  }

  unfoldable pub gateway_for : DeployBenchmarkRequest → String
  unfolding own_label
  gateway_for req = or_else req.llm_gateway (or_else (own_label own.workload_llm) "default")

  unfoldable pub options_for : DeployBenchmarkRequest → Option SecretKeyRef → AgentOptions
  unfolding gateway_for
  options_for req key_secret = record {
    namespace = req.namespace;
    model = req.model;
    experiment = req.experiment;
    otel = own.workload_otel;
    authbridge_enabled = req.authbridge_enabled;
    llm = effective_llm own.workload_llm req.llm_api_base;
    plugin_preset = req.plugin_preset;
    plugins = req.plugins;
    on_error = req.on_error;
    agent_runner = own.workload_agent_runner;
    key_secret = key_secret;
    gateway = some (gateway_for req);
  }

  unfoldable pub deployed_llm :
      BenchmarkDefinition → DeployBenchmarkRequest → Option SecretKeyRef → DeploymentLlm
  unfolding gateway_for
  deployed_llm defn req key_secret = record {
    gateway = gateway_for req;
    model = resolve_model defn req.model (effective_llm own.workload_llm req.llm_api_base);
    key_secret = key_text key_secret;
  }

  abbrev recorded : Key → DeploymentLlm → State W → State W
  recorded key llm s = record s { deployments = Deployments.put key llm s.deployments }

  -- `DeployBenchmarkResponse(…)`, whose model asks for a dict from either reply.
  unfoldable pub deploy_response :
      String
      → DeployBenchmarkRequest
      → DeploymentLlm
      → ToolCreateRequest
      → AgentCreateRequest
      → Option Fields
      → Option Fields
      → Answer DeployBenchmarkResponse
  deploy_response name req llm tool_req agent_req (some tool) (some agent) = ok record {
    benchmark = name;
    namespace = req.namespace;
    tool_name = tool_req.name;
    agent_name = agent_req.name;
    tool = tool;
    agent = agent;
    llm = some llm;
  }
  deploy_response name req llm tool_req agent_req tool agent = raised "ValidationError"

  -- The tool and the agent are created, then the deployment is recorded, and then the response made.
  unfoldable pub create_workloads :
      String
      → BenchmarkDefinition
      → DeployBenchmarkRequest
      → Option SecretKeyRef
      → ToolCreateRequest
      → AgentCreateRequest
      → Handler W DeployBenchmarkResponse
  create_workloads name defn req key_secret tool_req agent_req =
      calling (platform.create_tool tool_req) λ tool.
        calling (platform.create_agent agent_req) λ agent s. (
          deploy_response name req (deployed_llm defn req key_secret) tool_req agent_req
              (dict_of tool) (dict_of agent),
          recorded (key_for name req) (deployed_llm defn req key_secret) s,
        )

  unfoldable pub deploy_checked :
      String
      → BenchmarkDefinition
      → DeployBenchmarkRequest
      → Answer (Unit {0})
      → Answer (Option SecretKeyRef)
      → Handler W DeployBenchmarkResponse
  unfolding options_for
  deploy_checked name defn req (ok _) (ok key_secret) s =
      elim (build_agent_request format defn (options_for req key_secret) req.agent) [
        | none ↦ (raised "KeyError", s)
        | some agent_req ↦
            create_workloads name defn req key_secret
              (build_tool_request defn req.namespace req.model
                (effective_llm own.workload_llm req.llm_api_base) key_secret
                (some (gateway_for req)))
              agent_req s
      ]
  deploy_checked name defn req (ok _) (http_error status detail) s = (http_error status detail, s)
  deploy_checked name defn req (ok _) (raised text) s = (raised text, s)
  deploy_checked name defn req (http_error status detail) secret s = (http_error status detail, s)
  deploy_checked name defn req (raised text) secret s = (raised text, s)

  -- `_definition`
  abbrev pub with_definition :
      {A : Type 0} → String → (BenchmarkDefinition → Handler W A) → Handler W A
  with_definition name next s = elim (get name benchmarks) [
    | none ↦ (http_error 404 ("unknown benchmark: " ⧺ name), s)
    | some defn ↦ next defn s
  ]

  unfoldable pub deploy_benchmark :
      String → DeployBenchmarkRequest → Handler W DeployBenchmarkResponse
  deploy_benchmark name req = with_definition name λ defn.
      deploy_checked name defn req (deploy_guard name defn req own.workload_llm)
        (asked_secret is_secret_name is_secret_key req.llm_key_secret)

  unfoldable pub benchmark_status :
      String → String → String → String → Handler W BenchmarkStatusResponse
  benchmark_status name namespace agent experiment = with_definition name λ _.
      calling (platform.get_tool namespace (tool_name name)) λ tool.
        calling (platform.get_agent namespace (agent_name name agent experiment)) λ agent_res s. (
          ok record {
            benchmark = name;
            namespace = namespace;
            tool_name = tool_name name;
            agent_name = agent_name name agent experiment;
            tool_ready = is_ready tool;
            agent_ready = is_ready agent_res;
            tool_status = tool;
            agent_status = agent_res;
          },
          s,
        )

  -- The record goes first, whatever the platform then says.
  unfoldable pub forget_and_delete : String → String → String → String → Handler W (Unit {0})
  forget_and_delete name namespace agent experiment s =
      calling (platform.delete_agent namespace (agent_name name agent experiment))
        (λ _. calling (platform.delete_tool namespace (tool_name name)) λ _ t. (ok tt, t))
        (record s {
          deployments =
              Deployments.drop
                (record {
                  iss = own.iss;
                  namespace = namespace;
                  benchmark = name;
                  agent = agent;
                  experiment = experiment;
                })
                s.deployments;
        })

  unfoldable pub teardown_benchmark : String → String → String → String → Handler W (Unit {0})
  teardown_benchmark name namespace agent experiment =
      with_definition name λ _. forget_and_delete name namespace agent experiment
