-- ===== src/Routes/Deploy/Recorded.antt =====
-- routes/benchmarks.py and routes/runs.py: what a deploy records, and what a run reads back of it.
use autobench.Prelude.{String, ◌⧺◌, Bool, ◌≡◌, ◌⊎◌, inl, inr, refl, ap, ◌∙◌, Option, none, some}
use autobench.Prelude.Dict.{get}
use autobench.Prelude.Json.{Json, Fields}
use autobench.Models.Run.{DeploymentLlm}
use autobench.Models.Config.{InstanceConfig}
use autobench.Models.Workload.{SecretKeyRef, AgentCreateRequest, ToolCreateRequest}
use autobench.Benchmarks.Definition.{BenchmarkDefinition, Format, resolve_model}
use autobench.Benchmarks.Catalog.{benchmarks}
use autobench.Deployments
use autobench.Benchmarks.Env.{effective_llm}
use autobench.Benchmarks.Requests.{build_tool_request, build_agent_request}
use autobench.Deployments.{Key, DeploymentRecords, same_key, same_key_refl, get-put_same}
use autobench.Routes.Start.{Answer, ok, http_error, raised, deployed_key}
use autobench.Routes.Platform.{
  Reply, replied, refused, broken, DeployBenchmarkRequest, DeployBenchmarkResponse, Platform, State,
  go_on,
}
use autobench.Routes.Deploy.{
  gateway_for, options_for, asked_secret, key_for, deployed_llm, dict_of, deploy_response,
  create_workloads, deploy_checked, deploy_benchmark, deploy_guard,
}
use autobench.Routes.Deploy.Secrets.{secret_of, deployed_key_back, asked_plain}

module _ {W : Type 0} (platform : Platform W) (format : Format)
    (is_secret_name is_secret_key : String → Bool) (own : InstanceConfig) where
  -- The LLM is recorded, and a run reads the Secret back that the request asked for.
  abbrev pub Puts :
      String
      → DeployBenchmarkRequest
      → DeploymentRecords
      → DeploymentRecords
      → DeploymentLlm
      → Type 0
  Puts name req before after llm =
      (key_secret : Option SecretKeyRef) × (after
        ≡ Deployments.put (key_for platform format is_secret_name is_secret_key own name req) llm
            before)
      × (asked_secret is_secret_name is_secret_key req.llm_key_secret ≡ ok key_secret)
      × (deployed_key (
            Deployments.get (key_for platform format is_secret_name is_secret_key own name req)
              after)
          ≡ ok (some (secret_of key_secret)))

  -- The platform has replied to one of the two requests with what is no object.
  abbrev pub RepliesOdd : Type 0
  RepliesOdd =
      ((tool_req : ToolCreateRequest) × (w : W) × (reply : Json) × ((platform.create_tool tool_req
            w).0
          ≡ replied reply)
        × (dict_of reply ≡ none))
      ⊎ ((agent_req : AgentCreateRequest) × (w : W) × (reply : Json) × ((platform.create_agent
              agent_req w).0
            ≡ replied reply)
          × (dict_of reply ≡ none))

  -- What the end of a deploy says of the records.
  abbrev pub Recorded :
      String
      → DeployBenchmarkRequest
      → DeploymentRecords
      → Answer DeployBenchmarkResponse × State W
      → Type 0
  Recorded name req before (ok resp, s) =
      (llm : DeploymentLlm) × (resp.llm ≡ some llm) × Puts name req before s.deployments llm
  Recorded name req before (http_error status detail, s) = s.deployments ≡ before
  Recorded name req before (raised text, s) =
      (s.deployments ≡ before)
      ⊎ ((text ≡ "ValidationError")
          × RepliesOdd
          × ((llm : DeploymentLlm) × Puts name req before s.deployments llm))

  response-Recorded :
      (name : String) (req : DeployBenchmarkRequest) (before : DeploymentRecords)
      (llm : DeploymentLlm) (tool_req : ToolCreateRequest) (agent_req : AgentCreateRequest)
      (tool agent : Option Fields) (s : State W)
      → (tool ≡ none → RepliesOdd)
      → (agent ≡ none → RepliesOdd)
      → Puts name req before s.deployments llm
      → Recorded name req before (
        deploy_response platform format is_secret_name is_secret_key own name req llm tool_req
            agent_req tool agent,
        s,
      )
  unfolding deploy_response
  response-Recorded name req before llm tool_req agent_req (some tool) (some agent) s odd odd_agent
        puts =
      (llm, refl, puts)
  response-Recorded name req before llm tool_req agent_req (some tool) none s odd odd_agent puts =
      inr (refl, odd_agent refl, (llm, puts))
  response-Recorded name req before llm tool_req agent_req none agent s odd odd_agent puts =
      inr (refl, odd refl, (llm, puts))

  go_on-Recorded :
      {A : Type 0} (name : String) (req : DeployBenchmarkRequest) (before : DeploymentRecords)
      (reply : Reply A) (next : A → State W → Answer DeployBenchmarkResponse × State W)
      (s : State W)
      → s.deployments ≡ before
      → ((a : A) → reply ≡ replied a → Recorded name req before (next a s))
      → Recorded name req before (go_on reply next s)
  go_on-Recorded name req before (replied a) next s same go = go a refl
  go_on-Recorded name req before (refused status text) next s same go = same
  go_on-Recorded name req before (broken text) next s same go = inl same

  create-Recorded :
      (name : String) (defn : BenchmarkDefinition) (req : DeployBenchmarkRequest)
      (key_secret : Option SecretKeyRef) (tool_req : ToolCreateRequest)
      (agent_req : AgentCreateRequest) (s : State W)
      → asked_secret is_secret_name is_secret_key req.llm_key_secret ≡ ok key_secret
      → Recorded name req s.deployments (
          create_workloads platform format is_secret_name is_secret_key own name defn req key_secret
            tool_req agent_req s)
  unfolding create_workloads deployed_llm
  create-Recorded name defn req key_secret tool_req agent_req s asked =
      let key = key_for platform format is_secret_name is_secret_key own name req in
      go_on-Recorded name req s.deployments (platform.create_tool tool_req s.world).0 _ _ refl
        λ tool told.
          go_on-Recorded name req s.deployments
            (platform.create_agent agent_req (platform.create_tool tool_req s.world).1).0 _ _ refl
            λ agent answered.
              response-Recorded name req s.deployments
                (deployed_llm platform format is_secret_name is_secret_key own defn req key_secret)
                tool_req agent_req (dict_of tool) (dict_of agent) _
                (λ e. inl (tool_req, s.world, tool, told, e))
                (λ e. inr (agent_req, _, agent, answered, e))
                (
                  key_secret,
                  refl,
                  asked,
                  ap deployed_key (
                        get-put_same key
                          (deployed_llm platform format is_secret_name is_secret_key own defn req
                            key_secret)
                          s.deployments)
                      ∙ deployed_key_back key_secret
                          (gateway_for platform format is_secret_name is_secret_key own req)
                          (resolve_model defn req.model
                            (effective_llm own.workload_llm req.llm_api_base))
                          (asked_plain is_secret_name is_secret_key req.llm_key_secret key_secret
                            asked),
                )

  checked-Recorded :
      (name : String) (defn : BenchmarkDefinition) (req : DeployBenchmarkRequest)
      (guarded : Answer (Unit {0})) (secret : Answer (Option SecretKeyRef)) (s : State W)
      → asked_secret is_secret_name is_secret_key req.llm_key_secret ≡ secret
      → Recorded name req s.deployments (
          deploy_checked platform format is_secret_name is_secret_key own name defn req guarded
            secret s)
  unfolding deploy_checked
  checked-Recorded name defn req (ok _) (ok key_secret) s asked =
      elim (build_agent_request format defn
          (options_for platform format is_secret_name is_secret_key own req key_secret) req.agent)
        as (λ built. Recorded name req s.deployments (elim built [
          | none ↦ (raised "KeyError", s)
          | some agent_req ↦
              create_workloads platform format is_secret_name is_secret_key own name defn req
                key_secret
                (build_tool_request defn req.namespace req.model
                  (effective_llm own.workload_llm req.llm_api_base) key_secret
                  (some (gateway_for platform format is_secret_name is_secret_key own req)))
                agent_req s
        ])) [
          | none ↦ inl refl
          | some agent_req ↦ create-Recorded name defn req key_secret _ agent_req s asked
        ]
  checked-Recorded name defn req (ok _) (http_error status detail) s asked = refl
  checked-Recorded name defn req (ok _) (raised text) s asked = inl refl
  checked-Recorded name defn req (http_error status detail) secret s asked = refl
  checked-Recorded name defn req (raised text) secret s asked = inl refl

  -- A deploy that answers with a response has recorded the LLM of its response under its tenant,
  -- namespace, benchmark, agent and experiment, and nothing else; what a run then reads of that
  -- record is the Secret that `parse_key_secret` has found in the request, or `openai-secret` with
  -- `apikey` if the request names none. A deploy that is rejected with a status leaves the records as
  -- they were, and so does one that raises, except where the platform has replied with what is no
  -- object: then the response is not valid, and the LLM has been recorded in the same way.
  pub deploy_benchmark-Recorded :
      (name : String) (req : DeployBenchmarkRequest) (s : State W)
      → Recorded name req s.deployments
          (deploy_benchmark platform format is_secret_name is_secret_key own name req s)
  unfolding deploy_benchmark
  deploy_benchmark-Recorded name req s =
      elim (get name benchmarks)
        as (λ found. Recorded name req s.deployments (elim found [
          | none ↦ (http_error 404 ("unknown benchmark: " ⧺ name), s)
          | some defn ↦
              deploy_checked platform format is_secret_name is_secret_key own name defn req
                (deploy_guard name defn req own.workload_llm)
                (asked_secret is_secret_name is_secret_key req.llm_key_secret) s
        ])) [
          | none ↦ refl
          | some defn ↦
              checked-Recorded name defn req (deploy_guard name defn req own.workload_llm) _ s refl
        ]
