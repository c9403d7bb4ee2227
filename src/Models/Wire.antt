-- ===== src/Models/Wire.antt =====
-- models.py: the bodies in which the platform takes the requests for a tool and an agent.

use autobench.Prelude.{String, Bool, Option, none, some, List, [], ◌∷◌}
use autobench.Prelude.Text.{decimal}
use autobench.Prelude.Json.{
  Json, Items, Fields, bool, number, str, array, object, nil, cons, end, field, put_field,
}
use autobench.Models.Workload.{
  EnvVar, ServicePort, ResourceQuantities, AgentResources, AgentCreateRequest, ToolCreateRequest,
}

text_or_empty : Option String → String
text_or_empty none = ""
text_or_empty (some text) = text

-- `EnvVar.to_wire`
unfoldable pub to_wire : EnvVar → Json
unfolding text_or_empty
to_wire env = elim env.value_from [
  | none ↦ object (field "name" (str env.name) (field "value" (str (text_or_empty env.value)) end))
  | some ref ↦ object (
      field "name" (str env.name) (
        field "valueFrom"
          (object (
            field "secretKeyRef"
              (object (field "name" (str ref.name) (field "key" (str ref.key) end))) end))
          end))
]

unfoldable pub wire_envs : List EnvVar → Items
wire_envs [] = nil
wire_envs (env ∷ envs) = cons (to_wire env) (wire_envs envs)

wire_port : ServicePort → Json
wire_port p = object (
    field "name" (str p.name) (
      field "port" (number (decimal p.port)) (
        field "targetPort" (number (decimal p.target_port))
          (field "protocol" (str p.protocol) end))))

unfoldable pub wire_ports : List ServicePort → Items
unfolding wire_port
wire_ports [] = nil
wire_ports (p ∷ ports) = cons (wire_port p) (wire_ports ports)

wire_texts : List String → Items
wire_texts [] = nil
wire_texts (text ∷ texts) = cons (str text) (wire_texts texts)

-- `body[key] = value`, if there is a value
set_text : String → Option String → Fields → Fields
set_text key none body = body
set_text key (some text) body = put_field key (str text) body

-- `model_dump(exclude_none=True)`
quantities : ResourceQuantities → Fields
unfolding set_text
quantities q = set_text "memory" q.memory (set_text "cpu" q.cpu end)

set_quantities : String → Option ResourceQuantities → Fields → Fields
unfolding quantities
set_quantities key none body = body
set_quantities key (some q) body = elim (quantities q) [
  | end ↦ body
  | field k v rest ↦ put_field key (object (field k v rest)) body
]

-- `body.update(resources.to_rossoctl_fields())`, if there are resources
unfoldable pub set_resources : Option AgentResources → Fields → Fields
unfolding set_quantities
set_resources none body = body
set_resources (some resources) body =
    set_quantities "k8sResourceRequests" resources.requests
      (set_quantities "k8sResourceLimits" resources.limits body)

set_plugins : Option (List String) → Fields → Fields
unfolding wire_texts
set_plugins none body = body
set_plugins (some plugins) body = put_field "plugins" (array (wire_texts plugins)) body

-- The entries that both bodies begin with, before those in `rest`.
unfoldable pub common_body :
    (name namespace image_tag protocol framework deployment_method container_image
      workload_type : String)
    → List EnvVar
    → List ServicePort
    → Bool
    → Fields
    → Fields
common_body name namespace image_tag protocol framework deployment_method container_image
      workload_type env_vars service_ports create_http_route rest =
    field "name" (str name) (
      field "namespace" (str namespace) (
        field "gitUrl" (str "") (
          field "gitPath" (str "") (
            field "gitBranch" (str "") (
              field "imageTag" (str image_tag) (
                field "protocol" (str protocol) (
                  field "framework" (str framework) (
                    field "deploymentMethod" (str deployment_method) (
                      field "containerImage" (str container_image) (
                        field "workloadType" (str workload_type) (
                          field "envVars" (array (wire_envs env_vars)) (
                            field "servicePorts" (array (wire_ports service_ports))
                              (field "createHttpRoute" (bool create_http_route) rest)))))))))))))

-- `ToolCreateRequest.to_rossoctl_body`
unfoldable pub tool_body : ToolCreateRequest → Fields
unfolding set_text
tool_body req = set_text "imagePullPolicy" req.image_pull_policy (
    set_resources req.resources (
      common_body req.name req.namespace req.image_tag req.protocol req.framework
        req.deployment_method req.container_image req.workload_type req.env_vars req.service_ports
        req.create_http_route end))

-- `AgentCreateRequest.to_rossoctl_body`
unfoldable pub agent_body : AgentCreateRequest → Fields
unfolding set_text set_plugins
agent_body req = set_text "onError" req.on_error (
    set_plugins req.plugins (
      set_text "pluginPreset" req.plugin_preset (
        set_text "imagePullPolicy" req.image_pull_policy (
          set_resources req.resources (
            common_body req.name req.namespace req.image_tag req.protocol req.framework
              req.deployment_method req.container_image req.workload_type req.env_vars
              req.service_ports req.create_http_route
              (field "authBridgeEnabled" (bool req.authbridge_enabled)
                (field "spireEnabled" (bool req.spire_enabled) end)))))))
