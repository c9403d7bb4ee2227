-- ===== src/Rossoctl/Client.antt =====
-- rossoctl/client.py: the requests of the client, and what it makes of the answers.
use autobench.Prelude.{
  ℕ, zero, suc, String, ◌⧺◌, Option, none, some, List, [], ◌∷◌, any, eqb, truthy, if◌then◌else◌,
}
use autobench.Prelude.Text.{decimal}
use autobench.Prelude.Json.{Json, Fields, array, object, nil, end, lookup}
use autobench.Prelude.Dict.{Dict}
use autobench.Prelude.Http.{Web, Request, Method, Response, Sent, answered, unsent}
use autobench.Routes.Platform.{Reply, replied, refused, broken}
use autobench.Auth.Access.{RossoctlClient, shown}

unfoldable pub request :
    (Json → String) → RossoctlClient → Method → String → Dict String → Option Json → Request
request repr c method path params body = record {
  method = method;
  url = c.base_url ⧺ path;
  headers = ("Authorization", "Bearer " ⧺ shown repr c.token) ∷ [];
  params = params;
  form = [];
  body = body;
}

abbrev pub http_code : ℕ → String
http_code status = "(HTTP " ⧺ (decimal status ⧺ ")")

-- What is read of an answer with one of the `accepted` statuses; any other is a `RossoctlError` with
-- the text that `failed` makes, and an `httpx.HTTPError` is none.
unfoldable pub on_status :
    {A : Type 0} → List ℕ → (Response → String) → (Response → Reply A) → Sent → Reply A
on_status accepted failed read (unsent text) = broken text
on_status accepted failed read (answered response) =
    if any (eqb response.status_code) accepted
    then read response
    else refused response.status_code (failed response)

abbrev with_code : String → Response → String
with_code what response = what ⧺ (" failed " ⧺ http_code response.status_code)

-- `resp.json()`
abbrev json_body : Option Json → Reply Json
json_body none = broken "the body is not JSON"
json_body (some body) = replied body

-- `data.get(key, default)` of a dict, and anything else as it is
abbrev unwrapped : (Fields → Json) → Reply Json → Reply Json
unwrapped read (replied (object fields)) = replied (read fields)
unwrapped read reply = reply

abbrev get_or : String → Json → Fields → Json
get_or key default fields = elim (lookup key fields) [ none ↦ default | some v ↦ v ]

abbrev items : Fields → Json
items fields = get_or "items" (array nil) fields

abbrev listed_under : Option String → Dict String
listed_under none = []
listed_under (some namespace) = if truthy namespace then ("namespace", namespace) ∷ [] else []

-- `text[:n]`
first_chars : ℕ → String → String
first_chars zero text = ""
first_chars (suc n) String.[] = ""
first_chars (suc n) (String.◌∷◌ c text) = String.◌∷◌ c (first_chars n text)

abbrev with_text : String → Response → String
with_text what response = with_code what response ⧺ (": " ⧺ first_chars 300 response.text)

-- `resp.json() if resp.content else {}`
created : Response → Reply Json
created response = if truthy response.text then json_body response.json else replied (object end)

module _ {W : Type 0} (web : Web W) (repr : Json → String) (c : RossoctlClient) where
  abbrev call : {A : Type 0} → Request → (Sent → Reply A) → W → Reply A × W
  call req read w = let (sent, after) = web.send req w in (read sent, after)

  unfoldable pub namespaces : W → Reply Json × W
  namespaces w =
      call (request repr c Method.get "/api/v1/namespaces" [] none)
        (on_status (200 ∷ []) (with_code "GET /api/v1/namespaces")
          (λ r. unwrapped (λ d. get_or "namespaces" (items d) d) (json_body r.json)))
        w

  -- The list of the workloads of one kind.
  listing : String → Option String → W → Reply Json × W
  listing path namespace w =
      call (request repr c Method.get path (listed_under namespace) none)
        (on_status (200 ∷ []) (with_code ("GET " ⧺ path)) (λ r. unwrapped items (json_body r.json)))
        w

  workload : String → String → String
  workload namespace name = namespace ⧺ ("/" ⧺ name)

  reading : String → String → String → String → W → Reply Json × W
  unfolding workload
  reading path kind namespace name w =
      call (request repr c Method.get (path ⧺ ("/" ⧺ workload namespace name)) [] none)
        (on_status (200 ∷ []) (with_code ("GET " ⧺ (kind ⧺ (" " ⧺ workload namespace name))))
          (λ r. json_body r.json))
        w

  creation : String → Json → W → Reply Json × W
  unfolding created first_chars
  creation path body w =
      call (request repr c Method.post path [] (some body))
        (on_status (200 ∷ 201 ∷ []) (with_text ("POST " ⧺ path)) created) w

  deletion : String → String → String → String → W → Reply (Unit {0}) × W
  unfolding workload
  deletion path kind namespace name w =
      call (request repr c Method.delete (path ⧺ ("/" ⧺ workload namespace name)) [] none)
        (on_status (200 ∷ 202 ∷ 204 ∷ [])
          (with_code ("DELETE " ⧺ (kind ⧺ (" " ⧺ workload namespace name)))) (λ r. replied tt))
        w

  unfoldable pub list_agents : Option String → W → Reply Json × W
  unfolding listing
  list_agents namespace w = listing "/api/v1/agents" namespace w

  unfoldable pub get_agent : String → String → W → Reply Json × W
  unfolding reading
  get_agent namespace name w = reading "/api/v1/agents" "agent" namespace name w

  unfoldable pub create_agent : Json → W → Reply Json × W
  unfolding creation
  create_agent body w = creation "/api/v1/agents" body w

  unfoldable pub delete_agent : String → String → W → Reply (Unit {0}) × W
  unfolding deletion
  delete_agent namespace name w = deletion "/api/v1/agents" "agent" namespace name w

  unfoldable pub list_tools : Option String → W → Reply Json × W
  unfolding listing
  list_tools namespace w = listing "/api/v1/tools" namespace w

  unfoldable pub get_tool : String → String → W → Reply Json × W
  unfolding reading
  get_tool namespace name w = reading "/api/v1/tools" "tool" namespace name w

  unfoldable pub create_tool : Json → W → Reply Json × W
  unfolding creation
  create_tool body w = creation "/api/v1/tools" body w

  unfoldable pub delete_tool : String → String → W → Reply (Unit {0}) × W
  unfolding deletion
  delete_tool namespace name w = deletion "/api/v1/tools" "tool" namespace name w
