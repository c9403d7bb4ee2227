-- ===== src/Rossoctl.antt =====
-- rossoctl/client.py and the routes that hand its answers on, routes/agents.py and routes/tools.py.
pub mod Client
use autobench.Prelude.{String, Option}
use autobench.Prelude.Json.{Json, str, array, object, nil, field, end}
use autobench.Prelude.Http.{Web}
use autobench.Models.Workload.{AgentCreateRequest, ToolCreateRequest}
use autobench.Models.Wire.{agent_body, tool_body}
use autobench.Auth.Access.{RossoctlClient}
use autobench.Routes.Start.{Answer, ok, http_error, raised}
use autobench.Routes.Platform.{Reply, replied, refused, broken, http_status}
use autobench.Rossoctl.Client

-- `except RossoctlError as exc: raise _http_error(exc)`
abbrev pub answered : {A : Type 0} → Reply A → Answer A
answered (replied a) = ok a
answered (refused status text) = http_error (http_status status) text
answered (broken text) = raised text

-- `{"items": …}`
abbrev items_of : {W : Type 0} → Reply Json × W → Reply Json × W
items_of (replied items, w) = (replied (object (field "items" items end)), w)
items_of (reply, w) = (reply, w)

abbrev handed_on : {W A : Type 0} → Reply A × W → Answer A × W
handed_on (reply, w) = (answered reply, w)

module _ {W : Type 0} (web : Web W) (repr : Json → String) (c : RossoctlClient) where
  -- routes/agents.py
  unfoldable pub list_agents : Option String → W → Answer Json × W
  list_agents namespace w = handed_on (items_of (Client.list_agents web repr c namespace w))

  unfoldable pub get_agent : String → String → W → Answer Json × W
  get_agent namespace name w = handed_on (Client.get_agent web repr c namespace name w)

  unfoldable pub create_agent : AgentCreateRequest → W → Answer Json × W
  create_agent req w = handed_on (Client.create_agent web repr c (object (agent_body req)) w)

  unfoldable pub delete_agent : String → String → W → Answer (Unit {0}) × W
  delete_agent namespace name w = handed_on (Client.delete_agent web repr c namespace name w)

  -- routes/tools.py
  unfoldable pub list_tools : Option String → W → Answer Json × W
  list_tools namespace w = handed_on (items_of (Client.list_tools web repr c namespace w))

  unfoldable pub get_tool : String → String → W → Answer Json × W
  get_tool namespace name w = handed_on (Client.get_tool web repr c namespace name w)

  unfoldable pub create_tool : ToolCreateRequest → W → Answer Json × W
  create_tool req w = handed_on (Client.create_tool web repr c (object (tool_body req)) w)

  unfoldable pub delete_tool : String → String → W → Answer (Unit {0}) × W
  delete_tool namespace name w = handed_on (Client.delete_tool web repr c namespace name w)
