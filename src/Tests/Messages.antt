-- ===== src/Tests/Messages.antt =====
-- Messages as they are published.
use autobench.Prelude.{String, Bool, false, ◌≡◌, refl, some, contains, any}
use autobench.Prelude.Json.{
  Json, Fields, str, array, object, null, nil, cons, end, field, lookup, set_field,
}
use autobench.PublicErrors.{
  classify, is_blank, causes, first_label, scrub_run_summary, scrub_key, set_clean, public_json,
  scrub_tasks, scrub_task, text_or_null, public_error, published,
}
use autobench.PublicErrors.Scrub.{PublicFound, PublicResults, scrub_run_summary_public}

-- The Service's own message for a task that ran out of its 503 seconds is filed under the gateway.
own_timeout_misfiled :
    classify (some "task exceeded per-task timeout of 503s") ≡ some "transport_gateway"
unfolding classify is_blank first_label causes contains any
own_timeout_misfiled = refl

own_timeout_filed : classify (some "task exceeded per-task timeout of 300s") ≡ some "task_timeout"
unfolding classify is_blank first_label causes contains any
own_timeout_filed = refl

abbrev message : String
message = "MCP tool error: connection refused by mcp.team1.svc.cluster.local"

abbrev shape_id : String → String
shape_id _ = "03deb26f"

abbrev is_zero : String → Bool
is_zero _ = false

abbrev task : Json → Json
task error = object (field "task_id" (str "0") (field "error" error end))

abbrev dump : Json → Json → Fields
dump error task_error =
    field "run_id" (str "run1")
      (field "results" (array (cons (task task_error) nil)) (field "error" error end))

abbrev clean : Fields
clean = dump null (str "mcp_tool_error (shape 03deb26f)")

scrubbed : scrub_run_summary shape_id is_zero (dump null (str message)) ≡ some clean
unfolding scrub_run_summary scrub_key lookup set_clean public_json set_field scrub_tasks scrub_task
    text_or_null public_error classify is_blank published first_label causes any contains
scrubbed = refl

scrub_run_summary_public_example :
    PublicFound shape_id is_zero (lookup "error" clean)
    × PublicResults shape_id is_zero (lookup "results" clean)
scrub_run_summary_public_example =
    scrub_run_summary_public shape_id is_zero (dump null (str message)) clean scrubbed
