-- ===== src/MlflowReport/Download.antt =====
-- mlflow_report.py, `download_traces`: the pages of the list of traces, then the spans of each trace.
-- The server is an argument; `fuel` bounds the pages that are read.
pub mod Pages
use autobench.Prelude.{
  ℕ, zero, suc, String, ◌⧺◌, Bool, true, false, not, ◌&&◌, ◌||◌, Option, none, some, List, [], ◌∷◌,
  ◌++◌, ◌==◌, select, any, is_set, truthy, ltb, if◌then◌else◌,
}
use autobench.Prelude.Json.{Json, Fields, object, str, end, field, lookup}
use autobench.Prelude.Outcome.{Action, Outcome, Raised, return, raise, failure, pure, throw, ◌>>=◌}
use autobench.Models.Config.{MlflowConfig}
use autobench.MlflowReport.Spans.{RawSpan, Span, Trace, Clocks, transform_spans, given, root_span}

pub record TraceInfo : Type 0 where
  pub request_id : Option String
  pub status : Option String
  pub timestamp_ms : Option ℕ
  pub execution_time_ms : Option ℕ

pub record Page : Type 0 where
  pub traces : List TraceInfo
  pub next_page_token : Option String

-- What `_mlflow_get` sends.
pub record MlflowRequest : Type 0 where
  pub url : String
  pub authorization : String
  pub workspace : Option String

abbrev text_of : Option String → String
text_of none = "None"
text_of (some text) = text

unfoldable pub mlflow_request : MlflowConfig → String → String → MlflowRequest
mlflow_request cfg token path = record {
  url = text_of cfg.tracking_url ⧺ path;
  authorization = "Bearer " ⧺ token;
  workspace = if is_set cfg.workspace then cfg.workspace else none;
}

-- What `_mlflow_get` makes of the server's answers: a page, and the spans of a trace, with none for an
-- `httpx.HTTPError`. Any other exception is raised.
pub record Server (W : Type 0) : Type 0 where
  pub list_page : MlflowRequest → Action W Page
  pub get_spans : MlflowRequest → Action W (Option (List RawSpan))

-- `_is_long_enough`; both times are in milliseconds.
unfoldable pub is_long_enough : ℕ → TraceInfo → Bool
is_long_enough min_duration_ms t = elim t.execution_time_ms [
  | none ↦ true
  | some ms ↦ not (ltb ms min_duration_ms)
]

-- `since_ms is not None and ts is not None and ts < since_ms`
unfoldable pub is_before : Option ℕ → Option ℕ → Bool
is_before (some since) (some ts) = ltb ts since
is_before _ _ = false

-- The loop over one page: the traces that are kept, and whether the cutoff is reached.
unfoldable pub scan_page : Option ℕ → ℕ → List TraceInfo → List TraceInfo × Bool
scan_page since_ms min_duration_ms [] = ([], false)
scan_page since_ms min_duration_ms (t ∷ traces) =
    let (kept, reached) = scan_page since_ms min_duration_ms traces in
    if is_before since_ms t.timestamp_ms
    then ([], true)
    else if is_long_enough min_duration_ms t
    then (t ∷ kept, reached)
    else (kept, reached)

abbrev pub is_empty_page : List TraceInfo → Bool
is_empty_page [] = true
is_empty_page (_ ∷ _) = false

-- `reached_cutoff or not page_token or not traces`
unfoldable pub is_last : Bool → Page → Bool
is_last reached page = reached || not (is_set page.next_page_token) || is_empty_page page.traces

-- The path of a page of at most `_PAGE_SIZE` traces.
unfoldable pub page_path : String → Option String → String
page_path experiment_id page_token =
    let path = "/api/2.0/mlflow/traces?experiment_ids=" ⧺ (experiment_id ⧺ "&max_results=500") in
    if is_set page_token then path ⧺ ("&page_token=" ⧺ text_of page_token) else path

module _ {W : Type 0} (server : Server W) (cfg : MlflowConfig) (token : String) where
  -- The while loop; none is that the fuel has run out.
  unfoldable pub list_traces :
      Option ℕ → ℕ → ℕ → List TraceInfo → Option String → Action W (Option (List TraceInfo))
  list_traces since_ms min_duration_ms zero kept page_token = pure none
  list_traces since_ms min_duration_ms (suc fuel) kept page_token = do
    page ← server.list_page (mlflow_request cfg token (page_path cfg.experiment_id page_token))
    let scanned = scan_page since_ms min_duration_ms page.traces
    let more = list_traces since_ms min_duration_ms fuel (kept ++ scanned.0) page.next_page_token
    if is_last scanned.1 page then pure (some (kept ++ scanned.0)) else more

-- `t.get("status") in ("OK", "ERROR")`
unfoldable pub is_real : TraceInfo → Bool
is_real t = elim t.status [ none ↦ false | some status ↦ status == "OK" || status == "ERROR" ]

-- `d.get("metadata", {})`, and none where `get` fails on what is no dict
unfoldable pub dict_field : String → Fields → Option Fields
dict_field key fields = elim (lookup key fields) [
  | none ↦ some end
  | some (object d) ↦ some d
  | _ ↦ none
]

module _ {F : Type 0} where
  unfoldable pub has_root : List (Span F) → Bool
  has_root spans = any (λ s. s.name == root_span) spans

  -- A trace is kept if it has a root span.
  unfoldable pub keep_rooted : String → List (Span F) → List (Trace F) → List (Trace F)
  keep_rooted request_id spans others =
      if has_root spans then record { trace_id = request_id; spans = spans } ∷ others else others

  -- `exp == experiment_filter`, of a root span; none where its metadata is no dict.
  unfoldable pub is_of : String → Span F → Option Bool
  is_of experiment s = elim (dict_field "metadata" s.attributes) [
    | none ↦ none
    | some metadata ↦ elim (lookup "experiment_name" metadata) [
      | none ↦ some ("default" == experiment)
      | some (str exp) ↦ some (exp == experiment)
      | _ ↦ some false
    ]
  ]

  -- Whether the first root span of a trace is of the experiment.
  unfoldable pub first_root_is_of : String → List (Span F) → Option Bool
  first_root_is_of experiment [] = some false
  first_root_is_of experiment (s ∷ spans) =
      let later = first_root_is_of experiment spans in
      if s.name == root_span then is_of experiment s else later

  unfoldable pub filter_experiment : String → List (Trace F) → Outcome (List (Trace F))
  filter_experiment experiment [] = return []
  filter_experiment experiment (t ∷ traces) = elim (first_root_is_of experiment t.spans) [
    | none ↦ raise (failure "no attribute 'get'")
    | some keep ↦ elim (filter_experiment experiment traces) [
      | raise e ↦ raise e
      | return others ↦ return (if keep then t ∷ others else others)
    ]
  ]

  abbrev filtered : {W : Type 0} → Option String → List (Trace F) → Action W (List (Trace F))
  filtered none out s = (return out, s)
  filtered (some experiment) out s =
      if truthy experiment then (filter_experiment experiment out, s) else (return out, s)

  module _ {W : Type 0} (server : Server W) (cfg : MlflowConfig) (token : String)
      (clocks : Clocks F) where
    trace_path : String → String
    trace_path request_id = "/api/3.0/mlflow/traces/get?trace_id=" ⧺ request_id

    -- The answer for one trace, before those of the others: without spans it is left out.
    unfoldable pub kept_trace : String → Option (List RawSpan) → List (Trace F) → List (Trace F)
    kept_trace request_id none others = others
    kept_trace request_id (some raw_spans) others =
        keep_rooted request_id (transform_spans clocks raw_spans) others

    unfoldable pub fetch_traces : List TraceInfo → Action W (List (Trace F))
    unfolding trace_path
    fetch_traces [] = pure []
    fetch_traces (info ∷ infos) =
        let request_id = given "" info.request_id in
        let rest = fetch_traces infos in
        if truthy request_id
        then (do
          raw_spans ← server.get_spans (mlflow_request cfg token (trace_path request_id))
          others ← rest
          pure (kept_trace request_id raw_spans others))
        else rest

    -- `download_traces`; none is that the fuel has run out.
    unfoldable pub download_traces :
        Option String → Option ℕ → ℕ → ℕ → Action W (Option (List (Trace F)))
    download_traces experiment_filter since_ms min_duration_ms fuel = do
      listed ← list_traces server cfg token since_ms min_duration_ms fuel [] none
      elim listed [
        | none ↦ pure none
        | some kept ↦ do
          out ← fetch_traces (select is_real kept)
          traces ← filtered experiment_filter out
          pure (some traces)
      ]
