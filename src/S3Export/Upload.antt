-- ===== src/S3Export/Upload.antt =====
-- s3_export.py, `_put` and `_export_sync`: the objects of a run, built before any is uploaded, and
-- uploaded one after another with the manifest last. The S3 client, JSON and Parquet are arguments.
pub mod Order
use autobench.Prelude.{
  ℕ, ◌+◌, String, ◌⧺◌, Bool, true, false, Option, none, some, List, [], ◌∷◌, ◌++◌, map, ◌==◌,
  if◌then◌else◌,
}
use autobench.Prelude.Text.{decimal}
use autobench.Prelude.Json.{
  Json, Items, Fields, null, number, str, array, object, nil, cons, end, field, get_or,
}
use autobench.Prelude.Outcome.{
  Action, Outcome, Raised, return, raise, failure, pure, throw, try_except, ◌>>=◌, ◌>>◌,
}
use autobench.Models.Config.{S3Config}
use autobench.Models.Run.{RunArtifact}
use autobench.S3Export.Keys.{object_url}

-- `json.dumps(…, separators=(",", ":"))`, `.encode("utf-8")`, `_parquet_bytes`, `len` of bytes, and
-- `int(value or 0)` of a count.
pub record Codec (B : Type 0) : Type 0 where
  pub dumps : Json → String
  pub encode : String → B
  pub parquet : Items → Outcome B
  pub size : B → ℕ
  pub int_of : Json → ℕ

-- The arguments of `put_object`; the only ACL is public-read.
pub record Put (B : Type 0) : Type 0 where
  pub bucket : Option String
  pub key : String
  pub body : B
  pub content_type : String
  pub public_acl : Bool

pub record Plan (B : Type 0) : Type 0 where
  pub name : String
  pub format : String
  pub body : B

abbrev pub plan : {B : Type 0} → String → String → B → Plan B
plan name format body = record { name = name; format = format; body = body }

-- `_CTYPE[fmt]`
unfoldable pub content_type : String → String
content_type format =
    if format == "json"
    then "application/json"
    else if format == "ndjson"
    then "application/x-ndjson"
    else "application/vnd.apache.parquet"

abbrev pub lift : {W A : Type 0} → Outcome A → Action W A
lift result s = (result, s)

abbrev pub is_empty : Items → Bool
is_empty nil = true
is_empty (cons _ _) = false

-- `_TOKEN_KEYS`
abbrev token_keys : List String
token_keys =
    "task_id" ∷ "session_id" ∷ "benchmark_name" ∷ "agent_name" ∷ "model" ∷ "llm_gateway"
    ∷ "num_parallel" ∷ "experiment_name" ∷ "status" ∷ "start_time" ∷ "llm_count"
    ∷ "llm_input_tokens" ∷ "llm_output_tokens" ∷ []

-- `{k: r.get(k) for k in keys}`, and `rest` behind it
unfoldable pub project : List String → Fields → Fields → Fields
project [] r rest = rest
project (k ∷ keys) r rest = field k (get_or k null r) (project keys r rest)

module _ {B : Type 0} (codec : Codec B) where
  unfoldable pub token_row : Fields → Fields
  token_row r = project token_keys r (
      field "passed" (get_or "evaluation_result" null r) (
        field "llm_total_tokens"
          (number (
            decimal (
              codec.int_of (get_or "llm_input_tokens" (number "0") r)
              + codec.int_of (get_or "llm_output_tokens" (number "0") r))))
          end))

  -- `_token_rows`; what is no dict has no `get`.
  unfoldable pub token_rows : Items → Outcome Items
  token_rows nil = return nil
  token_rows (cons (object r) rest) = elim (token_rows rest) [
    | return rows ↦ return (cons (object (token_row r)) rows)
    | raise e ↦ raise e
  ]
  token_rows (cons _ rest) = raise (failure "no attribute 'get'")

  unfoldable pub ndjson_text : Items → String
  ndjson_text nil = ""
  ndjson_text (cons row rows) = codec.dumps row ⧺ ("\n" ⧺ ndjson_text rows)

  abbrev pub ndjson : String → Items → Plan B
  ndjson name rows = plan name "ndjson" (codec.encode (ndjson_text rows))

  -- What is planned whatever there is.
  unfoldable pub base_plans : Json → Items → Items → List (Plan B)
  base_plans run_summary records tokens =
      plan "run.json" "json" (codec.encode (codec.dumps run_summary))
      ∷ ndjson "report.ndjson" records
      ∷ ndjson "token_report.ndjson" tokens
      ∷ []

  unfoldable pub span_plans : Items → List (Plan B)
  span_plans spans = if is_empty spans then [] else ndjson "span_report.ndjson" spans ∷ []

  -- Parquet needs rows to infer a schema from.
  unfoldable pub report_parquet : {W : Type 0} → Items → Items → Action W (List (Plan B))
  report_parquet nil tokens = pure []
  report_parquet (cons row rows) tokens = do
    report ← lift (codec.parquet (cons row rows))
    token_report ← lift (codec.parquet tokens)
    pure (
        plan "report.parquet" "parquet" report
        ∷ plan "token_report.parquet" "parquet" token_report
        ∷ [])

  -- A failure here costs the span report's Parquet alone.
  unfoldable pub span_parquet : {W : Type 0} → Items → Action W (List (Plan B))
  span_parquet nil = pure []
  span_parquet (cons row rows) =
      try_except
        (do
          body ← lift (codec.parquet (cons row rows))
          pure (plan "span_report.parquet" "parquet" body ∷ []))
        (λ _. pure [])

  -- What `_export_sync` does before its first upload. `make_client` is the outcome of `_make_client`.
  unfoldable pub build_plans :
      {W : Type 0} → Outcome (Unit {0}) → Items → Json → Items → Action W (List (Plan B))
  build_plans make_client records run_summary spans = do
    lift make_client
    tokens ← lift (token_rows records)
    reports ← report_parquet records tokens
    span_report ← span_parquet spans
    pure (base_plans run_summary records tokens ++ (span_plans spans ++ (reports ++ span_report)))

  module _ (cfg : S3Config) (prefix : String) where
    -- `_ref`
    unfoldable pub artifact : Plan B → RunArtifact
    artifact p =
        let key = prefix ⧺ ("/" ⧺ p.name) in
        record {
          name = p.name;
          format = p.format;
          key = key;
          url = object_url cfg key;
          size_bytes = codec.size p.body;
        }

    dump_artifact : RunArtifact → Json
    dump_artifact a = object (
        field "name" (str a.name) (
          field "format" (str a.format) (
            field "key" (str a.key)
              (field "url" (str a.url) (field "size_bytes" (number (decimal a.size_bytes)) end)))))

    dump_artifacts : List RunArtifact → Items
    unfolding dump_artifact
    dump_artifacts [] = nil
    dump_artifacts (a ∷ artifacts) = cons (dump_artifact a) (dump_artifacts artifacts)

    -- It lists every object but itself.
    unfoldable pub manifest : String → String → List (Plan B) → Plan B
    unfolding dump_artifacts
    manifest run_id benchmark plans = plan "manifest.json" "json" (
        codec.encode (
          codec.dumps (
            object (
              field "run_id" (str run_id) (
                field "benchmark" (str benchmark) (
                  field "prefix" (str prefix)
                    (field "artifacts" (array (dump_artifacts (map artifact plans))) end)))))))

    module _ {W : Type 0} (put_object : Put B → Action W (Unit {0})) where
      abbrev pub put_request : Plan B → Bool → Put B
      put_request p public_acl = record {
        bucket = cfg.bucket;
        key = (artifact p).key;
        body = p.body;
        content_type = content_type p.format;
        public_acl = public_acl;
      }

      -- `_put`: a rejected ACL is retried once without it.
      unfoldable pub put : Plan B → Action W (Unit {0})
      put p =
          try_except (put_object (put_request p cfg.public_read)) (λ exc.
            if cfg.public_read then put_object (put_request p false) else throw (failure exc))

      unfoldable pub upload : List (Plan B) → Action W (List RunArtifact)
      upload [] = pure []
      upload (p ∷ plans) = do put p; artifacts ← upload plans; pure (artifact p ∷ artifacts)

      unfoldable pub export_sync :
          Outcome (Unit {0}) → String → String → Items → Json → Items → Action W (List RunArtifact)
      export_sync make_client run_id benchmark records run_summary spans = do
        plans ← build_plans make_client records run_summary spans
        upload (plans ++ manifest run_id benchmark plans ∷ [])
