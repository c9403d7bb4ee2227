-- ===== src/S3Export/Upload/Order.antt =====
-- s3_export.py, `_put` and `_export_sync`: which objects a client has been asked to store, and has stored.
use autobench.Prelude.{
  ◌⊎◌, inl, inr, String, ◌⧺◌, Option, ◌≡◌, refl, sym, ap, ◌∙◌, List, [], ◌∷◌, ◌++◌, map, arith,
}
use autobench.Prelude.Json.{Json, Items, nil, cons}
use autobench.Prelude.Outcome.{Action, Outcome, Raised, return, raise, and_then, pure, ◌>>=◌}
use autobench.Prelude.Outcome.Rules.{OnReturn, Returns-bind}
use autobench.Models.Config.{S3Config}
use autobench.Models.Run.{RunArtifact}
use autobench.S3Export.Upload.{
  Codec, Put, Plan, artifact, content_type, put, upload, manifest, build_plans, base_plans, plan,
  ndjson, lift, token_rows, report_parquet, span_parquet, export_sync,
}
use mathlib.Core.Path.{subst}
use mathlib.Core.List.{append_assoc, append-nil}

-- An object as the bucket holds it.
pub record Stored (B : Type 0) : Type 0 where
  pub bucket : Option String
  pub key : String
  pub body : B
  pub content_type : String

-- A client's world, with the objects that it has stored and the requests that it was made.
pub record Bucket (W B : Type 0) : Type 0 where
  pub inner : W
  pub stored : List (Stored B)
  pub asked : List (Put B)

-- What a request stores, without its ACL.
abbrev stored_by : {B : Type 0} → Put B → Stored B
stored_by p = record {
  bucket = p.bucket;
  key = p.key;
  body = p.body;
  content_type = p.content_type;
}

abbrev pub noted : {W B : Type 0} → Put B → Outcome (Unit {0}) → Bucket W B → Bucket W B
noted p (return _) s = record s { stored = s.stored ++ stored_by p ∷ []; asked = s.asked ++ p ∷ [] }
noted p (raise _) s = record s { asked = s.asked ++ p ∷ [] }

-- The same client, with those notes.
abbrev pub watched :
    {W B : Type 0} → (Put B → Action W (Unit {0})) → Put B → Action (Bucket W B) (Unit {0})
watched put_object p s =
    let (result, inner) = put_object p s.inner in
    (result, noted p result (record s { inner = inner }))

abbrev Landed : {A B : Type 0} → Outcome A → Stored B → List (Stored B) → List (Stored B) → Type 0
Landed (return _) object before after = after ≡ before ++ object ∷ []
Landed (raise _) object before after = after ≡ before

module _ {W B : Type 0} (codec : Codec B) (cfg : S3Config) (prefix : String)
    (put_object : Put B → Action W (Unit {0})) where
  -- The object of a plan: its content under its name below the prefix, in the configured bucket,
  -- with the content type of its format.
  abbrev pub object_of : Plan B → Stored B
  object_of p = record {
    bucket = cfg.bucket;
    key = prefix ⧺ ("/" ⧺ p.name);
    body = p.body;
    content_type = content_type p.format;
  }

  put_stores :
      (p : Plan B) (s : Bucket W B)
      → Landed
          (put codec cfg prefix (watched put_object) p s).0
          (object_of p)
          s.stored
          (put codec cfg prefix (watched put_object) p s).1.stored
  unfolding put artifact
  put_stores p s = ground arith

  -- The uploads that were made, of those that were planned: all of them if it returned.
  abbrev pub Made :
      List (Plan B) → List (Stored B) → Outcome (List RunArtifact) × Bucket W B → Type 0
  Made plans before (result, s) =
      (done rest : List (Plan B)) × (plans ≡ done ++ rest)
      × (s.stored ≡ before ++ map object_of done)
      × OnReturn (λ artifacts. (rest ≡ []) × (artifacts ≡ map (artifact codec cfg prefix) plans))
          result

  cons-Made :
      (p : Plan B) (plans : List (Plan B)) (before : List (Stored B))
      (r : Outcome (List RunArtifact) × Bucket W B)
      → Made plans (before ++ object_of p ∷ []) r
      → Made
          (p ∷ plans)
          before
          (and_then r.0 (λ artifacts. pure (artifact codec cfg prefix p ∷ artifacts)) r.1)
  cons-Made p plans before (return artifacts, s) (done, rest, split, stored, (none_left, same)) = (
    p ∷ done,
    rest,
    ap (λ l. p ∷ l) split,
    stored ∙ append_assoc before _ _,
    (none_left, ap (λ l. artifact codec cfg prefix p ∷ l) same),
  )
  cons-Made p plans before (raise e, s) (done, rest, split, stored, any) =
      (p ∷ done, rest, ap (λ l. p ∷ l) split, stored ∙ append_assoc before _ _, tt)

  put-Made :
      (p : Plan B) (plans : List (Plan B)) (before : List (Stored B))
      (r : Outcome (Unit {0}) × Bucket W B)
      → Landed r.0 (object_of p) before r.1.stored
      → ((s : Bucket W B)
          → Made plans s.stored (upload codec cfg prefix (watched put_object) plans s))
      → Made (p ∷ plans) before (
          and_then r.0
            (λ _. upload codec cfg prefix (watched put_object) plans >>= λ artifacts.
              pure (artifact codec cfg prefix p ∷ artifacts))
            r.1)
  put-Made p plans before (return _, s) landed made =
      cons-Made p plans before (upload codec cfg prefix (watched put_object) plans s) (
        subst (λ l. Made plans l (upload codec cfg prefix (watched put_object) plans s)) landed
          (made s))
  put-Made p plans before (raise e, s) landed made =
      ([], p ∷ plans, refl, landed ∙ sym (append-nil before), tt)

  upload-Made :
      (plans : List (Plan B)) (s : Bucket W B)
      → Made plans s.stored (upload codec cfg prefix (watched put_object) plans s)
  unfolding upload
  upload-Made [] s = ([], [], refl, sym (append-nil s.stored), (refl, refl))
  upload-Made (p ∷ plans) s =
      put-Made p plans s.stored (put codec cfg prefix (watched put_object) p s) (put_stores p s)
        (upload-Made plans)

  report_parquet_still :
      (records tokens : Items) (s : Bucket W B) → (report_parquet codec records tokens s).1 ≡ s
  unfolding report_parquet
  report_parquet_still nil tokens s = refl
  report_parquet_still (cons row rows) tokens s = ground arith

  span_parquet_still : (spans : Items) (s : Bucket W B) → (span_parquet codec spans s).1 ≡ s
  unfolding span_parquet
  span_parquet_still nil s = refl
  span_parquet_still (cons row rows) s = ground arith

  build_plans_still :
      (make_client : Outcome (Unit {0})) (records : Items) (run_summary : Json) (spans : Items)
      (s : Bucket W B)
      → (build_plans codec make_client records run_summary spans s).1 ≡ s
  unfolding build_plans
  build_plans_still (raise e) records run_summary spans s = refl
  build_plans_still (return _) records run_summary spans s =
      grind (arith, report_parquet_still, span_parquet_still)

  -- Nothing has been stored, and the export has raised; or objects of a planned list have.
  abbrev pub Exported :
      (List (Plan B) → Type 0)
      → String
      → String
      → Bucket W B
      → Outcome (List RunArtifact) × Bucket W B
      → Type 0
  Exported Planned run_id benchmark before r =
      ((e : Raised) × (r ≡ (raise e, before)))
      ⊎ ((plans : List (Plan B)) × Planned plans
          × Made (plans ++ manifest codec cfg prefix run_id benchmark plans ∷ []) before.stored r)

  -- `run.json` is the first of the objects, and the records' report the second.
  abbrev pub Begins : Json → Items → List (Plan B) → Type 0
  Begins run_summary records plans =
      (rest : List (Plan B)) × (plans
        ≡ plan "run.json" "json" (codec.encode (codec.dumps run_summary))
          ∷ ndjson codec "report.ndjson" records
          ∷ rest)

  build_plans_begin :
      (make_client : Outcome (Unit {0})) (records : Items) (run_summary : Json) (spans : Items)
      (s : Bucket W B)
      → OnReturn
          (Begins run_summary records)
          (build_plans codec make_client records run_summary spans s).0
  unfolding build_plans base_plans
  build_plans_begin make_client records run_summary spans s =
      (Returns-bind (Begins run_summary records) (lift make_client) _ λ _.
          Returns-bind (Begins run_summary records) (lift (token_rows codec records)) _ λ tokens.
            Returns-bind (Begins run_summary records) (report_parquet codec records tokens) _
              λ reports.
                Returns-bind (Begins run_summary records) (span_parquet codec spans) _
                  λ span_report. record { at = λ t. (_, refl) }).at
        s

  upload_planned :
      (Planned : List (Plan B) → Type 0) (run_id benchmark : String) (s : Bucket W B)
      (r : Outcome (List (Plan B)) × Bucket W B)
      → r.1 ≡ s
      → OnReturn Planned r.0
      → Exported Planned run_id benchmark s (
          and_then r.0
            (λ plans.
              upload codec cfg prefix
                (watched put_object)
                (plans ++ manifest codec cfg prefix run_id benchmark plans ∷ []))
            r.1)
  upload_planned Planned run_id benchmark s (raise e, t) still planned =
      inl (e, ap (λ u. (raise e, u)) still)
  upload_planned Planned run_id benchmark s (return plans, t) still planned = inr (
    plans,
    planned,
    subst
        (λ (u : Bucket W B).
          Made (plans ++ manifest codec cfg prefix run_id benchmark plans ∷ []) u.stored (
            upload codec cfg prefix (watched put_object)
              (plans ++ manifest codec cfg prefix run_id benchmark plans ∷ []) t))
        still (upload-Made _ t),
  )

  -- `_export_sync` raises before it has asked the client for anything, or it stores the planned
  -- objects, with their contents, in their order up to the first whose uploads fail: so the
  -- manifest, which is of all the others, is stored last and only after all of them. The first is
  -- `run.json`. If it returns, it has stored every object, and returns the artifacts of all of them.
  pub export_sync_in_order :
      (make_client : Outcome (Unit {0})) (run_id benchmark : String) (records : Items)
      (run_summary : Json) (spans : Items) (s : Bucket W B)
      → Exported (Begins run_summary records) run_id benchmark s (
          export_sync codec cfg prefix
            (watched put_object)
            make_client
            run_id
            benchmark
            records
            run_summary
            spans
            s)
  unfolding export_sync
  export_sync_in_order make_client run_id benchmark records run_summary spans s =
      upload_planned (Begins run_summary records) run_id benchmark s
        (build_plans codec make_client records run_summary spans s)
        (build_plans_still make_client records run_summary spans s)
        (build_plans_begin make_client records run_summary spans s)
