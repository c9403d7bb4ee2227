-- ===== src/S3Export/Publish.antt =====
-- s3_export.py, `export_run`: what of a run is published, and under which keys.
pub mod Public
use autobench.Prelude.{String, Bool, Option, none, some, List}
use autobench.Prelude.Json.{Items, Fields, object, nil, cons, put_field}
use autobench.Prelude.Outcome.{Action, Outcome, failure, throw}
use autobench.Models.Config.{S3Config}
use autobench.Models.Run.{RunArtifact}
use autobench.PublicErrors.{scrub_records, scrub_run_summary, text_or_null}
use autobench.S3Export.Keys.{run_prefix}
use autobench.S3Export.Upload.{Codec, Put, export_sync}

-- `{**r.model_dump(mode="json"), "llm_gateway": llm_gateway}` of each record, from the dumps.
unfoldable pub with_gateway : Option String → Items → Items
with_gateway llm_gateway nil = nil
with_gateway llm_gateway (cons (object dump) rest) =
    cons (object (put_field "llm_gateway" (text_or_null llm_gateway) dump))
      (with_gateway llm_gateway rest)
with_gateway llm_gateway (cons other rest) = cons other (with_gateway llm_gateway rest)

module _ (shape_id : String → String) (is_zero : String → Bool) {W B : Type 0} (codec : Codec B)
    (cfg : S3Config) (put_object : Put B → Action W (Unit {0}))
    (make_client : Outcome (Unit {0})) where
  -- What is exported, once the free text of both is classified; of an error that is true and no text
  -- the classifier raises.
  unfoldable pub export_scrubbed :
      String → String → String → Items → Option Items → Option Fields → Action W (List RunArtifact)
  export_scrubbed prefix run_id benchmark spans (some records) (some run_summary) =
      export_sync codec cfg prefix put_object make_client run_id benchmark records
        (object run_summary) spans
  export_scrubbed prefix run_id benchmark spans _ _ = throw (failure "no attribute 'strip'")

  unfoldable pub export_run :
      String
      → String
      → String
      → String
      → Items
      → Fields
      → Items
      → Option String
      → Action W (List RunArtifact)
  export_run preferred_username source_iss benchmark run_id records run_summary spans llm_gateway =
      export_scrubbed (run_prefix cfg preferred_username source_iss benchmark run_id) run_id
        benchmark spans (scrub_records shape_id is_zero (with_gateway llm_gateway records))
        (scrub_run_summary shape_id is_zero run_summary)
