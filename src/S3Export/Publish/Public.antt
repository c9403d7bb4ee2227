-- ===== src/S3Export/Publish/Public.antt =====
-- s3_export.py, `export_run`: the errors in what is published.
use autobench.Prelude.{String, Bool, ◌≡◌, Option, some, List}
use autobench.Prelude.Json.{Items, Fields, object, lookup}
use autobench.Prelude.Outcome.{Action, Outcome}
use autobench.Models.Config.{S3Config}
use autobench.PublicErrors.Scrub.{PublicFound, PublicResults}
use autobench.S3Export.Upload.{Codec, Put, Plan}
use autobench.S3Export.Upload.Order.{Begins}

module _ (shape_id : String → String) (is_zero : String → Bool) {W B : Type 0} (codec : Codec B)
    (cfg : S3Config) (put_object : Put B → Action W (Unit {0}))
    (make_client : Outcome (Unit {0})) where
  abbrev pub PublicDump : Fields → Type 0
  PublicDump run_summary =
      PublicFound shape_id is_zero (lookup "error" run_summary)
      × PublicResults shape_id is_zero (lookup "results" run_summary)

  -- The plans begin with a public dump of the run, and the scrubbed records.
  abbrev pub BeginsPublic : Option Items → List (Plan B) → Type 0
  BeginsPublic scrubbed plans =
      (run_summary : Fields) × (records : Items) × PublicDump run_summary
      × (scrubbed ≡ some records)
      × Begins codec cfg "" put_object (object run_summary) records plans
