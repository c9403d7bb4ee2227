-- ===== src/Tests/Exports.antt =====
-- The export of a run with a failed task.
use autobench.Prelude.{ℕ, String, Bool, true, false, none, some, []}
use autobench.Prelude.Json.{Items, Fields, str, object, nil, cons, end, field}
use autobench.Prelude.Outcome.{Action, return, raise, failure}
use autobench.Models.Config.{S3Config}
use autobench.S3Export.Upload.{Codec, Put}
use autobench.S3Export.Upload.Order.{Bucket}

abbrev codec : Codec String
codec = record {
  dumps = λ _. "{}";
  encode = λ text. text;
  parquet = λ _. return "PAR1";
  size = λ _. 2;
  int_of = λ _. 0;
}

abbrev cfg : S3Config
cfg = record {
  endpoint_url = none;
  bucket = some "bench";
  region = none;
  access_key_id = none;
  secret_access_key = none;
  prefix = none;
  public_read = true;
}

-- A client that stores what it is asked to, unless an ACL comes with it.
abbrev client : Put String → Action ℕ (Unit {0})
client p n = elim p.public_acl [
  | true ↦ (raise (failure "AccessControlListNotSupported"), n)
  | false ↦ (return tt, n)
]

abbrev shape_id : String → String
shape_id _ = "03deb26f"

abbrev is_zero : String → Bool
is_zero _ = false

abbrev run_summary : Fields
run_summary = field "error" (str "MCP tool error: connection refused") end

abbrev records : Items
records = cons (object (field "session_id" (str "s1") end)) nil

abbrev before : Bucket ℕ String
before = record { inner = 0; stored = []; asked = [] }
