-- ===== src/Tests/Labels.antt =====
-- Published errors and their labels, and the spans of a leg.
use autobench.Prelude.{String, true, none, some, List, [], ◌∷◌, ◌≡◌, refl, is_some}
use autobench.Prelude.Text.{is_space}
use autobench.Prelude.Dict.{get}
use autobench.PublicErrors.{classify, public_error, is_blank}
use autobench.Reference.Causelib.{slug_labels, parse_scrubbed, cause, is_hex_char}
use autobench.Reference.Causelib.Parsed.{parse_scrubbed-public_error}
use autobench.Reference.Causelib.Labelled.{is_listed, cause_listed}
use autobench.Reference.Shortlistlib.{Span, tally_rows, new_acc}
use autobench.Reference.Shortlistlib.Conserved.{
  Adds, usable_chats, each_call, ins, outs, tally_rows-Adds,
}

abbrev expired : String
expired = "task exceeded per-task timeout of 300s"

abbrev shape_id : String → String
shape_id message = "0a1b2c3d"

parse_scrubbed-public_error_example :
    (category : String) × (classify (some expired) ≡ some category)
    × (parse_scrubbed (public_error shape_id (some expired)) ≡ some (category, "0a1b2c3d"))
    × (is_some (get category slug_labels) ≡ true)
unfolding is_blank is_space is_hex_char
parse_scrubbed-public_error_example = parse_scrubbed-public_error shape_id expired refl refl

cause_listed_example : is_listed (cause (some "peer closed connection")) ≡ true
cause_listed_example = cause_listed (some "peer closed connection")

abbrev chat : String → Span
chat start = record {
  task_id = some "t1";
  kind = some "chat";
  request_max_tokens = none;
  status_code = some "OK";
  start_time = some start;
  input_tokens = some 100;
  output_tokens = some 7;
}

abbrev rows : List Span
rows = chat "2026-01-02" ∷ record (chat "2026-01-01") { task_id = none } ∷ chat "2026-01-01" ∷ []

tally_rows-Adds_example :
    Adds
      (usable_chats each_call rows)
      (usable_chats ins rows)
      (usable_chats outs rows)
      new_acc
      (tally_rows rows new_acc)
tally_rows-Adds_example = tally_rows-Adds rows new_acc
