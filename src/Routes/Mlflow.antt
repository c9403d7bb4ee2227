-- ===== src/Routes/Mlflow.antt =====
-- routes/mlflow.py: the mode of the credentials, what the exporter logs, and the search for the probe's
-- session in the traces that are read back.
pub mod Stages
pub mod Health
pub mod Modes
use autobench.Prelude.{
  ℕ, String, ◌⧺◌, Bool, true, false, not, ◌&&◌, ◌||◌, Option, none, some, List, [], ◌∷◌, ◌++◌, ◌==◌,
  is_set, leb, if◌then◌else◌,
}
use autobench.Prelude.Json.{Json, Fields, null, str, object, end, lookup, truth}
use autobench.Models.Config.{MlflowConfig}
use autobench.MlflowReport.Spans.{Span, Trace, root_span}
use autobench.Auth.{is_text}

unfoldable pub credential_mode : MlflowConfig → String
credential_mode cfg =
    if is_set cfg.bearer_token
    then "bearer_token"
    else if is_set cfg.username && is_set cfg.password
    then "openshift_oauth"
    else if is_set cfg.token_url && is_set cfg.client_id && is_set cfg.client_secret
    then "client_credentials"
    else "none"

-- A record of the `opentelemetry` logger: its level and its message.
abbrev pub LogRecord : Type 0
LogRecord = ℕ × String

-- `_ExportErrorCapture`
pub record Capture : Type 0 where
  pub errors : List String
  pub warnings : List String

-- `emit`, for a record at the handler's level (30, `WARNING`) or above; 40 is `ERROR`.
unfoldable pub capture_record : LogRecord → Capture → Capture
capture_record (level, message) c =
    if leb 40 level
    then record c { errors = c.errors ++ message ∷ [] }
    else if leb 30 level
    then record c { warnings = c.warnings ++ message ∷ [] }
    else c

unfoldable pub capture_all : List LogRecord → Capture → Capture
capture_all [] c = c
capture_all (r ∷ logged) c = capture_all logged (capture_record r c)

abbrev pub nothing_captured : Capture
nothing_captured = record { errors = []; warnings = [] }

abbrev last : String → List String → String
last text [] = text
last text (next ∷ texts) = last next texts

has_failed : List String → Bool
has_failed [] = false
has_failed (_ ∷ _) = true

unfoldable pub failed : Capture → Bool
unfolding has_failed
failed c = has_failed c.errors

failure_of : List String → List String → Option String
failure_of [] warnings = none
failure_of (e ∷ errors) [] = some (last e errors)
failure_of (e ∷ errors) (cause ∷ _) = some (last e errors ⧺ (" (cause: " ⧺ (cause ⧺ ")")))

unfoldable pub failure : Capture → Option String
unfolding failure_of
failure c = failure_of c.errors c.warnings

note_of : List String → List String → Option String
note_of [] (cause ∷ _) = some cause
note_of _ _ = none

unfoldable pub transient_note : Capture → Option String
unfolding note_of
transient_note c = note_of c.errors c.warnings

module _ (is_zero : String → Bool) where
  -- `value or {}`, where it must be a dict next; none where `get` fails on what is no dict
  dict_or_empty : Option Json → Option Fields
  dict_or_empty none = some end
  dict_or_empty (some (object fields)) = some fields
  dict_or_empty (some value) = if truth is_zero value then none else some end

  -- `((span.get("attributes") or {}).get("metadata") or {}).get("session_id") == session_id`
  unfoldable pub is_of_session : {F : Type 0} → String → Span F → Option Bool
  unfolding dict_or_empty
  is_of_session session_id span = elim (dict_or_empty (lookup "metadata" span.attributes)) [
    | none ↦ none
    | some metadata ↦ some (is_text session_id (lookup "session_id" metadata))
  ]

  -- The spans from the first on; none where one raises before the session is found.
  unfoldable pub spans_contain : {F : Type 0} → String → List (Span F) → Option Bool
  spans_contain session_id [] = some false
  spans_contain session_id (span ∷ spans) =
      let later = spans_contain session_id spans in
      if span.name == root_span
      then (elim (is_of_session session_id span) [
        | none ↦ none
        | some true ↦ some true
        | some false ↦ later
      ])
      else later

  -- `_contains_session`
  unfoldable pub contains_session : {F : Type 0} → List (Trace F) → String → Option Bool
  contains_session [] session_id = some false
  contains_session (t ∷ traces) session_id =
      let later = contains_session traces session_id in
      elim (spans_contain session_id t.spans) [
        | none ↦ none
        | some true ↦ some true
        | some false ↦ later
      ]
