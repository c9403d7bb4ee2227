-- ===== src/MlflowReport/Rows/Scalars.antt =====
-- mlflow_report.py, `span_rows`: the values of a row.
use autobench.Prelude.{
  String, Bool, Option, none, some, List, [], ◌∷◌, ◌++◌, ◌≡◌, refl, All, All-append,
}
use autobench.Prelude.Json.{
  Json, Fields, null, bool, number, str, array, object, end, field, get_or,
}
use autobench.MlflowReport.Download.{dict_field}
use autobench.Prelude.Text.{join}
use autobench.Prelude.Dict.{Dict}
use autobench.MlflowReport.Parse.Record.{◌>>=◌}
use autobench.MlflowReport.Spans.{Span, Trace}
use autobench.MlflowReport.Rows.{
  SpanRow, dump_row, flag, Casts, numeral, text_json, optional, texts, scalar, scalar_int, name_of,
  make_row, part_of, span_row, each_row, rows_under, trace_rows, span_rows, first_root, by_id,
  first_agent,
}

abbrev pub IsScalar : Json → Type 0
IsScalar (array _) = ⊥
IsScalar (object _) = ⊥
IsScalar _ = Unit

abbrev pub AreScalars : Fields → Type 0
AreScalars end = Unit
AreScalars (field _ v rest) = IsScalar v × AreScalars rest

-- The keys of a dict, in order.
abbrev pub keys : Fields → List String
keys end = []
keys (field k _ rest) = k ∷ keys rest

-- `SPAN_ROW_KEYS`
abbrev pub span_row_keys : List String
span_row_keys =
    "task_id" ∷ "session_id" ∷ "trace_id" ∷ "span_id" ∷ "parent_span_id" ∷ "name" ∷ "kind"
    ∷ "parent_name" ∷ "depth" ∷ "start_time" ∷ "latency_ms" ∷ "status_code" ∷ "error_type"
    ∷ "counted" ∷ "input_tokens" ∷ "output_tokens" ∷ "request_model" ∷ "request_max_tokens"
    ∷ "finish_reasons" ∷ []

-- Every row has this set of keys, whatever the row is of.
abbrev pub IsFlat : SpanRow → Type 0
IsFlat r = AreScalars (dump_row r) × (keys (dump_row r) ≡ span_row_keys)

text_json-IsScalar : (text : String) → IsScalar (text_json text)
text_json-IsScalar String.[] = tt
text_json-IsScalar (String.◌∷◌ _ _) = tt

numeral-IsScalar : (n : Option String) → IsScalar (numeral n)
numeral-IsScalar none = tt
numeral-IsScalar (some n) = tt

optional-IsScalar : (text : Option String) → IsScalar (optional text)
optional-IsScalar none = tt
optional-IsScalar (some text) = tt

flag-IsScalar : (b : Option Bool) → IsScalar (flag b)
flag-IsScalar none = tt
flag-IsScalar (some b) = tt

module _ {F : Type 0} (casts : Casts F) where
  scalar-IsScalar : (v : Json) → IsScalar (scalar casts v)
  unfolding scalar
  scalar-IsScalar null = tt
  scalar-IsScalar (bool b) = tt
  scalar-IsScalar (number n) = tt
  scalar-IsScalar (str text) = tt
  scalar-IsScalar (array items) = text_json-IsScalar (join "," (texts casts.repr items))
  scalar-IsScalar (object fields) = tt

  scalar_int-IsScalar : (v : Json) → IsScalar (scalar_int casts v)
  unfolding scalar_int scalar
  scalar_int-IsScalar null = tt
  scalar_int-IsScalar (bool b) = tt
  scalar_int-IsScalar (number n) = numeral-IsScalar (casts.int_cast (number n))
  scalar_int-IsScalar (str text) = numeral-IsScalar (casts.int_cast (str text))
  scalar_int-IsScalar (array items) = text_json-IsScalar (join "," (texts casts.repr items))
  scalar_int-IsScalar (object fields) = tt

  name_of-IsScalar : (parent : Option (Span F)) → IsScalar (name_of casts parent)
  name_of-IsScalar none = tt
  name_of-IsScalar (some parent) = tt

  -- What a reading that may raise returns meets `P`.
  abbrev pub OnSome : {A : Type 0} → (A → Type 0) → Option A → Type 0
  OnSome P none = Unit
  OnSome P (some a) = P a

  make_row-IsFlat :
      (task_id session_id : Json) (spans_by_id : Dict (Span F)) (invoke_span_id : Option String)
      (s : Span F) (usage request response : Fields)
      → IsFlat
          (make_row casts task_id session_id spans_by_id invoke_span_id s usage request response)
  unfolding make_row dump_row
  make_row-IsFlat task_id session_id spans_by_id invoke_span_id s usage request response = (
    (
      scalar-IsScalar task_id,
      (
        scalar-IsScalar session_id,
        (
          tt,
          (
            tt,
            (
              optional-IsScalar s.parent_id,
              (
                tt,
                (
                  tt,
                  (
                    name_of-IsScalar _,
                    (
                      tt,
                      (
                        tt,
                        (
                          tt,
                          (
                            tt,
                            (
                              scalar-IsScalar _,
                              (
                                flag-IsScalar _,
                                (
                                  scalar_int-IsScalar _,
                                  (
                                    scalar_int-IsScalar _,
                                    (
                                      scalar-IsScalar _,
                                      (scalar_int-IsScalar _, (scalar-IsScalar _, tt)),
                                    ),
                                  ),
                                ),
                              ),
                            ),
                          ),
                        ),
                      ),
                    ),
                  ),
                ),
              ),
            ),
          ),
        ),
      ),
    ),
    refl,
  )

  span_row-IsFlat :
      (task_id session_id : Json) (spans_by_id : Dict (Span F)) (invoke_span_id : Option String)
      (s : Span F)
      → OnSome IsFlat (span_row casts task_id session_id spans_by_id invoke_span_id s)
  unfolding span_row
  span_row-IsFlat task_id session_id spans_by_id invoke_span_id s =
      after_parts (part_of casts "usage" _) (part_of casts "request" _) (part_of casts "response" _)
    where
      after_parts :
          (u q p : Option Fields)
          → OnSome IsFlat (
              u >>= λ usage. q >>= λ request. p >>= λ response. some (
                make_row casts task_id session_id spans_by_id invoke_span_id s usage request
                  response))
      after_parts none q p = tt
      after_parts (some usage) none p = tt
      after_parts (some usage) (some request) none = tt
      after_parts (some usage) (some request) (some response) =
          make_row-IsFlat task_id session_id spans_by_id invoke_span_id s usage request response

  each_row-IsFlat :
      (row : Span F → Option SpanRow)
      → ((s : Span F) → OnSome IsFlat (row s))
      → (spans : List (Span F)) → OnSome (All IsFlat) (each_row casts row spans)
  unfolding each_row
  each_row-IsFlat row h [] = tt
  each_row-IsFlat row h (s ∷ spans) =
      both (row s) (each_row casts row spans) (h s) (each_row-IsFlat row h spans)
    where
      both :
          (o : Option SpanRow) (rest : Option (List SpanRow))
          → OnSome IsFlat o
          → OnSome (All IsFlat) rest
          → OnSome (All IsFlat) (o >>= λ r. rest >>= λ rows. some (r ∷ rows))
      both none rest p q = tt
      both (some r) none p q = tt
      both (some r) (some rows) p q = (p, q)

  rows_under-IsFlat :
      (spans : List (Span F)) (root : Span F) → OnSome (All IsFlat) (rows_under casts spans root)
  unfolding rows_under
  rows_under-IsFlat spans root =
      elim (dict_field "metadata" root.attributes)
        as (λ m. OnSome (All IsFlat) (
          m >>= λ meta.
          each_row casts
            (span_row casts (get_or "task_id" null meta) (get_or "session_id" (str "unknown") meta)
              (by_id casts [] spans) (first_agent casts spans))
            spans)) [
              | none ↦ tt
              | some meta ↦ each_row-IsFlat _ (λ s. span_row-IsFlat _ _ _ _ s) spans
            ]

  trace_rows-IsFlat : (trace : Trace F) → OnSome (All IsFlat) (trace_rows casts trace)
  unfolding trace_rows
  trace_rows-IsFlat trace =
      elim (first_root casts trace.spans)
        as (λ found.
          OnSome (All IsFlat)
            (elim found [ none ↦ some [] | some root ↦ rows_under casts trace.spans root ])) [
              | none ↦ tt
              | some root ↦ rows_under-IsFlat trace.spans root
            ]

  -- Where `span_rows` returns, every row of it has exactly the keys `SPAN_ROW_KEYS`, in their order, and
  -- every value of it is a scalar: None, a Boolean, a number or a text.
  pub span_rows-IsFlat : (traces : List (Trace F)) → OnSome (All IsFlat) (span_rows casts traces)
  unfolding span_rows
  span_rows-IsFlat [] = tt
  span_rows-IsFlat (trace ∷ traces) =
      joined (trace_rows casts trace) (span_rows casts traces) (trace_rows-IsFlat trace)
        (span_rows-IsFlat traces)
    where
      joined :
          (o rest : Option (List SpanRow))
          → OnSome (All IsFlat) o
          → OnSome (All IsFlat) rest
          → OnSome (All IsFlat) (o >>= λ rows. rest >>= λ others. some (rows ++ others))
      joined none rest p q = tt
      joined (some r) none p q = tt
      joined (some r) (some rows) p q = All-append IsFlat r rows p q
