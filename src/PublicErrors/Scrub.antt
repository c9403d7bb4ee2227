-- ===== src/PublicErrors/Scrub.antt =====
-- public_errors.py, `scrub_run_summary`: the errors and the other entries of a run's dump.
use autobench.Prelude.{
  String, Bool, false, ◌≡◌, refl, sym, ◌∙◌, Option, none, some, ◌==◌, eq_refl, arith,
}
use autobench.Prelude.Json.{
  Json, Items, Fields, null, bool, number, str, array, object, nil, cons, lookup, set_field,
  lookup-set_field,
}
use mathlib.Core.Path.{subst}
use mathlib.Core.Option.{some-injective}
use mathlib.Core.Option
use autobench.PublicErrors.{
  public_json, scrub_key, scrub_at, set_clean, scrub_task, scrub_tasks, scrub_results,
  scrub_run_summary,
}
use autobench.PublicErrors.Closed.{IsPublic, public_json-IsPublic}

module _ (shape_id : String → String) (is_zero : String → Bool) where
  -- What is found is public, if anything is.
  abbrev pub PublicFound : Option Json → Type 0
  PublicFound none = Unit
  PublicFound (some value) = IsPublic shape_id value

  PublicFound-intro :
      (o : Option Json)
      → ((value : Json) → o ≡ some value → IsPublic shape_id value)
      → PublicFound o
  PublicFound-intro none h = tt
  PublicFound-intro (some value) h = h value refl

  abbrev PublicAt : String → Fields → Type 0
  PublicAt key fields = (value : Json) → lookup key fields ≡ some value → IsPublic shape_id value

  set_clean_lem :
      (key : String) (o : Option Json) (fields out : Fields)
      → set_clean key o fields ≡ some out
      → (clean : Json) × (o ≡ some clean) × (out ≡ set_field key clean fields)
  unfolding set_clean
  set_clean_lem key none fields out h = ground arith
  set_clean_lem key (some clean) fields out h = (clean, refl, sym (some-injective _ _ h))

  set_field_at :
      (key : String) (clean : Json) (fields : Fields)
      → IsPublic shape_id clean
      → PublicAt key (set_field key clean fields)
  set_field_at key clean fields h value found =
      let same : clean ≡ value =
        ground (arith, lookup-set_field key key clean fields, eq_refl key) in
      subst (IsPublic shape_id) same h

  set_field_else :
      (key k : String) (clean : Json) (fields : Fields)
      → (key == k) ≡ false
      → lookup k (set_field key clean fields) ≡ lookup k fields
  set_field_else key k clean fields h = ground (arith, lookup-set_field key k clean fields)

  set_field_found :
      (key : String) (clean old : Json) (fields : Fields)
      → lookup key fields ≡ some old
      → lookup key (set_field key clean fields) ≡ some clean
  set_field_found key clean old fields h =
      ground (arith, lookup-set_field key key clean fields, eq_refl key)

  scrub_at_lem :
      (key : String) (o : Option Json) (fields out : Fields)
      → lookup key fields ≡ o
      → scrub_at shape_id is_zero key o fields ≡ some out
      → PublicAt key out × ((k : String) → (key == k) ≡ false → lookup k out ≡ lookup k fields)
  unfolding scrub_at
  scrub_at_lem key none fields out found h =
      rw (← some-injective _ _ h) (λ value there. ground arith, λ k _. refl)
  scrub_at_lem key (some value) fields out found h =
      let (clean, from, is) = set_clean_lem key (public_json shape_id is_zero value) fields out h in
      rw is (
        set_field_at key clean fields (public_json-IsPublic shape_id is_zero value clean from),
        λ k other. set_field_else key k clean fields other,
      )

  -- Every task that is an object with an error has a public one.
  abbrev pub PublicTask : Json → Type 0
  PublicTask (object fields) = PublicFound (lookup "error" fields)
  PublicTask _ = Unit

  abbrev pub PublicTasks : Items → Type 0
  PublicTasks nil = Unit
  PublicTasks (cons task rest) = PublicTask task × PublicTasks rest

  map-some :
      (f : Fields → Json) (o : Option Fields) (x : Json)
      → Option.map f o ≡ some x
      → (y : Fields) × (o ≡ some y) × (f y ≡ x)
  map-some f none x h = ground arith
  map-some f (some y) x h = (y, refl, some-injective _ _ h)

  scrub_task_public :
      (task clean : Json) → scrub_task shape_id is_zero task ≡ some clean → PublicTask clean
  unfolding scrub_task scrub_key
  scrub_task_public (object fields) clean h =
      let (out, from, is) =
        map-some object (scrub_at shape_id is_zero "error" (lookup "error" fields) fields) clean
          h in
      subst PublicTask is (
        PublicFound-intro (lookup "error" out)
          (scrub_at_lem "error" (lookup "error" fields) fields out refl from).0)
  scrub_task_public null clean h = subst PublicTask (some-injective _ _ h) tt
  scrub_task_public (bool b) clean h = subst PublicTask (some-injective _ _ h) tt
  scrub_task_public (number n) clean h = subst PublicTask (some-injective _ _ h) tt
  scrub_task_public (str t) clean h = subst PublicTask (some-injective _ _ h) tt
  scrub_task_public (array i) clean h = subst PublicTask (some-injective _ _ h) tt

  both_some :
      (a : Option Json) (b : Option Items) (x : Items)
      → (elim a [
        | none ↦ none
        | some clean ↦ elim b [ none ↦ none | some others ↦ some (cons clean others) ]
      ])
        ≡ some x
      → (clean : Json) × (others : Items) × (a ≡ some clean)
        × (b ≡ some others)
        × (cons clean others ≡ x)
  both_some none b x h = ground arith
  both_some (some clean) none x h = ground arith
  both_some (some clean) (some others) x h = (clean, others, refl, refl, some-injective _ _ h)

  scrub_tasks_public :
      (tasks clean : Items) → scrub_tasks shape_id is_zero tasks ≡ some clean → PublicTasks clean
  unfolding scrub_tasks
  scrub_tasks_public nil clean h = subst PublicTasks (some-injective _ _ h) tt
  scrub_tasks_public (cons task rest) clean h =
      let (first, others, here, there, is) =
        both_some (scrub_task shape_id is_zero task) (scrub_tasks shape_id is_zero rest) clean h in
      subst PublicTasks is (scrub_task_public task first here, scrub_tasks_public rest others there)

  map_array :
      (o : Option Items) (x : Json)
      → Option.map array o ≡ some x
      → (y : Items) × (o ≡ some y) × (array y ≡ x)
  map_array none x h = ground arith
  map_array (some y) x h = (y, refl, some-injective _ _ h)

  -- The tasks of a dump, if it has a list of them, are public.
  abbrev pub PublicResults : Option Json → Type 0
  PublicResults (some (array tasks)) = PublicTasks tasks
  PublicResults _ = Unit

  -- What `scrub_results` makes of a dump whose error is public.
  abbrev Scrubbed : Fields → Fields → Type 0
  Scrubbed before out =
      PublicAt "error" out
      × PublicResults (lookup "results" out)
      × ((k : String)
          → ("error" == k) ≡ false
          → ("results" == k) ≡ false
          → lookup k out ≡ lookup k before)

  abbrev Began : Fields → Fields → Type 0
  Began before fields =
      PublicAt "error" fields
      × ((k : String) → ("error" == k) ≡ false → lookup k fields ≡ lookup k before)

  as_it_is :
      (o : Option Json) (before fields out : Fields)
      → lookup "results" fields ≡ o
      → PublicResults o
      → Began before fields
      → some fields ≡ some out
      → Scrubbed before out
  as_it_is o before fields out found public began h =
      subst (Scrubbed before) (some-injective _ _ h)
        (began.0, subst PublicResults (sym found) public, λ k e _. began.1 k e)

  scrub_results_lem :
      (o : Option Json) (before fields out : Fields)
      → lookup "results" fields ≡ o
      → Began before fields
      → scrub_results shape_id is_zero o fields ≡ some out
      → Scrubbed before out
  unfolding scrub_results
  scrub_results_lem none before fields out found began h =
      as_it_is none before fields out found tt began h
  scrub_results_lem (some (array tasks)) before fields out found began h =
      let (clean, from, is) =
        set_clean_lem "results" (Option.map array (scrub_tasks shape_id is_zero tasks)) fields out
          h in
      let (others, there, same) = map_array (scrub_tasks shape_id is_zero tasks) clean from in
      subst (Scrubbed before) (sym is) (
        λ value v. began.0 value (sym (set_field_else "results" "error" clean fields refl) ∙ v),
        subst PublicResults (sym (set_field_found "results" clean (array tasks) fields found))
            (subst (λ c. PublicResults (some c)) same (scrub_tasks_public tasks others there)),
        λ k e r. set_field_else "results" k clean fields r ∙ began.1 k e,
      )
  scrub_results_lem (some null) before fields out found began h =
      as_it_is _ before fields out found tt began h
  scrub_results_lem (some (bool b)) before fields out found began h =
      as_it_is _ before fields out found tt began h
  scrub_results_lem (some (number n)) before fields out found began h =
      as_it_is _ before fields out found tt began h
  scrub_results_lem (some (str t)) before fields out found began h =
      as_it_is _ before fields out found tt began h
  scrub_results_lem (some (object f)) before fields out found began h =
      as_it_is _ before fields out found tt began h

  key_then_results :
      (o : Option Fields) (before out : Fields)
      → ((fields : Fields) → o ≡ some fields → Began before fields)
      → (elim o [
        | none ↦ none
        | some fields ↦ scrub_results shape_id is_zero (lookup "results" fields) fields
      ])
        ≡ some out
      → Scrubbed before out
  key_then_results none before out began h = ground arith
  key_then_results (some fields) before out began h =
      scrub_results_lem (lookup "results" fields) before fields out refl (began fields refl) h

  scrub_run_summary_lem :
      (summary out : Fields)
      → scrub_run_summary shape_id is_zero summary ≡ some out
      → Scrubbed summary out
  unfolding scrub_run_summary scrub_key
  scrub_run_summary_lem summary out h =
      key_then_results (scrub_at shape_id is_zero "error" (lookup "error" summary) summary) summary
        out (λ fields from. scrub_at_lem "error" (lookup "error" summary) summary fields refl from)
        h

  -- Where `scrub_run_summary` returns: the error of the run, and that of every task if the dump has a
  -- list of them, is missing, None, or a category of the closed list with a message's shape.
  pub scrub_run_summary_public :
      (summary out : Fields)
      → scrub_run_summary shape_id is_zero summary ≡ some out
      → PublicFound (lookup "error" out) × PublicResults (lookup "results" out)
  scrub_run_summary_public summary out h =
      let (error, results, rest) = scrub_run_summary_lem summary out h in
      (PublicFound-intro (lookup "error" out) error, results)

  -- Where `scrub_run_summary` returns, an entry that is neither the error nor the results is as it was.
  pub scrub_run_summary_frame :
      (summary out : Fields) (k : String)
      → scrub_run_summary shape_id is_zero summary ≡ some out
      → ("error" == k) ≡ false
      → ("results" == k) ≡ false
      → lookup k out ≡ lookup k summary
  scrub_run_summary_frame summary out k h e r =
      let (error, results, rest) = scrub_run_summary_lem summary out h in rest k e r
