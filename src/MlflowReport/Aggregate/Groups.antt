-- ===== src/MlflowReport/Aggregate/Groups.antt =====
-- mlflow_report.py, `aggregate`: which records each rollup is of.
use autobench.Prelude.{
  ℕ, zero, suc, ◌+◌, ◌≤◌, ◌<◌, max, Bool, true, false, ◌≡◌, refl, ap, ◌∙◌, some, List, [], ◌∷◌,
  eq_iff, eq_refl, map, count_if, length, length-append, arith, if◌then◌else◌, Bool-cases, inl, inr,
}
use autobench.Models.Report.{MlflowTraceRecord, ReportAggregate}
use autobench.MlflowReport.Aggregate.{
  Stats, get_elem?, GroupKey, same_key, Groups, key_of, add_group, group, percentile, make_rollup,
  roll_up, roll_ups, aggregate,
}

same_key-eq : (a b : GroupKey) → same_key a b ≡ true → a ≡ b
unfolding same_key
same_key-eq a b h = ground (
  arith,
  eq_iff a.agent_name b.agent_name,
  eq_iff a.benchmark_name b.benchmark_name,
  eq_iff a.model b.model,
)

same_key_refl : (a : GroupKey) → same_key a a ≡ true
unfolding same_key
same_key_refl a = ground (arith, eq_refl a.agent_name, eq_refl a.benchmark_name, eq_refl a.model)

-- Of equal keys the same keys are equal.
same_key_left : (k a b : GroupKey) → same_key a b ≡ true → same_key k a ≡ same_key k b
same_key_left k a b h = ap (same_key k) (same_key-eq a b h)

-- A key that differs from one does not equal what that one equals.
same_key_other :
    (k a b : GroupKey) → same_key a b ≡ false → same_key k b ≡ true → same_key k a ≡ false
same_key_other k a b h e = elim (Bool-cases (same_key k a)) [
  | inl t ↦
      let ka = same_key-eq k a t in let kb = same_key-eq k b e in let r = same_key_refl b in cc
  | inr f ↦ f
]

module _ {F : Type 0} where
  -- The records of the groups of a key.
  abbrev members : GroupKey → Groups F → ℕ
  members k [] = 0
  members k ((g, rs) ∷ groups) = (if same_key k g then length rs else 0) + members k groups

  abbrev has : GroupKey → GroupKey × List (MlflowTraceRecord F) → Bool
  has k g = same_key k g.0

  members-add_group :
      (k key : GroupKey) (r : MlflowTraceRecord F) (groups : Groups F)
      → members k (add_group key r groups) ≡ members k groups + (if same_key k key then 1 else 0)
  unfolding add_group
  members-add_group k key r [] = ground arith
  members-add_group k key r ((g, rs) ∷ groups) =
      ground
        (arith, same_key_left k g key, length-append rs (r ∷ []), members-add_group k key r groups)

  count-add_group :
      (k key : GroupKey) (r : MlflowTraceRecord F) (groups : Groups F)
      → count_if (has k) (add_group key r groups)
        ≡ (if same_key k key then max 1 (count_if (has k) groups) else count_if (has k) groups)
  unfolding add_group count_if
  count-add_group k key r [] = ground arith
  count-add_group k key r ((g, rs) ∷ groups) =
      ground (arith, same_key_left k g key, same_key_other k g key, count-add_group k key r groups)

  members-group :
      (k : GroupKey) (records : List (MlflowTraceRecord F)) (groups : Groups F)
      → members k (group groups records)
        ≡ members k groups + count_if (λ r. same_key k (key_of r)) records
  unfolding group count_if
  members-group k [] groups = omega arith
  members-group k (r ∷ records) groups = omega (
    arith,
    members-add_group k (key_of r) r groups,
    members-group k records (add_group (key_of r) r groups),
  )

  count-group :
      (k : GroupKey) (records : List (MlflowTraceRecord F)) (groups : Groups F)
      → count_if (has k) groups ≤ 1
      → count_if (has k) (group groups records) ≤ 1
  unfolding group
  count-group k [] groups h = h
  count-group k (r ∷ records) groups h =
      count-group k records (add_group (key_of r) r groups)
        (ground (arith, count-add_group k (key_of r) r groups))

get_elem?_within :
    {A : Type 0} (xs : List A) (i : ℕ) → i < length xs → (x : A) × (get_elem? xs i ≡ some x)
unfolding get_elem?
get_elem?_within [] i h = absurd (omega arith)
get_elem?_within (x ∷ xs) zero h = (x, refl)
get_elem?_within (x ∷ xs) (suc i) h = get_elem?_within xs i (omega arith)

abbrev pub key_of_rollup : {F : Type 0} → ReportAggregate F → GroupKey
key_of_rollup a = record {
  agent_name = a.agent_name;
  benchmark_name = a.benchmark_name;
  model = a.model;
  num_parallel = a.num_parallel;
}

abbrev pub is_for : {F : Type 0} → GroupKey → ReportAggregate F → Bool
is_for k a = same_key k (key_of_rollup a)

-- The traces of the rollups for a key.
abbrev pub traces_for : {F : Type 0} → GroupKey → List (ReportAggregate F) → ℕ
traces_for k [] = 0
traces_for k (a ∷ aggregates) = (if is_for k a then a.trace_count else 0) + traces_for k aggregates

module _ {F : Type 0} (stats : Stats F)
    (sorted_length : (values : List F) → length (stats.sorted values) ≡ length values) where
  percentile_total : (values : List F) (p : F) → (x : F) × (percentile stats values p ≡ some x)
  unfolding percentile
  percentile_total [] p = (stats.zero_f, refl)
  percentile_total (v ∷ values) p =
      get_elem?_within (stats.sorted (v ∷ values)) _ (ground (arith, sorted_length (v ∷ values)))

  roll_up_total :
      (key : GroupKey) (recs : List (MlflowTraceRecord F))
      → (a : ReportAggregate F) × (roll_up stats key recs ≡ some a)
        × (a.trace_count ≡ length recs)
        × (key_of_rollup a ≡ key)
  unfolding roll_up make_rollup
  roll_up_total key recs =
      let (p50, at_half) = percentile_total (map (λ r. r.total_latency_s) recs) stats.half in
      let (p95, at_most) = percentile_total (map (λ r. r.total_latency_s) recs) stats.most in
      (make_rollup stats key recs p50 p95, ground (arith, at_half, at_most), refl, refl)

  -- What the rollups of the groups are for.
  abbrev Covers : GroupKey → Groups F → List (ReportAggregate F) → Type 0
  Covers k groups aggregates =
      (traces_for k aggregates ≡ members k groups)
      × (count_if (is_for k) aggregates ≡ count_if (has k) groups)

  roll_ups_total :
      (k : GroupKey) (groups : Groups F)
      → (aggregates : List (ReportAggregate F)) × (roll_ups stats groups ≡ some aggregates)
        × Covers k groups aggregates
  unfolding roll_ups count_if
  roll_ups_total k [] = ([], refl, (refl, refl))
  roll_ups_total k ((key, recs) ∷ groups) =
      let (a, made, count, same) = roll_up_total key recs in
      let (rest, all, (traces, times)) = roll_ups_total k groups in
      (a ∷ rest, ground (arith, made, all), (rw (same, count, traces) refl, rw (same, times) refl))

  -- If `sorted` keeps the number of its values, `aggregate` raises nothing, and for every key, the
  -- agent, the benchmark, the model and the parallelism, at most one rollup has it; the traces that
  -- it counts are as many as the records of that key, none if there is no such rollup.
  pub aggregate_covers :
      (k : GroupKey) (records : List (MlflowTraceRecord F))
      → (aggregates : List (ReportAggregate F)) × (aggregate stats records ≡ some aggregates)
        × (count_if (is_for k) aggregates ≤ 1)
        × (traces_for k aggregates ≡ count_if (λ r. same_key k (key_of r)) records)
  unfolding aggregate count_if
  aggregate_covers k records =
      let (aggregates, made, (traces, times)) = roll_ups_total k (group [] records) in
      (
        aggregates,
        made,
        omega (arith, times, count-group k records [] (omega arith)),
        traces ∙ (members-group k records [] ∙ omega arith),
      )
