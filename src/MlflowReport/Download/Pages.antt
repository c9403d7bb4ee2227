-- ===== src/MlflowReport/Download/Pages.antt =====
-- mlflow_report.py, the loop over the pages of `download_traces`.
use autobench.Prelude.{
  ℕ, suc, zero, ◌≤◌, String, Bool, true, false, ◌≡◌, refl, sym, ap, ◌∙◌, Option, some, List, [],
  ◌∷◌, ◌++◌, select, length, arith, if◌then◌else◌, ◌||◌,
}
use autobench.Prelude.Outcome.{Action, Outcome, return, pure}
use autobench.Models.Config.{MlflowConfig}
use autobench.MlflowReport.Download.{
  TraceInfo, Page, Server, MlflowRequest, mlflow_request, page_path, is_long_enough, is_before,
  scan_page, is_last, list_traces,
}
use mathlib.Core.List.{append_assoc, append-nil}

-- The traces before the first that is older than the cutoff.
unfoldable pub until_cutoff : Option ℕ → List TraceInfo → List TraceInfo
until_cutoff since_ms [] = []
until_cutoff since_ms (t ∷ traces) =
    let rest = until_cutoff since_ms traces in
    if is_before since_ms t.timestamp_ms then [] else t ∷ rest

unfoldable pub has_cutoff : Option ℕ → List TraceInfo → Bool
has_cutoff since_ms [] = false
has_cutoff since_ms (t ∷ traces) = is_before since_ms t.timestamp_ms || has_cutoff since_ms traces

scan_page_lem :
    (since_ms : Option ℕ) (d : ℕ) (traces : List TraceInfo)
    → ((scan_page since_ms d traces).0 ≡ select (is_long_enough d) (until_cutoff since_ms traces))
      × ((scan_page since_ms d traces).1 ≡ has_cutoff since_ms traces)
unfolding scan_page until_cutoff has_cutoff select
scan_page_lem since_ms d [] = (refl, refl)
scan_page_lem since_ms d (t ∷ traces) = ground (arith, scan_page_lem since_ms d traces)

-- Past the cutoff nothing is kept; otherwise the two lists are searched one after another.
until_cutoff-append :
    (since_ms : Option ℕ) (xs ys : List TraceInfo)
    → until_cutoff since_ms (xs ++ ys) ≡ (
        if has_cutoff since_ms xs then until_cutoff since_ms xs else xs ++ until_cutoff since_ms ys)
unfolding until_cutoff has_cutoff
until_cutoff-append since_ms [] ys = refl
until_cutoff-append since_ms (t ∷ xs) ys = ground (arith, until_cutoff-append since_ms xs ys)

until_all :
    (since_ms : Option ℕ) (xs : List TraceInfo)
    → has_cutoff since_ms xs ≡ false
    → until_cutoff since_ms xs ≡ xs
unfolding until_cutoff has_cutoff
until_all since_ms [] h = refl
until_all since_ms (t ∷ xs) h = ground (arith, until_all since_ms xs)

select-append :
    (test : TraceInfo → Bool) (xs ys : List TraceInfo)
    → select test (xs ++ ys) ≡ select test xs ++ select test ys
unfolding select
select-append test [] ys = refl
select-append test (x ∷ xs) ys = ground (arith, select-append test xs ys)

split_lem :
    (since_ms : Option ℕ) (d : ℕ) (xs rest : List TraceInfo)
    → select (is_long_enough d) (until_cutoff since_ms (xs ++ rest)) ≡ (
        if (scan_page since_ms d xs).1
        then (scan_page since_ms d xs).0
        else (scan_page since_ms d xs).0 ++ select (is_long_enough d) (until_cutoff since_ms rest))
split_lem since_ms d xs rest = ground (
  arith,
  scan_page_lem since_ms d xs,
  until_cutoff-append since_ms xs rest,
  until_all since_ms xs,
  select-append (is_long_enough d) xs (until_cutoff since_ms rest),
)

is_last_lem :
    (reached : Bool) (page : Page) → is_last reached page ≡ (reached || is_last false page)
unfolding is_last
is_last_lem reached page = ground arith

abbrev pub concat : List Page → List TraceInfo
concat [] = []
concat (page ∷ pages) = page.traces ++ concat pages

module _ {W : Type 0} (server : Server W) (cfg : MlflowConfig) (token : String) where
  abbrev pub page_request : Option String → MlflowRequest
  page_request page_token = mlflow_request cfg token (page_path cfg.experiment_id page_token)

  -- From this state, for this page token, the server has these pages, each but the last with the
  -- token of the next: the last one is empty or has no token.
  pub data Serves : Option String → List Page → W → Type 0 where
    last :
        (page_token : Option String) (page : Page) (w v : W)
        → server.list_page (page_request page_token) w ≡ (return page, v)
        → is_last false page ≡ true
        → Serves page_token (page ∷ []) w
    next :
        (page_token : Option String) (page : Page) (pages : List Page) (w v : W)
        → server.list_page (page_request page_token) w ≡ (return page, v)
        → is_last false page ≡ false
        → Serves page.next_page_token pages v
        → Serves page_token (page ∷ pages) w

  abbrev pub Listed :
      Option ℕ
      → ℕ
      → List TraceInfo
      → List TraceInfo
      → Outcome (Option (List TraceInfo)) × W
      → Type 0
  Listed since_ms d kept traces r =
      r.0 ≡ return (some (kept ++ select (is_long_enough d) (until_cutoff since_ms traces)))

  decide_page :
      (reached ends : Bool) (kept scanned others : List TraceInfo) (v : W)
      (more : Action W (Option (List TraceInfo)))
      → (ends ≡ true → others ≡ [])
      → (ends ≡ false → (more v).0 ≡ return (some ((kept ++ scanned) ++ others)))
      → ((if reached || ends then pure (some (kept ++ scanned)) else more) v).0
        ≡ return (some (kept ++ (if reached then scanned else scanned ++ others)))
  decide_page true ends kept scanned others v more at_end goes_on = refl
  decide_page false true kept scanned others v more at_end goes_on =
      ap (λ l. return (some (kept ++ l)))
        (sym (append-nil scanned) ∙ ap (λ l. scanned ++ l) (sym (at_end refl)))
  decide_page false false kept scanned others v more at_end goes_on =
      goes_on refl ∙ ap (λ l. return (some l)) (append_assoc kept scanned others)

  -- The loop after a page is read, if it is the last one or the rest goes on as it should.
  page_lem :
      (since_ms : Option ℕ) (d : ℕ) (kept : List TraceInfo) (page : Page) (rest : List TraceInfo)
      (v : W) (more : Action W (Option (List TraceInfo)))
      → (is_last false page ≡ true → rest ≡ [])
      → (is_last false page ≡ false
          → Listed since_ms d (kept ++ (scan_page since_ms d page.traces).0) rest (more v))
      → Listed since_ms d kept (page.traces ++ rest) (
          (if is_last (scan_page since_ms d page.traces).1 page
              then pure (some (kept ++ (scan_page since_ms d page.traces).0))
              else more)
            v)
  unfolding until_cutoff select
  page_lem since_ms d kept page rest v more at_end goes_on =
      rw
        (
          is_last_lem (scan_page since_ms d page.traces).1 page,
          split_lem since_ms d page.traces rest,
        )
        (decide_page (scan_page since_ms d page.traces).1 (is_last false page) kept
          (scan_page since_ms d page.traces).0
          (select (is_long_enough d) (until_cutoff since_ms rest)) v more
          (λ ends. ap (λ l. select (is_long_enough d) (until_cutoff since_ms l)) (at_end ends))
          goes_on)

  -- From a state in which the server has finitely many pages, and with as many rounds as there are
  -- pages, the loop ends; it returns what was kept before, and then what is long enough of the traces of all the
  -- pages, in their order, before the first that is older than the cutoff.
  pub list_traces_ends :
      (since_ms : Option ℕ) (d fuel : ℕ) (kept : List TraceInfo) (page_token : Option String)
      (pages : List Page) (w : W)
      → Serves page_token pages w
      → length pages ≤ fuel
      → Listed since_ms d kept
          (concat pages)
          (list_traces server cfg token since_ms d fuel kept page_token w)
  unfolding list_traces
  list_traces_ends since_ms d zero kept page_token pages w (last _ page _ v answer ends) h =
      absurd (omega arith)
  list_traces_ends since_ms d zero kept page_token pages w
        (next _ page pages' _ v answer goes serves) h =
      absurd (omega arith)
  list_traces_ends since_ms d (suc fuel) kept page_token pages w (last _ page _ v answer ends) h =
      rw answer (
        page_lem since_ms d kept page [] v
          (list_traces server cfg token since_ms d fuel
            (kept ++ (scan_page since_ms d page.traces).0) page.next_page_token)
          (λ _. refl) (λ goes. cc))
  list_traces_ends since_ms d (suc fuel) kept page_token pages w
        (next _ page pages' _ v answer goes serves) h =
      rw answer (
        page_lem since_ms d kept page (concat pages') v
          (list_traces server cfg token since_ms d fuel
            (kept ++ (scan_page since_ms d page.traces).0) page.next_page_token)
          (λ ends. cc)
          (λ _.
            list_traces_ends since_ms d fuel (kept ++ (scan_page since_ms d page.traces).0)
              page.next_page_token pages' v serves (omega arith)))
