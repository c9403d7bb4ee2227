-- ===== src/Runner/Registry/Tenants.antt =====
-- runner/registry.py: what tenants see of each other's changes.
use autobench.Prelude.{
  String, true, false, ◌≡◌, ◌≢◌, ◌⊎◌, inl, inr, refl, sym, ◌∙◌, Option, none, some, [], ◌∷◌, ◌++◌,
  select, ◌==◌, if◌then◌else◌, eq_iff, eq_refl, arith,
}
use autobench.Prelude.Dict.{get as get_key, put, get-put}
use autobench.Models.Run.{RunRequest, RunState}
use autobench.Runner.Registry.{
  Entry, Task, Runs, new_run, create, attach_task, write, get, get_run, list_runs, is_listed,
}

-- What a tenant does to the registry.
pub data Change (iss : String) (runs : Runs) : Runs → Type 0 where
  created :
      (run_id benchmark : String) (req : RunRequest)
      → get_key run_id runs ≡ none
      → Change iss runs (create run_id benchmark req iss runs).1
  attached :
      (run_id : String) (task : Task) (run : RunState)
      → get run_id iss runs ≡ some run
      → Change iss runs (attach_task run_id task runs)
  wrote :
      (run_id : String) (change : RunState → RunState) (run : RunState)
      → get run_id iss runs ≡ some run
      → Change iss runs (write run_id change runs)

module _ (mine other : String) (run_id : String) (e : Entry) (owned : e.iss ≡ mine)
    (differ : other ≢ mine) where
  -- Nobody's place, or the tenant's own: what is written there is no business of the other's.
  view_kept :
      (runs : Runs) (k : String)
      → (get_key run_id runs ≡ none)
        ⊎ ((old : Entry) × (get_key run_id runs ≡ some old) × (old.iss ≡ mine))
      → get k other (put run_id e runs) ≡ get k other runs
  unfolding get
  view_kept runs k (inl fresh) =
      ground (arith, get-put run_id k e runs, eq_iff run_id k, eq_iff e.iss other)
  view_kept runs k (inr (old, there, mine_too)) =
      ground
        (arith, get-put run_id k e runs, eq_iff run_id k, eq_iff e.iss other, eq_iff old.iss other)

  unlisted : (benchmark : String) (x : Entry) → x.iss ≡ mine → is_listed benchmark other x ≡ false
  unlisted benchmark x h = ground (arith, eq_iff x.iss other)

  list_kept :
      (benchmark : String) (runs : Runs)
      → (get_key run_id runs ≡ none)
        ⊎ ((old : Entry) × (get_key run_id runs ≡ some old) × (old.iss ≡ mine))
      → list_runs benchmark other (put run_id e runs) ≡ list_runs benchmark other runs
  unfolding list_runs select put get_key
  list_kept benchmark [] h = ground (arith, unlisted benchmark e owned)
  list_kept benchmark ((k, x) ∷ rest) (inl fresh) = ground (arith, list_kept benchmark rest (inl _))
  list_kept benchmark ((k, x) ∷ rest) (inr (old, there, mine_too)) = ground (
    arith,
    eq_iff k run_id,
    list_kept benchmark rest (inr (old, _, mine_too)),
    unlisted benchmark e owned,
    unlisted benchmark old mine_too,
  )

-- What `get` makes of what stands under the id.
visible : String → Option Entry → Option RunState
visible iss none = none
visible iss (some e) = if e.iss == iss then some e.state else none

visible_own :
    (iss : String) (run : RunState) (o : Option Entry)
    → visible iss o ≡ some run
    → (e : Entry) × (o ≡ some e) × (e.iss ≡ iss)
unfolding visible
visible_own iss run none h = ground arith
visible_own iss run (some e) h = (e, refl, ground (arith, eq_iff e.iss iss))

get-visible :
    (run_id iss : String) (runs : Runs) → get run_id iss runs ≡ visible iss (get_key run_id runs)
unfolding get visible
get-visible run_id iss runs = ground arith

own_entry :
    (iss run_id : String) (run : RunState) (runs : Runs)
    → get run_id iss runs ≡ some run
    → (e : Entry) × (get_key run_id runs ≡ some e) × (e.iss ≡ iss)
own_entry iss run_id run runs h =
    visible_own iss run (get_key run_id runs) (sym (get-visible run_id iss runs) ∙ h)

pub attach_there :
    (run_id : String) (task : Task) (runs : Runs) (e : Entry)
    → get_key run_id runs ≡ some e
    → attach_task run_id task runs ≡ put run_id (record e { task = some task }) runs
unfolding attach_task
attach_there run_id task runs e h = ground arith

pub write_there :
    (run_id : String) (change : RunState → RunState) (runs : Runs) (e : Entry)
    → get_key run_id runs ≡ some e
    → write run_id change runs ≡ put run_id (record e { state = change e.state }) runs
unfolding write
write_there run_id change runs e h = ground arith

-- A change is a new entry of the tenant's, in nobody's place or in the place of one of its own.
Change-put :
    (mine : String) (runs runs' : Runs)
    → Change mine runs runs'
    → (run_id : String) × (e : Entry) × (e.iss ≡ mine)
      × ((get_key run_id runs ≡ none)
          ⊎ ((old : Entry) × (get_key run_id runs ≡ some old) × (old.iss ≡ mine)))
      × (runs' ≡ put run_id e runs)
unfolding create
Change-put mine runs _ (created run_id benchmark req fresh) = (run_id, _, refl, inl fresh, refl)
Change-put mine runs _ (attached run_id task run own) =
    let (e, there, iss) = own_entry mine run_id run runs own in
    (
      run_id,
      record e { task = some task },
      iss,
      inr (e, there, iss),
      attach_there run_id task runs e there,
    )
Change-put mine runs _ (wrote run_id change run own) =
    let (e, there, iss) = own_entry mine run_id run runs own in
    (
      run_id,
      record e { state = change e.state },
      iss,
      inr (e, there, iss),
      write_there run_id change runs e there,
    )

-- A change by one tenant, with a fresh id where it creates a run, leaves what another tenant sees as
-- it was: what `get` returns to it for any id, and what `list` returns to it for any benchmark.
pub Change-unseen :
    (mine other : String) (runs runs' : Runs) (run_id benchmark : String)
    → other ≢ mine
    → Change mine runs runs'
    → (get run_id other runs' ≡ get run_id other runs)
      × (list_runs benchmark other runs' ≡ list_runs benchmark other runs)
Change-unseen mine other runs runs' k benchmark differ change =
    let (run_id, e, owned, place, h) = Change-put mine runs runs' change in
    rw h (
      view_kept mine other run_id e owned differ runs k place,
      list_kept mine other run_id e owned differ benchmark runs place,
    )

list_new :
    (run_id benchmark iss : String) (e : Entry) (runs : Runs)
    → is_listed benchmark iss e ≡ true
    → get_key run_id runs ≡ none
    → list_runs benchmark iss (put run_id e runs) ≡ list_runs benchmark iss runs ++ e.state ∷ []
unfolding list_runs select put get_key
list_new run_id benchmark iss e [] h fresh = ground arith
list_new run_id benchmark iss e ((k, x) ∷ rest) h fresh =
    ground (arith, list_new run_id benchmark iss e rest h)

-- A run that is created under a fresh id is pending and has no results, `get_run` finds it for its
-- tenant and its benchmark, and `list` has it as its last one.
pub create_found :
    (run_id benchmark iss : String) (req : RunRequest) (runs : Runs)
    → get_key run_id runs ≡ none
    → (get_run benchmark run_id iss (create run_id benchmark req iss runs).1
        ≡ some (new_run run_id benchmark req))
      × (list_runs benchmark iss (create run_id benchmark req iss runs).1
          ≡ list_runs benchmark iss runs ++ new_run run_id benchmark req ∷ [])
unfolding create get_run get
create_found run_id benchmark iss req runs fresh =
    let e : Entry = record { state = new_run run_id benchmark req; iss = iss; task = none } in
    (
      ground (arith, get-put run_id run_id e runs, eq_refl run_id, eq_refl iss, eq_refl benchmark),
      list_new run_id benchmark iss e runs (ground (arith, eq_refl iss, eq_refl benchmark)) fresh,
    )
