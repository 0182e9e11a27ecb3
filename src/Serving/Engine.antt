-- ===== src/Serving/Engine.antt =====
-- The engine of llm_infer/serving/engine.py: its scheduler, its pool and its requests. A request stands
-- in one of the scheduler's lists; other code that holds a reference to it holds its id here.
pub mod Preemption
pub mod Registration
pub mod Results
pub mod Session
pub mod Abort
pub mod Groups
pub mod Prefill
use text.Mathlib.Text.{◌==◌ as str_eq}
use llm_infer.Prelude.{
  ℕ, String, Option, none, some, List, [], ◌∷◌, ◌++◌, if◌then◌else◌, Outcome, ok, raise, Bool, true,
  false, not, ◌&&◌, unsupported, duplicate_request,
}
use llm_infer.KvCache.Pool.{Pool}
use llm_infer.KvCache.BlockTable.{BlockTable, Held}
use llm_infer.Serving.Request.{Request}
use llm_infer.Scheduler.{Scheduler, add}

-- `registered` holds the keys of `_requests`.
pub record Engine : Type 0 where
  pub scheduler : Scheduler
  pub pool : Pool
  pub registered : List String
  pub preemption_count : ℕ

unfoldable pub find : String → List Request → Option Request
find id [] = none
find id (r ∷ rs) = if str_eq r.request_id id then some r else find id rs

unfoldable pub replace : Request → List Request → List Request
replace r [] = []
replace r (u ∷ us) = if str_eq u.request_id r.request_id then r ∷ us else u ∷ replace r us

-- The request behind a reference.
unfoldable pub find_request : String → Engine → Option Request
unfolding find
find_request id e = elim (find id e.scheduler.running) [
  | some r ↦ some r
  | none ↦ find id e.scheduler.waiting
]

-- A change of the request through a reference.
unfoldable pub store_request : Request → Engine → Engine
unfolding replace
store_request r e = record e {
  scheduler = record (e.scheduler) {
    running = replace r e.scheduler.running;
    waiting = replace r e.scheduler.waiting;
  };
}

-- `_free_block_table` on a table of the engine's pool: the table after it.
unfoldable pub free_block_table : BlockTable → Engine → Outcome Engine BlockTable
unfolding llm_infer.KvCache.BlockTable.release
free_block_table t e =
    elim (llm_infer.KvCache.BlockTable.release (record { table = t; pool = e.pool })) [
      | ok _ h ↦ ok h.table (record e { pool = h.pool })
      | raise err h ↦ raise err (record e { pool = h.pool })
    ]

abbrev pub names_member : String → List String → Bool
names_member id [] = false
names_member id (key ∷ ks) = if str_eq key id then true else names_member id ks

abbrev pub grouped : Request → Bool
grouped r = elim r.prefix_group_id [ none ↦ false | some group ↦ true ]

-- The id is registered before the scheduler may refuse the request.
abbrev pub registered_request :
    Request → Engine → Outcome Scheduler (Unit {0}) → Outcome Engine (Unit {0})
registered_request r e (ok _ s) =
    ok tt (record e { scheduler = s; registered = e.registered ++ r.request_id ∷ [] })
registered_request r e (raise err s) =
    raise err (record e { scheduler = s; registered = e.registered ++ r.request_id ∷ [] })

unfoldable pub add_request : Bool → Request → Engine → Outcome Engine (Unit {0})
unfolding add
add_request prefix_caching r e =
    if grouped r && not prefix_caching
    then raise unsupported e
    else if names_member r.request_id e.registered
    then raise duplicate_request e
    else registered_request r e (add r e.scheduler)
