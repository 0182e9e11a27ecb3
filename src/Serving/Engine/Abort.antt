-- ===== src/Serving/Engine/Abort.antt =====
-- `InferenceEngine.abort` of llm_infer/serving/engine.py on the scheduler and the pool, after the drain
-- of open deferred windows, which Serving/Engine/Session has.
pub mod Released
use llm_infer.Prelude.{
  String, Bool, true, false, not, Option, none, some, List, if◌then◌else◌, Outcome, ok, raise,
}
use llm_infer.Serving.Request.{Request}
use llm_infer.Scheduler.{Scheduler, remove, release}
use llm_infer.Serving.Engine.{Engine, find, names_member}
use llm_infer.Serving.Engine.Preemption.{free_victim}
use llm_infer.Serving.Windows.{without}

-- A waiting request has no blocks yet.
abbrev pub drop_waiting : String → Engine → Engine
drop_waiting id e = elim (remove id e.scheduler.waiting) [
  | none ↦ e
  | some waiting ↦ record e { scheduler = record (e.scheduler) { waiting = waiting } }
]

abbrev pub released : Engine → Outcome Scheduler (Unit {0}) → Outcome Engine Bool
released e (ok _ s) = ok true (record e { scheduler = s })
released e (raise err s) = raise err (record e { scheduler = s })

unfoldable pub drop_running : Request → Engine → Outcome Engine Bool
unfolding free_victim release
drop_running r e = elim (free_victim r e) [
  | raise err e' ↦ raise err e'
  | ok freed e' ↦ released e' (release freed e'.scheduler)
]

unfoldable pub abort : String → Engine → Outcome Engine Bool
unfolding find remove without drop_running
abort id e =
    if not (names_member id e.registered)
    then ok false e
    else let left : Engine = record e { registered = without id e.registered } in
      elim (find id e.scheduler.waiting) [
        | some r ↦ ok true (drop_waiting id left)
        | none ↦ elim (find id e.scheduler.running) [
          | some r ↦ drop_running r left
          | none ↦ ok false left
        ]
      ]
