-- ===== src/Serving/Windows.antt =====
-- The deferred decode windows of llm_infer/serving/engine_decode.py: tokens stay on the device for a window
-- of steps and are recorded one window behind. `forward` is the decode with its sampling: the next
-- token of each request of the batch from their last tokens and what the cache holds, for which the
-- state stands. The engine has no prefix cache, and blocks and budgets are no part of this state:
-- where they are exact, freeing a table and giving back a budget do not raise (`release-Books` of
-- KvCache/BlockTable/Ownership and `release-Balanced` of Scheduler/Books). With a prefix cache a
-- release can raise, see Serving/Finish/Donation. The copy to the host and its stop flags hold the
-- same tokens and are left out.
pub mod Batches
pub mod Columns
pub mod Consumption
pub mod Draining
pub mod Exactness
pub mod Steps
pub mod Opening
pub mod Rounds
pub mod Feeding
use text.Mathlib.Text.{◌==◌ as str_eq}
use llm_infer.Prelude.{
  ℕ, suc, ◌+◌, ◌-◌, min, String, Bool, true, false, not, ◌&&◌, Option, none, some, List, [], ◌∷◌,
  ◌++◌, ltb, leb, if◌then◌else◌, length, get_or, map, bad_state, Outcome, ok, raise,
}
use llm_infer.Serving.Request.{Request, last_token, remaining_tokens}
use llm_infer.Serving.Recorder.{record_tokens}
use llm_infer.Serving.Engine.{find, replace, names_member}

-- `pending` has a row for each step, the last row at the end.
pub record DecodeWindow : Type 0 where
  pub request_ids : List String
  pub budget : ℕ
  pub pending : List (List ℕ)

-- `matrix` has a row for each step; their number is `steps`.
pub record PendingWindowFlush : Type 0 where
  pub request_ids : List String
  pub matrix : List (List ℕ)

-- `requests` holds the request objects, `running` the ids of those that run, and `finished_outputs`
-- what the step result collects, oldest first.
pub record Windows : Type 0 where
  pub requests : List Request
  pub running : List String
  pub finished_outputs : List (String × List ℕ)
  pub decode_window : Option DecodeWindow
  pub pending_flush : Option PendingWindowFlush

abbrev pub column : ℕ → List (List ℕ) → List ℕ
column i [] = []
column i (row ∷ rows) = get_or row i 0 ∷ column i rows

-- The loop of `_consume_window_flush` over the columns.
unfoldable pub record_columns :
    ℕ → List String → List (List ℕ) → List Request → Outcome (List Request) (Unit {0})
unfolding find replace record_tokens
record_columns i [] matrix rs = ok tt rs
record_columns i (id ∷ ids) matrix rs = elim (find id rs) [
  | none ↦ record_columns (suc i) ids matrix rs
  | some r ↦ elim (record_tokens (column i matrix) r) [
    | raise e r' ↦ raise e (replace r' rs)
    | ok _ r' ↦ record_columns (suc i) ids matrix (replace r' rs)
  ]
]

-- `list.remove` on the running ids.
unfoldable pub without : String → List String → List String
without id [] = []
without id (key ∷ ks) = if str_eq key id then ks else key ∷ without id ks

-- A round of `_release_finished_in`, for the running set and the outputs: `scheduler.release` takes
-- the id out of the running ones.
unfoldable pub release_one : String → Request → Windows → Windows
unfolding without
release_one id r w =
    if r.finished && names_member id w.running
    then record w {
      running = without id w.running;
      finished_outputs = w.finished_outputs ++ (id, r.generated) ∷ [];
    }
    else w

unfoldable pub release_finished : List String → Windows → Windows
unfolding find release_one
release_finished [] w = w
release_finished (id ∷ ids) w = elim (find id w.requests) [
  | none ↦ release_finished ids w
  | some r ↦ release_finished ids (release_one id r w)
]

unfoldable pub consume_window_flush : PendingWindowFlush → Windows → Outcome Windows (Unit {0})
unfolding record_columns release_finished
consume_window_flush pending w =
    elim (record_columns 0 pending.request_ids pending.matrix w.requests) [
      | raise e rs ↦ raise e (record w { requests = rs })
      | ok _ rs ↦ ok tt (release_finished pending.request_ids (record w { requests = rs }))
    ]

abbrev pub consume_some : Option PendingWindowFlush → Windows → Outcome Windows (Unit {0})
consume_some none w = ok tt w
consume_some (some pending) w = consume_window_flush pending w

abbrev pub stage_window_flush : DecodeWindow → PendingWindowFlush
stage_window_flush window = record { request_ids = window.request_ids; matrix = window.pending }

-- Without a window, or with an empty one, what is staged stays staged.
unfoldable pub flush_decode_window : Windows → Outcome Windows (Unit {0})
unfolding consume_window_flush
flush_decode_window w = elim w.decode_window [
  | none ↦ ok tt w
  | some window ↦ elim window.pending [
    | [] ↦ ok tt (record w { decode_window = none })
    | row ∷ rows ↦
        consume_some w.pending_flush
          (record w { decode_window = none; pending_flush = some (stage_window_flush window) })
  ]
]

unfoldable pub drain_decode_window : Windows → Outcome Windows (Unit {0})
unfolding flush_decode_window
drain_decode_window w = elim (flush_decode_window w) [
  | raise e w' ↦ raise e w'
  | ok _ w' ↦ consume_some w'.pending_flush (record w' { pending_flush = none })
]
