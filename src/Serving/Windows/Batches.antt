-- ===== src/Serving/Windows/Batches.antt =====
-- `_decode_window_step` of llm_infer/serving/engine_decode.py: the batch of a step, the window that is
-- opened for it, and its forward.
use text.Mathlib.Text.{◌==◌ as str_eq}
use llm_infer.Prelude.{
  ℕ, ◌-◌, min, String, Bool, true, false, ◌&&◌, Option, none, some, List, [], ◌∷◌, ◌++◌, ltb, leb,
  if◌then◌else◌, length, bad_state, Outcome, ok, raise,
}
use llm_infer.Serving.Request.{last_token, remaining_tokens}
use llm_infer.Serving.Engine.{find}
use llm_infer.Serving.Windows.{
  DecodeWindow, PendingWindowFlush, Windows, drain_decode_window, flush_decode_window,
}

abbrev pub names_eq : List String → List String → Bool
names_eq [] [] = true
names_eq [] (y ∷ ys) = false
names_eq (x ∷ xs) [] = false
names_eq (x ∷ xs) (y ∷ ys) = str_eq x y && names_eq xs ys

-- `[request for request in requests if not request.finished]`
unfoldable pub unfinished : List String → Windows → List String
unfolding find
unfinished [] w = []
unfinished (id ∷ ids) w = elim (find id w.requests) [
  | none ↦ unfinished ids w
  | some r ↦ let rest = unfinished ids w in if r.finished then rest else id ∷ rest
]

abbrev pub remaining_of : String → Windows → ℕ
remaining_of id w = elim (find id w.requests) [ none ↦ 0 | some r ↦ remaining_tokens r ]

-- `min(request.remaining_tokens for request in requests)`, of requests that are there.
abbrev pub least_remaining : List String → Windows → ℕ
least_remaining [] w = 0
least_remaining (id ∷ []) w = remaining_of id w
least_remaining (id ∷ other ∷ ids) w = min (remaining_of id w) (least_remaining (other ∷ ids) w)

abbrev pub all_beyond : ℕ → List String → Windows → Bool
all_beyond steps [] w = true
all_beyond steps (id ∷ ids) w = ltb steps (remaining_of id w) && all_beyond steps ids w

abbrev pub pipelined : PendingWindowFlush → List String → Windows → Bool
pipelined pending ids w =
    names_eq pending.request_ids ids && all_beyond (length pending.matrix) ids w

abbrev pub opened : ℕ → ℕ → List String → Windows → Windows
opened size staged_steps ids w = record w {
  decode_window = some (record {
    request_ids = ids;
    budget = min size (least_remaining ids w - staged_steps);
    pending = [];
  });
}

-- A drain, and the batch without those it finished.
abbrev pub drained : List String → Windows → Outcome Windows (List String)
drained ids w = elim (drain_decode_window w) [
  | raise e w' ↦ raise e w'
  | ok _ w' ↦ ok (unfinished ids w') w'
]

-- The batch that the step runs on, with a window of its own closed if it was another's.
unfoldable pub settle_batch : List String → Windows → Outcome Windows (List String)
unfolding drain_decode_window unfinished
settle_batch ids w = elim w.decode_window [
  | none ↦ ok ids w
  | some window ↦ if names_eq window.request_ids ids then ok ids w else drained ids w
]

abbrev pub open_on : ℕ → List String → Windows → Windows
open_on size [] w = w
open_on size (id ∷ ids) w = opened size 0 (id ∷ ids) w

-- A window for the batch, if none is open.
unfoldable pub open_window : ℕ → List String → Windows → Outcome Windows (List String)
unfolding drain_decode_window unfinished
open_window size ids w = elim w.decode_window [
  | some window ↦ ok ids w
  | none ↦ elim w.pending_flush [
    | none ↦ ok ids (open_on size ids w)
    | some pending ↦
        if pipelined pending ids w
        then ok ids (opened size (length pending.matrix) ids w)
        else elim (drained ids w) [
          | raise e w' ↦ raise e w'
          | ok ids' w' ↦ ok ids' (open_on size ids' w')
        ]
  ]
]

abbrev pub last_row : List (List ℕ) → Option (List ℕ)
last_row [] = none
last_row (row ∷ []) = some row
last_row (row ∷ next ∷ rows) = last_row (next ∷ rows)

-- The recorded last tokens; `none` is the ValueError of a request with no token yet.
unfoldable pub recorded_tokens : List String → Windows → Option (List ℕ)
unfolding find
recorded_tokens [] w = some []
recorded_tokens (id ∷ ids) w = elim (find id w.requests) [
  | none ↦ none
  | some r ↦ elim (last_token r) [
    | none ↦ none
    | some t ↦ elim (recorded_tokens ids w) [ none ↦ none | some ts ↦ some (t ∷ ts) ]
  ]
]

-- `pending.matrix[-1]` of a staged window of the same batch, or what is recorded.
abbrev pub staged_tokens : List String → Windows → Option (List ℕ)
staged_tokens ids w = elim w.pending_flush [
  | none ↦ recorded_tokens ids w
  | some p ↦ if names_eq p.request_ids ids then last_row p.matrix else recorded_tokens ids w
]

-- What the next forward of a window reads: its last row, or what came before it.
abbrev pub last_tokens_of : DecodeWindow → Windows → Option (List ℕ)
last_tokens_of window w = elim window.pending [
  | [] ↦ staged_tokens window.request_ids w
  | row ∷ rows ↦ last_row (row ∷ rows)
]

-- The rest of the step, on an open window.
unfoldable pub window_round :
    (Windows → List ℕ → List ℕ) → DecodeWindow → Windows → Outcome Windows (Unit {0})
unfolding flush_decode_window recorded_tokens
window_round forward window w = elim (last_tokens_of window w) [
  | none ↦ raise bad_state w
  | some last_tokens ↦
      let pending = window.pending ++ forward w last_tokens ∷ [] in
      let w' = record w { decode_window = some (record window { pending = pending }) } in
      if leb window.budget (length pending) then flush_decode_window w' else ok tt w'
]

-- A batch that the drains emptied ends the step.
abbrev pub run_round :
    (Windows → List ℕ → List ℕ) → List String → Windows → Outcome Windows (Unit {0})
run_round forward [] w = ok tt w
run_round forward (id ∷ ids) w = elim w.decode_window [
  | none ↦ ok tt w
  | some window ↦ window_round forward window w
]

unfoldable pub decode_window_step :
    ℕ → (Windows → List ℕ → List ℕ) → List String → Windows → Outcome Windows (Unit {0})
unfolding settle_batch open_window window_round
decode_window_step size forward ids w = elim (settle_batch ids w) [
  | raise e w' ↦ raise e w'
  | ok ids' w' ↦ elim (open_window size ids' w') [
    | raise e w'' ↦ raise e w''
    | ok ids'' w'' ↦ run_round forward ids'' w''
  ]
]
