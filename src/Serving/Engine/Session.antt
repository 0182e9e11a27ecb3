-- ===== src/Serving/Engine/Session.antt =====
-- `InferenceEngine.abort` of llm_infer/serving/engine.py between steps, over the deferred windows of an
-- engine without a prefix cache: what a forced drain collects is stashed for the next step. A waiting
-- or running request is its id here, and blocks and budgets are no part of this state; what the
-- abort frees of them is in Serving/Engine/Abort.
use llm_infer.Prelude.{
  ℕ, ◌+◌, String, Bool, true, false, not, ◌&&◌, Option, none, some, List, [], ◌∷◌, ltb,
  if◌then◌else◌, length, Outcome, ok, raise, ◌>>=◌,
}
use llm_infer.Serving.Engine.{names_member}
use llm_infer.Serving.Windows.{Windows, without, drain_decode_window}

-- `registered` holds the keys of `_requests`, and `stashed_flush` the outputs in `_stashed_flush`.
pub record Session : Type 0 where
  pub windows : Windows
  pub waiting : List String
  pub registered : List String
  pub stashed_flush : Option (List (String × List ℕ))

-- `self._requests.pop` for the requests that a drain has released.
abbrev pub still_registered : List String → List String → List String → List String
still_registered before after [] = []
still_registered before after (id ∷ ids) =
    if names_member id before && not (names_member id after)
    then still_registered before after ids
    else id ∷ still_registered before after ids

abbrev pub stashed : Option (List (String × List ℕ)) → List (String × List ℕ)
stashed none = []
stashed (some outputs) = outputs

abbrev pub has_window : Windows → Bool
has_window w = elim w.decode_window [
  | some window ↦ true
  | none ↦ elim w.pending_flush [ some p ↦ true | none ↦ false ]
]

abbrev pub collected : Session → Outcome Windows (Unit {0}) → Outcome Session (Unit {0})
collected s (raise err w) = raise err (record s {
  windows = w;
  registered = still_registered s.windows.running w.running s.registered;
})
collected s (ok _ w) = ok tt (record s {
  windows = w;
  registered = still_registered s.windows.running w.running s.registered;
  stashed_flush = some w.finished_outputs;
})

-- The drain of `abort`, into what is stashed already.
unfoldable pub drain_for_abort : Session → Outcome Session (Unit {0})
unfolding drain_decode_window
drain_for_abort s =
    if has_window s.windows
    then collected s
        (drain_decode_window (record (s.windows) { finished_outputs = stashed s.stashed_flush }))
    else ok tt s

-- `abort` after the drain.
unfoldable pub drop_request : String → Session → Outcome Session Bool
unfolding without
drop_request id s =
    if not (names_member id s.registered)
    then ok false s
    else let left : Session = record s { registered = without id s.registered } in
      if names_member id s.waiting
      then ok true (record left { waiting = without id s.waiting })
      else if names_member id s.windows.running
      then ok true
          (record left { windows = record (s.windows) { running = without id s.windows.running } })
      else ok false left

-- `abort` but for the freeing of the blocks and the budget.
unfoldable pub abort : String → Session → Outcome Session Bool
unfolding drain_for_abort drop_request
abort id s = drain_for_abort s >>= λ _ s'. drop_request id s'

-- `self.scheduler.has_work()`
abbrev pub has_work : Session → Bool
has_work s = ltb 0 (length s.waiting + length s.windows.running)
