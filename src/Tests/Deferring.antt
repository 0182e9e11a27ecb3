-- ===== src/Tests/Deferring.antt =====
-- Deferred windows of one request whose model counts the tokens.
use llm_infer.Prelude.{
  ℕ, zero, suc, ◌≡◌, refl, ap, sym, subst, ◌∙◌, String, none, some, some_cancel, List, [], ◌∷◌,
  ◌++◌, length, arith, ok,
}
use llm_infer.Serving.Request.{Request}
use llm_infer.Serving.Recorder.Greedy.{IsGreedy}
use llm_infer.Serving.Engine.{find}
use llm_infer.Serving.Windows.{DecodeWindow, Windows, column, drain_decode_window}
use llm_infer.Serving.Windows.Columns.{GreedyColumns, context}
use llm_infer.Serving.Windows.Draining.{matrix_of}
use llm_infer.Serving.Windows.Exactness.{Deferred, Drained, open_of, drain_decode_window-Drained}
use llm_infer.Tests.Speculating.{counting}

-- Tokens 4 and 5 are staged, and 6 is on the open window.
abbrev two_windows : Windows
two_windows = record {
  requests = counting ∷ [];
  running = "a" ∷ [];
  finished_outputs = [];
  decode_window = some (record { request_ids = "a" ∷ []; budget = 2; pending = (6 ∷ []) ∷ [] });
  pending_flush = some (record { request_ids = "a" ∷ []; matrix = (4 ∷ []) ∷ (5 ∷ []) ∷ [] });
}

one_batch :
    (matrix : List (List ℕ))
    → IsGreedy length (context counting) (column 0 matrix)
    → GreedyColumns length 0 ("a" ∷ []) matrix (counting ∷ [])
unfolding find
one_batch matrix g zero id r at here going =
    let this : find "a" (counting ∷ []) ≡ some r =
      ap (λ k. find k (counting ∷ [])) (some_cancel at) ∙ here in
    let is : counting ≡ r = some_cancel this in
    subst (λ q. IsGreedy length (context q) (column 0 matrix)) is g
one_batch matrix g (suc j) id r at here going = absurd (ground arith)

two_windows-Deferred : Deferred length two_windows
two_windows-Deferred = record {
  unique = (refl, tt);
  staged_unique = (refl, tt);
  staged_greedy = one_batch ((4 ∷ []) ∷ (5 ∷ []) ∷ []) (refl, (refl, tt));
  open_unique = (refl, tt);
  open_greedy = one_batch ((4 ∷ []) ∷ (5 ∷ []) ∷ (6 ∷ []) ∷ []) (refl, (refl, (refl, tt)));
  same_batch = λ staged opened is at.
      ap (λ (p : llm_infer.Serving.Windows.PendingWindowFlush). p.request_ids)
        (some_cancel (sym is))
      ∙ ap (λ (p : llm_infer.Serving.Windows.PendingWindowFlush). p.request_ids) (some_cancel at);
}

drain_decode_window-Drained_example :
    (w' : Windows) × (drain_decode_window two_windows ≡ ok tt w')
    × Drained length two_windows.pending_flush (open_of two_windows.decode_window) two_windows w'
drain_decode_window-Drained_example =
    drain_decode_window-Drained length two_windows two_windows-Deferred

-- What the model gives for one request of a batch, and for each.
abbrev next_token : String → ℕ → List (List ℕ) → List Request → ℕ
next_token id i matrix rs = elim (find id rs) [
  | none ↦ 0
  | some r ↦ length (context r ++ column i matrix)
]

abbrev next_row : List String → ℕ → List (List ℕ) → List Request → List ℕ
next_row [] i matrix rs = []
next_row (id ∷ ids) i matrix rs = next_token id i matrix rs ∷ next_row ids (suc i) matrix rs

unfoldable counting_forward : Windows → List ℕ → List ℕ
counting_forward w last = elim w.decode_window [
  | none ↦ []
  | some window ↦
      next_row window.request_ids 0 (matrix_of w.pending_flush ++ window.pending) w.requests
]
