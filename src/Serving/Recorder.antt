-- ===== src/Serving/Recorder.antt =====
-- The loops of llm_infer/serving/engine_decode.py that record tokens in a request until it is finished,
-- in `_decode_speculative` and, for a column of a window, in `_consume_window_flush`. What they note
-- in the step result is not in the model.
pub mod Greedy
use llm_infer.Prelude.{ℕ, true, false, some, List, [], ◌∷◌, member, Outcome, ok, raise}
use llm_infer.Serving.Request.{Request, record_token}

unfoldable pub record_tokens : List ℕ → Request → Outcome Request (Unit {0})
unfolding record_token
record_tokens [] r = ok tt r
record_tokens (t ∷ ts) r = elim r.finished [
  | true ↦ ok tt r
  | false ↦ elim (record_token t (some (member t r.eos_token_ids)) r) [
    | ok _ r' ↦ record_tokens ts r'
    | raise e r' ↦ raise e r'
  ]
]
