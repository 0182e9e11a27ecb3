-- ===== src/Serving/Engine/Results.antt =====
-- `StepResult` of llm_infer/serving/engine.py: what a step of the engine says, by request id. A dictionary
-- is the list of its items in the order of their insertion.
use llm_infer.Prelude.{ℕ, String, List, []}

pub record StepResult : Type 0 where
  pub admitted : List String
  pub prefill_chunks : List (String × (ℕ × ℕ))
  pub finished : List String
  pub tokens : List (String × List ℕ)
  pub finished_outputs : List (String × List ℕ)

abbrev pub no_result : StepResult
no_result = record {
  admitted = [];
  prefill_chunks = [];
  finished = [];
  tokens = [];
  finished_outputs = [];
}
