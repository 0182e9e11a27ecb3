-- ===== src/Tests/Responding.antt =====
-- A response to a stream that is cut at a stop string.
use llm_infer.Prelude.{ℕ, ◌≡◌, true, Option, none, some, List, [], ◌∷◌, ◌++◌, bad_state, Error}
use llm_infer.Serving.Server.Stop.{new_stopper}
use llm_infer.Serving.Server.AsyncEngine.{TokenStreamItem}
use llm_infer.Serving.Server.Streaming.{
  DrainResult, drain_token_stream, stream_openai_sse, stream_responses_sse, role, created,
}
use llm_infer.Serving.Server.Streaming.Draining.{Drained, drain_token_stream-Drained}
use llm_infer.Serving.Server.Streaming.Sending.{
  deltas, joined, openai_tail, responses_tail, stream_openai_sse-drain, stream_responses_sse-drain,
}

abbrev as_text : List ℕ → List ℕ
as_text ids = ids

abbrev stops_at : List (List ℕ)
stops_at = (7 ∷ 8 ∷ []) ∷ []

abbrev token : ℕ → TokenStreamItem
token t = record { token_id = t; finish_reason = none }

abbrev items_sent : List TokenStreamItem
items_sent =
    token 5 ∷ token 7 ∷ token 8 ∷ (record { token_id = 9; finish_reason = some "length" }) ∷ []

drain_token_stream-Drained_example :
    (d : DrainResult) × (drain_token_stream as_text none items_sent (new_stopper stops_at)
      ≡ (d, none))
    × Drained as_text stops_at items_sent d
drain_token_stream-Drained_example = drain_token_stream-Drained as_text stops_at items_sent

abbrev result_of : Option Error → DrainResult × Option Error
result_of error = drain_token_stream as_text error items_sent (new_stopper [])

stream_openai_sse-drain_example :
    (parts : List (List ℕ)) × (joined parts ≡ (result_of none).0.text)
    × (stream_openai_sse true true 3 as_text none items_sent (new_stopper []) ≡ (
      role ∷ (deltas parts ++ openai_tail true 3 (result_of none).0 (result_of none).1),
      (result_of none).1,
    ))
stream_openai_sse-drain_example =
    stream_openai_sse-drain true true 3 as_text none items_sent (new_stopper [])

-- The token stream raises after its items.
stream_responses_sse-drain_example :
    (parts : List (List ℕ)) × (joined parts ≡ (result_of (some bad_state)).0.text)
    × (stream_responses_sse 3 as_text (some bad_state) items_sent (new_stopper []) ≡ (
      created
          ∷ (deltas parts
              ++ responses_tail 3 (result_of (some bad_state)).0 (result_of (some bad_state)).1),
      (result_of (some bad_state)).1,
    ))
stream_responses_sse-drain_example =
    stream_responses_sse-drain 3 as_text (some bad_state) items_sent (new_stopper [])
