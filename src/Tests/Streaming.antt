-- ===== src/Tests/Streaming.antt =====
-- A stream that is cut at a stop string.
use llm_infer.Prelude.{ℕ, ◌≡◌, refl, List, [], ◌∷◌}
use llm_infer.Serving.Server.Detokenizer.{fresh_detokenizer}
use llm_infer.Serving.Server.Stop.{Stopper, nonempty, new_stopper}
use llm_infer.Serving.Server.Stop.Emitted.{streamed, decoded, Told, streamed-truncates}

-- Each token is one code point.
abbrev plain : List ℕ → List ℕ
plain ids = ids

abbrev stop_strings : List (List ℕ)
stop_strings = [] ∷ (7 ∷ 8 ∷ []) ∷ []

-- The 7 of the second token is held back until the third shows that it starts no stop string.
abbrev stream_tokens : List ℕ
stream_tokens = 5 ∷ 7 ∷ 7 ∷ 8 ∷ 9 ∷ []

emitted_run : (streamed plain stream_tokens (new_stopper stop_strings)).0 ≡ 5 ∷ 7 ∷ []
unfolding streamed
emitted_run = refl

streamed-truncates_example :
    Told
      (nonempty stop_strings)
      (decoded plain stream_tokens fresh_detokenizer)
      (streamed plain stream_tokens (new_stopper stop_strings))
streamed-truncates_example = streamed-truncates plain stop_strings stream_tokens

-- The stream whose second token may still start the stop string.
abbrev open_run : List ℕ × Stopper
open_run = streamed plain (5 ∷ 7 ∷ []) (new_stopper stop_strings)
