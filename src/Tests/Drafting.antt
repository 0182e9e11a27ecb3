-- ===== src/Tests/Drafting.antt =====
-- A draft from the context.
use llm_infer.Prelude.{ℕ, ◌≡◌, refl, none, List, [], ◌∷◌, arith}
use llm_infer.Serving.Speculative.{SpeculativeDecodingConfig, draft_tokens}
use llm_infer.Serving.Speculative.Occurrences.{Continues, draft_tokens-Continues}

abbrev two_by_two : SpeculativeDecodingConfig
two_by_two = record { max_draft_tokens = 2; max_ngram_size = 2 }

-- The suffix 1 2 occurs at the start, and 3 4 follows it.
abbrev seen : List ℕ
seen = 1 ∷ 2 ∷ 3 ∷ 4 ∷ 5 ∷ 1 ∷ 2 ∷ []

draft_run : draft_tokens two_by_two seen none ≡ 3 ∷ 4 ∷ []
unfolding draft_tokens
draft_run = refl

draft_tokens-Continues_example : Continues seen 2 2 (draft_tokens two_by_two seen none)
draft_tokens-Continues_example =
    draft_tokens-Continues two_by_two seen none (omega arith) (omega arith)
