-- ===== src/Serving/Speculation/Room.antt =====
-- The room that a decode step reserves covers every draft.
use llm_infer.Prelude.{
  ℕ, ◌+◌, ◌-◌, ◌≤◌, ap, inl, inr, Bool, true, false, Bool-cases, Option, none, some, List, ◌++◌,
  arith, ltb, not-ltb→le, length,
}
use llm_infer.Serving.Request.{Request, remaining_tokens}
use llm_infer.Serving.Speculative.{SpeculativeDecodingConfig, draft_limit, draft_tokens}
use llm_infer.Serving.Speculative.Drafts.{draft_tokens-Drafted}
use llm_infer.Serving.Speculation.{draft_for, decode_budget}

draft_tokens_le :
    (c : SpeculativeDecodingConfig) (context : List ℕ) (max_tokens : Option ℕ)
    → length (draft_tokens c context max_tokens) ≤ draft_limit c max_tokens
unfolding draft_tokens
draft_tokens_le c context max_tokens = elim (Bool-cases (ltb (draft_limit c max_tokens) 1)) [
  | inl no_room ↦ rw (no_room, draft_tokens) (omega arith)
  | inr room ↦ elim (Bool-cases (ltb (length context) 2)) [
    | inl short ↦ rw (room, draft_tokens, short) (omega arith)
    | inr enough ↦
        elim (draft_tokens-Drafted c context max_tokens (not-ltb→le _ _ room)
          (not-ltb→le _ _ enough)) [
            | inl (is, _) ↦ omega (arith, ap length is)
            | inr (size, start, _, _, _, _, _, _, few, _, _) ↦ few
          ]
  ]
]

-- Whatever the request and the draft source, a draft with the token before it is within the budget
-- for which the decode step makes room.
pub draft_for-le-decode_budget :
    (speculative : Option SpeculativeDecodingConfig) (is_greedy : Bool) (r : Request)
    → length (draft_for speculative is_greedy r) + 1 ≤ decode_budget speculative is_greedy r
unfolding draft_for
draft_for-le-decode_budget none is_greedy r = omega arith
draft_for-le-decode_budget (some c) false r = omega arith
draft_for-le-decode_budget (some c) true r = elim (Bool-cases (ltb (remaining_tokens r - 1) 1)) [
  | inl no_room ↦ rw (no_room, draft_for) (omega arith)
  | inr room ↦
      rw (room, draft_for)
        (omega
          (arith, draft_tokens_le c (r.prompt_ids ++ r.generated) (some (remaining_tokens r - 1))))
]
