-- ===== src/Serving/Speculation.antt =====
-- Speculative decoding in llm_infer/serving/engine_decode.py: `_draft_for`, `_decode_budget` and
-- `_decode_speculative` up to the release of a finished request. `decode_tokens`, the model's forward
-- over the last token and the draft, is a parameter; it gives the argmax of each row of logits.
pub mod Emission
pub mod Equivalence
pub mod Room
use llm_infer.Prelude.{
  ℕ, suc, ◌+◌, ◌-◌, min, Bool, true, false, ◌||◌, Option, none, some, List, [], ◌∷◌, ◌++◌, ltb,
  ◌==◌, if◌then◌else◌, length, get_or, take, member, bad_state, Outcome, ok, raise,
}
use llm_infer.KvCache.Pool.{Pool}
use llm_infer.KvCache.BlockTable.{BlockTable, Held, trim_to_length}
use llm_infer.Serving.Request.{Request, last_token, remaining_tokens}
use llm_infer.Serving.Recorder.{record_tokens}
use llm_infer.Serving.Speculative.{SpeculativeDecodingConfig, draft_tokens}

-- The draft source of the engine, if there is one, for a request that is decoded greedily or not.
unfoldable pub draft_for : Option SpeculativeDecodingConfig → Bool → Request → List ℕ
unfolding draft_tokens
draft_for none is_greedy r = []
draft_for (some c) false r = []
draft_for (some c) true r =
    let max_draft_tokens = remaining_tokens r - 1 in
    if ltb max_draft_tokens 1
    then []
    else draft_tokens c (r.prompt_ids ++ r.generated) (some max_draft_tokens)

abbrev pub decode_budget : Option SpeculativeDecodingConfig → Bool → Request → ℕ
decode_budget none is_greedy r = 1
decode_budget (some c) false r = 1
decode_budget (some c) true r = 1 + min c.max_draft_tokens (remaining_tokens r - 1)

unfoldable pub accepted_prefix_length : List ℕ → List ℕ → ℕ
accepted_prefix_length [] draft = 0
accepted_prefix_length (v ∷ verifier_tokens) [] = 0
accepted_prefix_length (v ∷ verifier_tokens) (d ∷ draft) =
    let rest = accepted_prefix_length verifier_tokens draft in if v == d then suc rest else 0

abbrev pub contains_eos : List ℕ → List ℕ → Bool
contains_eos eos_token_ids [] = false
contains_eos eos_token_ids (t ∷ ts) = member t eos_token_ids || contains_eos eos_token_ids ts

unfoldable pub truncate_after_eos : List ℕ → List ℕ → List ℕ
truncate_after_eos eos_token_ids [] = []
truncate_after_eos eos_token_ids (t ∷ ts) =
    let rest = truncate_after_eos eos_token_ids ts in
    if member t eos_token_ids then t ∷ [] else t ∷ rest

-- The token after the accepted ones: the last row, or the row of the first rejected token.
abbrev pub recovery : List ℕ → List ℕ → ℕ → ℕ
recovery draft verifier_tokens accepted =
    if accepted == length draft
    then get_or verifier_tokens (length verifier_tokens - 1) 0
    else get_or verifier_tokens accepted 0

abbrev pub with_recovery : List ℕ → List ℕ → List ℕ → ℕ → List ℕ
with_recovery eos_token_ids draft verifier_tokens accepted =
    if contains_eos eos_token_ids (take accepted draft)
    then take accepted draft
    else take accepted draft ++ recovery draft verifier_tokens accepted ∷ []

-- `emitted`
unfoldable pub emitted_tokens : List ℕ → List ℕ → List ℕ → List ℕ
unfolding accepted_prefix_length truncate_after_eos
emitted_tokens eos_token_ids draft verifier_tokens = truncate_after_eos eos_token_ids (
    with_recovery eos_token_ids draft verifier_tokens
      (accepted_prefix_length (take (length verifier_tokens - 1) verifier_tokens) draft))

-- A request with the pool that its table draws from.
pub record Turn : Type 0 where
  pub request : Request
  pub pool : Pool

abbrev pub turned : Request → Held → Turn
turned r h = record { request = record r { block_table = some h.table }; pool = h.pool }

-- The end of the turn: the trim of a request that goes on.
abbrev pub trimmed : Request → Held → Outcome Turn (Unit {0})
trimmed r h = elim r.finished [
  | true ↦ ok tt (turned r h)
  | false ↦ elim (trim_to_length h) [
    | ok _ h' ↦ ok tt (turned r h')
    | raise e h' ↦ raise e (turned r h')
  ]
]

-- `_decode_speculative` after the forward.
unfoldable pub settle_draft : List ℕ → ℕ → Request → Held → Outcome Turn (Unit {0})
unfolding record_tokens trim_to_length
settle_draft emitted original_length r h =
    let table = record (h.table) {
      filled = min (original_length + length emitted) h.table.filled;
    } in
    let h' : Held = record h { table = table } in
    if length emitted == 0
    then raise bad_state (turned r h)
    else elim (record_tokens emitted (record r { block_table = some table })) [
      | raise e r' ↦ raise e (turned r' h')
      | ok _ r' ↦ trimmed r' h'
    ]

unfoldable pub decode_speculative :
    (List ℕ → Held → Outcome Held (List ℕ)) → List ℕ → Turn → Outcome Turn (Unit {0})
unfolding settle_draft emitted_tokens
decode_speculative decode_tokens draft turn = elim turn.request.block_table [
  | none ↦ raise bad_state turn
  | some t ↦ elim (last_token turn.request) [
    | none ↦ raise bad_state turn
    | some last ↦ elim (decode_tokens (last ∷ draft) (record { table = t; pool = turn.pool })) [
      | raise e h ↦ raise e (turned turn.request h)
      | ok verifier_tokens h ↦
          settle_draft (emitted_tokens turn.request.eos_token_ids draft verifier_tokens) t.filled
            turn.request h
    ]
  ]
]
