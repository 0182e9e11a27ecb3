-- ===== src/Serving/Speculative.antt =====
-- llm_infer/serving/speculative.py: draft tokens, copied from after an earlier occurrence of the suffix
-- of the context.
pub mod Drafts
pub mod Occurrences
use llm_infer.Prelude.{
  ℕ, zero, suc, ◌+◌, ◌-◌, min, Bool, true, false, Option, none, some, List, [], ltb, ◌==◌,
  if◌then◌else◌, length, take, drop, list_eq, bad_config, Outcome, ok, raise,
}

pub record SpeculativeDecodingConfig : Type 0 where
  pub max_draft_tokens : ℕ
  pub max_ngram_size : ℕ

-- The generated constructor with `__post_init__`.
unfoldable pub new_config : ℕ → ℕ → Outcome (Unit {0}) SpeculativeDecodingConfig
new_config max_draft_tokens max_ngram_size =
    if ltb max_draft_tokens 1
    then raise bad_config tt
    else if ltb max_ngram_size 1
    then raise bad_config tt
    else ok (record { max_draft_tokens = max_draft_tokens; max_ngram_size = max_ngram_size }) tt

-- `context[start:end] == suffix`
abbrev pub repeats : List ℕ → ℕ → ℕ → Bool
repeats context ngram_size start =
    list_eq (drop start (take (start + ngram_size) context))
      (drop (length context - ngram_size) context)

-- `context[end : min(len(context), end + limit)]`
abbrev pub continuation : List ℕ → ℕ → ℕ → List ℕ
continuation context limit end = drop end (take (min (length context) (end + limit)) context)

-- The inner loop, with the number of starts left.
unfoldable pub latest_repeat : List ℕ → ℕ → ℕ → ℕ → Option (List ℕ)
latest_repeat context limit ngram_size zero = none
latest_repeat context limit ngram_size (suc start) =
    let rest = latest_repeat context limit ngram_size start in
    let draft = continuation context limit (start + ngram_size) in
    if repeats context ngram_size start
    then (if length draft == 0 then rest else some draft)
    else rest

-- The outer loop, with the next size.
unfoldable pub longest_repeat : List ℕ → ℕ → ℕ → List ℕ
unfolding latest_repeat
longest_repeat context limit zero = []
longest_repeat context limit (suc n) =
    elim (latest_repeat context limit (suc n) (length context - suc n)) [
      | some draft ↦ draft
      | none ↦ longest_repeat context limit n
    ]

abbrev pub draft_limit : SpeculativeDecodingConfig → Option ℕ → ℕ
draft_limit c none = c.max_draft_tokens
draft_limit c (some max_tokens) = min max_tokens c.max_draft_tokens

unfoldable pub draft_tokens : SpeculativeDecodingConfig → List ℕ → Option ℕ → List ℕ
unfolding longest_repeat
draft_tokens c context max_tokens =
    let limit = draft_limit c max_tokens in
    if ltb limit 1
    then []
    else if ltb (length context) 2
    then []
    else longest_repeat context limit (min c.max_ngram_size (length context - 1))
