-- ===== src/Serving/Request.antt =====
-- llm_infer/serving/request.py: one generation request and its mutable state. `block_table` is the
-- table, with its pool kept apart. Token tensors are their ids, and `_generated_cache` only
-- memoises those. Sampling parameters and the random generator are not in the model.
pub mod Recording
use text.Mathlib.Text.{◌==◌ as str_eq}
use llm_infer.Prelude.{
  ℕ, ◌+◌, ◌-◌, String, Bool, true, false, ◌||◌, Option, none, some, List, [], ◌∷◌, ◌++◌, ltb, leb,
  member, if◌then◌else◌, length, take, bad_config, already_finished, Outcome, ok, raise,
}
use llm_infer.KvCache.BlockTable.{BlockTable}

pub record Request : Type 0 where
  pub request_id : String
  pub prompt_ids : List ℕ
  pub max_new_tokens : ℕ
  pub eos_token_ids : List ℕ
  pub prefix_group_id : Option String
  pub block_table : Option BlockTable
  pub prompt_cached_tokens : ℕ
  pub prefilled : Bool
  pub finished : Bool
  pub generated : List ℕ

-- The generated constructor with `__post_init__`.
unfoldable pub init : String → List ℕ → ℕ → List ℕ → Option String → Outcome (Unit {0}) Request
init request_id prompt_ids max_new_tokens eos_token_ids prefix_group_id =
    if ltb (length prompt_ids) 1
    then raise bad_config tt
    else if ltb max_new_tokens 1
    then raise bad_config tt
    else ok
        (record {
          request_id = request_id;
          prompt_ids = prompt_ids;
          max_new_tokens = max_new_tokens;
          eos_token_ids = eos_token_ids;
          prefix_group_id = prefix_group_id;
          block_table = none;
          prompt_cached_tokens = 0;
          prefilled = false;
          finished = false;
          generated = [];
        })
        tt

abbrev pub last_of : List ℕ → Option ℕ
last_of [] = none
last_of (t ∷ []) = some t
last_of (t ∷ u ∷ ts) = last_of (u ∷ ts)

-- `none` is the ValueError of a request with no token yet.
abbrev pub last_token : Request → Option ℕ
last_token r = last_of r.generated

abbrev pub remaining_tokens : Request → ℕ
remaining_tokens r = r.max_new_tokens - length r.generated

-- `prompt_ids + generated[:-1]`
abbrev pub recompute_prompt_ids : Request → List ℕ
recompute_prompt_ids r = r.prompt_ids ++ take (length r.generated - 1) r.generated

unfoldable pub reset_for_recompute : Request → Outcome Request (Unit {0})
reset_for_recompute r =
    if r.finished
    then raise already_finished r
    else ok tt (record r { block_table = none; prompt_cached_tokens = 0; prefilled = false })

-- `is_eos` is what the caller knows already, if it passes it.
abbrev pub stops : Request → ℕ → Option Bool → Bool
stops r token (some is_eos) = is_eos
stops r token none = member token r.eos_token_ids

unfoldable pub record_token : ℕ → Option Bool → Request → Outcome Request (Unit {0})
record_token token is_eos r =
    let generated = r.generated ++ token ∷ [] in
    if r.finished
    then raise already_finished r
    else ok tt (record r {
      generated = generated;
      finished = stops r token is_eos || leb r.max_new_tokens (length generated);
    })
