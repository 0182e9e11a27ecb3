-- ===== src/Model/Decode.antt =====
-- llm_infer/model/decode.py: `greedy_decode`, the reference that recomputes the whole sequence for
-- each token. The model is a parameter, the argmax of the last row of its logits.
use llm_infer.Prelude.{
  ℕ, zero, suc, List, [], ◌∷◌, ◌++◌, ltb, member, if◌then◌else◌, bad_config, Outcome, ok, raise,
}

-- The loop, with the number of rounds left.
unfoldable pub greedy_from : (List ℕ → ℕ) → List ℕ → ℕ → List ℕ → List ℕ → List ℕ
greedy_from model eos_token_ids zero tokens generated = generated
greedy_from model eos_token_ids (suc rounds) tokens generated =
    let next = model tokens in
    let rest =
      greedy_from model eos_token_ids rounds (tokens ++ next ∷ []) (generated ++ next ∷ []) in
    if member next eos_token_ids then generated ++ next ∷ [] else rest

unfoldable pub greedy_decode : (List ℕ → ℕ) → List ℕ → ℕ → List ℕ → Outcome (Unit {0}) (List ℕ)
greedy_decode model prompt_ids max_new_tokens eos_token_ids =
    if ltb max_new_tokens 1
    then raise bad_config tt
    else ok (greedy_from model eos_token_ids max_new_tokens prompt_ids []) tt
