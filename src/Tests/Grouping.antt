-- ===== src/Tests/Grouping.antt =====
-- A group of two: one member has prefilled one of two tokens, and the other shares its table.
use text.Mathlib.TextEquality.{eq_iff}
use llm_infer.Prelude.{◌≢◌, String, ℕ, ◌≡◌, refl, none, some, [], ◌∷◌, arith, ok}
use llm_infer.KvCache.Pool.Budget.{Books}
use llm_infer.KvCache.BlockTable.{BlockTable}
use llm_infer.KvCache.BlockTable.Ownership.{TableIsValid}
use llm_infer.Serving.Request.{Request}
use llm_infer.Serving.Engine.Prefill.{cache_prompt_chunk}
use llm_infer.Serving.Engine.Groups.{Group, prefill_shared_group}
use llm_infer.Serving.Engine.Groups.Forks.{Sampled, prefill_shared_group-Sampled}
use llm_infer.Tests.{shared_pool, shared_pool-Books}
use llm_infer.Tests.Prefilling.{prompted, counting}

abbrev partner : Request
partner = record (prompted (5 ∷ 6 ∷ [])) { request_id = "b"; prefix_group_id = some "g" }

abbrev held_block : ℕ → BlockTable
held_block filled = record { block_size = 2; blocks = 0 ∷ []; filled = filled; owner = some "a" }

abbrev leader_at : ℕ → Request
leader_at filled = record (prompted (5 ∷ 6 ∷ [])) {
  prefix_group_id = some "g";
  block_table = some (held_block filled);
  prompt_cached_tokens = filled;
}

full_block-TableIsValid : TableIsValid (held_block 2)
full_block-TableIsValid = record {
  sized = omega arith;
  distinct = λ b. ground arith;
  fits = omega arith;
}

last_chunk :
    cache_prompt_chunk 2 none counting (record { request = leader_at 1; pool = shared_pool })
    ≡ ok (some 2, (1, 2)) (record { request = leader_at 2; pool = shared_pool })
unfolding cache_prompt_chunk
last_chunk = refl

partner_other : ◌≢◌ {A = String} "b" "a"
partner_other same = absurd (ground (arith, (eq_iff "b" "a").1 same))

prefill_shared_group-Sampled_example :
    (g : Group) × (prefill_shared_group 2 none counting
        (λ l r. l)
        (record { members = partner ∷ leader_at 1 ∷ []; pool = shared_pool })
      ≡ ok (1, 2) g)
    × Books g.pool ((0 ∷ []) ∷ (0 ∷ []) ∷ [])
    × Sampled (λ r. 2) (held_block 2) (leader_at 2) (partner ∷ []) g.members
prefill_shared_group-Sampled_example =
    prefill_shared_group-Sampled 2 none counting (λ l r. l) partner (leader_at 1 ∷ [])
      (partner ∷ []) [] shared_pool (leader_at 1) 2 (1, 2)
      (record { request = leader_at 2; pool = shared_pool }) (held_block 2) [] refl refl refl
      (partner_other, tt) tt last_chunk refl full_block-TableIsValid shared_pool-Books refl
      (refl, tt)
