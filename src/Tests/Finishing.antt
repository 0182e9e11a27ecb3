-- ===== src/Tests/Finishing.antt =====
-- The budget and the end of a request.
use llm_infer.Prelude.{
  ℕ, ◌≤◌, ◌≡◌, refl, none, List, [], ◌∷◌, true, false, arith, ok, raise, misaligned,
}
use llm_infer.KvCache.Pool.Budget.{Books}
use llm_infer.KvCache.BlockTable.{BlockTable, Held, capacity, reserve}
use llm_infer.KvCache.BlockTable.Ownership.{TableIsValid}
use llm_infer.Serving.Request.{Request}
use llm_infer.Serving.Budget.{Within, reserve_admitted}
use llm_infer.Serving.Finish.{finish_table}
use llm_infer.Serving.Finish.Donation.{donation_overshoot, finish_table-Books}
use llm_infer.Tests.{
  small_pool, small_store, shared_pool, shared_pool-Books, one_block, one_block-TableIsValid,
}

abbrev ended : List ℕ → Request
ended generated = record {
  request_id = "a";
  prompt_ids = 5 ∷ [];
  max_new_tokens = 8;
  eos_token_ids = 0 ∷ [];
  prefix_group_id = none;
  block_table = none;
  prompt_cached_tokens = 1;
  prefilled = true;
  finished = true;
  generated = generated;
}

-- Both slots of block 0 are filled.
abbrev full_block : BlockTable
full_block = record one_block { filled = 2 }

full_block-TableIsValid : TableIsValid full_block
full_block-TableIsValid = record {
  sized = omega arith;
  distinct = λ b. ground arith;
  fits = omega arith;
}

finish_table-Books_example :
    (h : Held) × (finish_table (ended (9 ∷ 0 ∷ [])) full_block shared_pool ≡ ok tt h)
    × (h.table ≡ record full_block { blocks = []; filled = 0 })
    × Books h.pool []
finish_table-Books_example =
    finish_table-Books (ended (9 ∷ 0 ∷ [])) full_block small_pool small_store refl
      full_block-TableIsValid [] shared_pool-Books (omega arith)

-- One token is the whole sequence, and the table counts two.
donation_overshoot_example :
    finish_table (ended []) full_block shared_pool
    ≡ raise misaligned (record { table = full_block; pool = shared_pool })
donation_overshoot_example =
    donation_overshoot (ended []) full_block small_pool small_store refl full_block-TableIsValid
      (omega arith)

-- A request of one prompt token and three new ones may come to hold two blocks of size 2.
abbrev small_request : Request
small_request = record (ended []) { max_new_tokens = 3; finished = false }

reserve_admitted_example :
    (h : Held) × (reserve 2 (record { table = one_block; pool = shared_pool }) ≡ ok tt h)
    × (3 ≤ capacity h.table)
    × TableIsValid h.table
    × Books h.pool (h.table.blocks ∷ [])
    × Within 2 (small_request ∷ []) (h.table.blocks ∷ [])
reserve_admitted_example =
    reserve_admitted small_request [] one_block shared_pool [] 2 one_block-TableIsValid
      shared_pool-Books (omega arith) (omega arith, tt) (omega arith)
