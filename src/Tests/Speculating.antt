-- ===== src/Tests/Speculating.antt =====
-- A speculative turn of a request whose model counts the tokens.
use llm_infer.Prelude.{
  ℕ, ◌+◌, ◌≤◌, ◌≡◌, refl, false, true, none, some, List, [], ◌∷◌, ◌++◌, length, arith, ok,
}
use llm_infer.KvCache.Pool.{Pool}
use llm_infer.KvCache.Pool.Budget.{Books}
use llm_infer.KvCache.BlockTable.{BlockTable, Held, ceil_div}
use llm_infer.KvCache.BlockTable.Ownership.{TableIsValid}
use llm_infer.Serving.Request.{Request}
use llm_infer.Serving.Request.Recording.{served}
use llm_infer.Serving.Speculation.{Turn, decode_speculative}
use llm_infer.Serving.Speculation.Equivalence.{decode_speculative-served}
use llm_infer.Tests.{small_pool}

abbrev long_pool : Pool
long_pool = record {
  allocator = record small_pool { free_list = []; refcounts = 1 ∷ 1 ∷ 1 ∷ 1 ∷ [] };
  prefix_cache = none;
}

-- Blocks 0 to 3, of size 2, with so many tokens.
abbrev four_blocks : ℕ → BlockTable
four_blocks filled = record {
  block_size = 2;
  blocks = 0 ∷ 1 ∷ 2 ∷ 3 ∷ [];
  filled = filled;
  owner = none;
}

four_blocks-TableIsValid : TableIsValid (four_blocks 6)
four_blocks-TableIsValid = record {
  sized = omega arith;
  distinct = λ b. ground arith;
  fits = omega arith;
}

long_pool-Books : Books long_pool ((0 ∷ 1 ∷ 2 ∷ 3 ∷ []) ∷ [])
long_pool-Books = record {
  store_valid = tt;
  accounts = record {
    valid = record { sized = refl; exact = λ b. ground arith };
    held = λ b. ground arith;
  };
}

-- The prompt has three tokens, and one was generated: the sequence has four tokens.
abbrev pub counting : Request
counting = record {
  request_id = "a";
  prompt_ids = 1 ∷ 2 ∷ 2 ∷ [];
  max_new_tokens = 9;
  eos_token_ids = 0 ∷ [];
  prefix_group_id = none;
  block_table = some (four_blocks 3);
  prompt_cached_tokens = 3;
  prefilled = true;
  finished = false;
  generated = 3 ∷ [];
}

-- The first token of the draft is what the model gives, the second is not.
decode_speculative-served_example :
    (k : ℕ) × (turn : Turn) × (table : BlockTable) × (decode_speculative
        (λ tokens h. ok (4 ∷ 5 ∷ 6 ∷ []) (record h { table = four_blocks 6 }))
        (4 ∷ 7 ∷ [])
        (record { request = counting; pool = long_pool })
      ≡ ok tt turn)
    × (1 ≤ k)
    × (k ≤ 3)
    × (turn.request ≡ record (served length k counting) { block_table = some table })
    × TableIsValid table
    × Books turn.pool (table.blocks ∷ [])
    × ((served length k counting).finished ≡ false
        → (table.filled + 1 ≡ length (counting.prompt_ids ++ (served length k counting).generated))
          × (length table.blocks ≡ ceil_div table.filled table.block_size))
decode_speculative-served_example =
    decode_speculative-served length
      (λ (tokens : List ℕ) (h : Held). ok (4 ∷ 5 ∷ 6 ∷ []) (record h { table = four_blocks 6 })) []
      (4 ∷ 7 ∷ []) counting long_pool (four_blocks 3) 3
      (record { table = four_blocks 6; pool = long_pool }) refl refl refl four_blocks-TableIsValid
      long_pool-Books (omega arith) (omega arith)
