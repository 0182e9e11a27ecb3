-- ===== src/Tests/Allocation.antt =====
-- The allocator and the pool.
use llm_infer.Prelude.{ℕ, ◌<◌, ◌≡◌, none, List, [], ◌∷◌, arith, length, count, owned, ok}
use llm_infer.KvCache.Allocator.{rc}
use llm_infer.KvCache.Allocator.Validity.{Accounts}
use llm_infer.KvCache.Pool.{Pool, allocate}
use llm_infer.KvCache.Pool.Budget.{Books, allocate_within_budget}
use llm_infer.Tests.{small_pool, small_pool-IsValid, held_tables, shared_pool, shared_pool-Books}

-- What holds the blocks of the small pool: a table and a cached entry.
abbrev holders : List (List ℕ)
holders = (0 ∷ []) ∷ (0 ∷ 1 ∷ []) ∷ []

holders-Accounts : Accounts small_pool holders
holders-Accounts = record { valid = small_pool-IsValid; held = λ b. ground arith }

-- Three blocks are asked for and two are free: the cached entry goes, and gives back block 1.
allocate_within_budget_example :
    (out : List ℕ) × (p' : Pool) × (allocate 3 none shared_pool ≡ ok out p')
    × (length out ≡ 3)
    × Books p' (out ∷ held_tables)
    × ((b : ℕ)
        → 0 < count b out
        → (count b out ≡ 1) × (owned b held_tables ≡ 0) × (rc p'.allocator b ≡ 1))
    × (p'.allocator.num_blocks ≡ 4)
allocate_within_budget_example =
    allocate_within_budget shared_pool held_tables 3 none shared_pool-Books (omega arith)
      (omega arith)
