-- ===== src/Tests.antt =====
-- Runs and witnesses on small pools, stores, tables and queues.
mod Allocation
mod Prefixes
mod Tables
mod Requests
mod Finishing
mod Drafting
mod Streaming
mod Planning
mod Speculating
mod Evicting
mod Deferring
mod Metering
mod Looping
mod Responding
mod Prefilling
mod Grouping
use llm_infer.Prelude.{
  ℕ, ◌+◌, ◌≡◌, refl, Option, none, some, List, [], ◌∷◌, true, arith, ltb, count, owned,
}
use llm_infer.KvCache.Allocator.{Allocator}
use llm_infer.KvCache.Allocator.Validity.{IsValid}
use llm_infer.KvCache.PrefixCache.{PrefixCacheEntry, PrefixCacheStore, Shared}
use llm_infer.KvCache.PrefixCache.Validity.{Covers, StoreIsValid, Balanced}
use llm_infer.KvCache.Pool.{Pool}
use llm_infer.KvCache.Pool.Budget.{Books}
use llm_infer.KvCache.BlockTable.{BlockTable}
use llm_infer.KvCache.BlockTable.Ownership.{TableIsValid}

-- Four blocks: block 0 is cached and held by a table, block 1 is cached, 2 and 3 are free.
abbrev pub small_pool : Allocator
small_pool = record {
  num_blocks = 4;
  free_list = 3 ∷ 2 ∷ [];
  refcounts = 2 ∷ 1 ∷ 0 ∷ 0 ∷ [];
  observed = true;
  events = [];
}

abbrev pub cached_turn : PrefixCacheEntry
cached_turn = record { token_ids = 5 ∷ 6 ∷ 7 ∷ 8 ∷ []; block_ids = 0 ∷ 1 ∷ [] }

abbrev pub small_store : PrefixCacheStore
small_store = record {
  block_size = 2;
  max_entries = 1;
  entries = cached_turn ∷ [];
  hits = 0;
  misses = 0;
  hit_tokens = 0;
}

abbrev pub small_shared : Shared
small_shared = record { allocator = small_pool; store = small_store }

abbrev pub held_tables : List (List ℕ)
held_tables = (0 ∷ []) ∷ []

pub small_pool-IsValid : IsValid small_pool
small_pool-IsValid = record { sized = refl; exact = λ b. ground arith }

pub small_shared-Balanced : Balanced small_shared held_tables
small_shared-Balanced = record { valid = small_pool-IsValid; held = λ b. ground arith }

pub cached_turn-Covers : Covers 2 cached_turn
cached_turn-Covers = record { aligned = refl; nonempty = omega arith; distinct = λ b. ground arith }

pub small_store-StoreIsValid : StoreIsValid small_store
small_store-StoreIsValid = record {
  sized = omega arith;
  room = omega arith;
  capped = omega arith;
  covered = (cached_turn-Covers, tt);
}

abbrev pub shared_pool : Pool
shared_pool = record { allocator = small_pool; prefix_cache = some small_store }

pub shared_pool-Books : Books shared_pool held_tables
shared_pool-Books = record {
  store_valid = small_store-StoreIsValid;
  accounts = small_shared-Balanced;
}

-- One token is in block 0, of size 2.
abbrev pub one_block : BlockTable
one_block = record { block_size = 2; blocks = 0 ∷ []; filled = 1; owner = none }

pub one_block-TableIsValid : TableIsValid one_block
one_block-TableIsValid = record {
  sized = omega arith;
  distinct = λ b. ground arith;
  fits = omega arith;
}

-- Blocks 0 and 1 hold three tokens and a spare block 2 holds none.
abbrev pub long_table : BlockTable
long_table = record { block_size = 2; blocks = 0 ∷ 1 ∷ 2 ∷ []; filled = 3; owner = none }
