-- ===== src/Tests/Prefixes.antt =====
-- The prefix cache.
use llm_infer.Prelude.{ℕ, ◌+◌, ◌≤◌, ◌≡◌, ◌⊎◌, refl, some, List, [], ◌∷◌, ◌++◌, arith, Elem, ok}
use llm_infer.KvCache.Allocator.{num_free}
use llm_infer.KvCache.Allocator.Validity.{Acceptable}
use llm_infer.KvCache.PrefixCache.{
  PrefixCacheEntry, PrefixCacheHit, Shared, lookup, missed, donate, evict_for_shortfall,
}
use llm_infer.KvCache.PrefixCache.Validity.{Covers, StoreIsValid, Balanced}
use llm_infer.KvCache.PrefixCache.Eviction.{evict_for_shortfall-Balanced}
use llm_infer.KvCache.PrefixCache.Lookups.{IsHit, Longest, lookup_lem}
use llm_infer.KvCache.PrefixCache.Donations.{survivors, newest, donate-Balanced}
use llm_infer.KvCache.PrefixCache.Reuse.{lookup-donate}
use llm_infer.Tests.{
  small_pool, small_store, small_shared, small_shared-Balanced, small_store-StoreIsValid,
  held_tables,
}

-- The prompt shares one whole block with the cached turn, and a half.
abbrev prompt : List ℕ
prompt = 5 ∷ 6 ∷ 7 ∷ 9 ∷ 9 ∷ []

lookup_lem_example :
    ((hit : PrefixCacheHit) × (s' : Shared) × (lookup prompt small_shared ≡ ok (some hit) s')
      × IsHit small_shared prompt hit
      × StoreIsValid s'.store
      × Balanced s' (hit.block_ids ∷ held_tables))
    ⊎ ((lookup prompt small_shared ≡ missed small_shared)
        × Longest small_store.block_size small_store.entries prompt 0)
lookup_lem_example =
    lookup_lem small_shared held_tables small_store-StoreIsValid small_shared-Balanced prompt

-- The turn that block 0 served.
abbrev turn : PrefixCacheEntry
turn = record { token_ids = 5 ∷ 9 ∷ []; block_ids = 0 ∷ [] }

turn-Covers : Covers 2 turn
turn-Covers = record { aligned = refl; nonempty = omega arith; distinct = λ b. ground arith }

turn_live : Acceptable small_pool (0 ∷ [])
turn_live b k = ground arith

donate-Balanced_example :
    (s' : Shared) × (donate (5 ∷ 9 ∷ []) (0 ∷ []) small_shared ≡ ok tt s')
    × StoreIsValid s'.store
    × Balanced s' held_tables
    × (s'.store.entries ≡ newest 1 (survivors (5 ∷ 9 ∷ []) small_store.entries ++ turn ∷ []))
    × Elem turn s'.store.entries
    × (s'.store.block_size ≡ 2)
donate-Balanced_example =
    donate-Balanced small_shared held_tables small_store-StoreIsValid small_shared-Balanced turn
      turn-Covers turn_live

lookup-donate_example :
    (s' s'' : Shared) × (hit : PrefixCacheHit) × (donate (5 ∷ 9 ∷ []) (0 ∷ []) small_shared
      ≡ ok tt s')
    × (lookup (5 ∷ 9 ∷ 1 ∷ []) s' ≡ ok (some hit) s'')
    × IsHit s' (5 ∷ 9 ∷ 1 ∷ []) hit
    × (2 ≤ hit.tokens)
    × Balanced s'' (hit.block_ids ∷ held_tables)
lookup-donate_example =
    lookup-donate small_shared held_tables turn 1 [] small_store-StoreIsValid small_shared-Balanced
      turn-Covers turn_live

evict_for_shortfall-Balanced_example :
    (s' : Shared) × (evict_for_shortfall 1 small_shared ≡ ok tt s')
    × StoreIsValid s'.store
    × Balanced s' held_tables
    × (s'.allocator.num_blocks ≡ 4)
    × ((s'.store.entries ≡ []) ⊎ (num_free small_pool + 1 ≤ num_free s'.allocator))
evict_for_shortfall-Balanced_example =
    evict_for_shortfall-Balanced small_shared held_tables small_store-StoreIsValid
      small_shared-Balanced 1
