-- ===== src/KvCache/PrefixCache/Eviction.antt =====
-- Giving blocks back: `shrink`, `clear` and `_evict_for_shortfall` never raise on balanced books.
use llm_infer.Prelude.{
  ℕ, suc, ◌+◌, ◌-◌, ◌≤◌, ◌≡◌, refl, sym, drop-nil, ◌⊎◌, inl, inr, List, [], ◌∷◌, ◌++◌, arith, tests,
  ltb, length, drop, All, Bool-cases, ok,
}
use llm_infer.KvCache.Allocator.{Allocator, num_free}
use llm_infer.KvCache.Allocator.Validity.{Accounts}
use llm_infer.KvCache.Allocator.Laws.{free-Accounts}
use llm_infer.KvCache.PrefixCache.{
  PrefixCacheEntry, Shared, cache_owner, evict, evict_for_shortfall, shrink, free_entries, clear,
}
use llm_infer.KvCache.PrefixCache.Validity.{blocks_of, Covers, StoreIsValid, Balanced}

module _ (size : ℕ) (tables : List (List ℕ)) where
  -- The eviction loop stops with the blocks that were asked for, or with no entry left.
  evict_lem :
      (needed freed : ℕ) (entries : List PrefixCacheEntry) (a : Allocator)
      → All (Covers size) entries
      → Accounts a (blocks_of entries ++ tables)
      → (a' : Allocator) × (rest : List PrefixCacheEntry) × (evict needed freed entries a
          ≡ ok tt (a', rest))
        × Accounts a' (blocks_of rest ++ tables)
        × All (Covers size) rest
        × (length rest ≤ length entries)
        × (a'.num_blocks ≡ a.num_blocks)
        × (num_free a ≤ num_free a')
        × ((rest ≡ []) ⊎ (needed ≤ freed + (num_free a' - num_free a)))
  unfolding evict
  evict_lem needed freed [] a c ac = (a, [], refl, ac, tt, omega arith, refl, omega arith, inl refl)
  evict_lem needed freed (e ∷ entries) a c ac = elim (Bool-cases (ltb freed needed)) [
    | inr enough ↦ (
      a,
      e ∷ entries,
      rw (enough, evict),
      ac,
      c,
      omega arith,
      refl,
      omega arith,
      inr (ground arith),
    )
    | inl more ↦
        let (a₁, freeing, ac₁, pool₁, grows₁, _) =
          free-Accounts a e.block_ids _ cache_owner ac c.0.distinct in
        let (a₂, rest, run, ac₂, c₂, shorter, pool₂, grows₂, stop) =
          evict_lem needed (freed + (num_free a₁ - num_free a)) entries a₁ c.1 ac₁ in
        (
          a₂,
          rest,
          rw (more, evict, freeing) run,
          ac₂,
          c₂,
          omega arith,
          omega arith,
          omega arith,
          elim stop [ inl none_left ↦ inl none_left | inr covered ↦ inr (omega arith) ],
        )
  ]

  -- `shrink` keeps at most `max_entries` entries.
  pub shrink_lem :
      (max_entries : ℕ) (entries : List PrefixCacheEntry) (a : Allocator)
      → All (Covers size) entries
      → Accounts a (blocks_of entries ++ tables)
      → (a' : Allocator) × (rest : List PrefixCacheEntry) × (shrink max_entries entries a
          ≡ ok tt (a', rest))
        × Accounts a' (blocks_of rest ++ tables)
        × All (Covers size) rest
        × (length rest ≤ max_entries)
        × (rest ≡ drop (length entries - max_entries) entries)
        × (a'.num_blocks ≡ a.num_blocks)
  unfolding shrink
  shrink_lem m [] a c ac = (a, [], refl, ac, tt, omega arith, sym (drop-nil (0 - m)), refl)
  shrink_lem m (e ∷ entries) a c ac = elim (Bool-cases (ltb m (length (e ∷ entries)))) [
    | inr fits ↦
        let all : length (e ∷ entries) - m ≡ 0 = omega tests in
        (a, e ∷ entries, rw (fits, shrink), ac, c, omega tests, rw all, refl)
    | inl more ↦
        let (a₁, freeing, ac₁, pool₁, _, _) =
          free-Accounts a e.block_ids _ cache_owner ac c.0.distinct in
        let (a₂, rest, run, ac₂, c₂, short, last, pool₂) = shrink_lem m entries a₁ c.1 ac₁ in
        let one_more : length (e ∷ entries) - m ≡ suc (length entries - m) = omega tests in
        (a₂, rest, rw (more, shrink, freeing) run, ac₂, c₂, short, rw one_more last, omega arith)
  ]

  free_entries_lem :
      (entries : List PrefixCacheEntry) (a : Allocator)
      → All (Covers size) entries
      → Accounts a (blocks_of entries ++ tables)
      → (a' : Allocator) × (free_entries entries a ≡ ok tt a') × Accounts a' tables
  unfolding free_entries
  free_entries_lem [] a c ac = (a, refl, ac)
  free_entries_lem (e ∷ entries) a c ac =
      let (a₁, freeing, ac₁, _, _, _) = free-Accounts a e.block_ids _ cache_owner ac c.0.distinct in
      let (a₂, run, ac₂) = free_entries_lem entries a₁ c.1 ac₁ in
      (a₂, rw (freeing, free_entries) run, ac₂)

module _ (s : Shared) (tables : List (List ℕ)) (v : StoreIsValid s.store)
    (bal : Balanced s tables) where
  -- On a valid store with exact refcounts `clear` never raises, gives every cached reference back,
  -- and leaves those of the tables.
  pub clear-Balanced :
      (s' : Shared) × (clear s ≡ ok tt s') × (s'.store.entries ≡ []) × Accounts s'.allocator tables
  unfolding clear
  clear-Balanced =
      let (a', run, ac) =
        free_entries_lem s.store.block_size tables s.store.entries s.allocator v.covered bal in
      (
        record { allocator = a'; store = record (s.store) { entries = [] } },
        rw (run, clear),
        refl,
        ac,
      )

  -- On a valid store with exact refcounts an eviction never raises; the blocks asked for return to
  -- the pool or else the cache ends up empty, and the refcounts stay exact.
  pub evict_for_shortfall-Balanced :
      (needed : ℕ)
      → (s' : Shared) × (evict_for_shortfall needed s ≡ ok tt s')
        × StoreIsValid s'.store
        × Balanced s' tables
        × (s'.allocator.num_blocks ≡ s.allocator.num_blocks)
        × ((s'.store.entries ≡ []) ⊎ (num_free s.allocator + needed ≤ num_free s'.allocator))
  unfolding evict_for_shortfall
  evict_for_shortfall-Balanced needed =
      let (a', rest, run, ac, c, shorter, pool, grows, stop) =
        evict_lem s.store.block_size tables needed 0 s.store.entries s.allocator v.covered bal in
      (
        record { allocator = a'; store = record (s.store) { entries = rest } },
        rw (run, evict_for_shortfall),
        record { sized = v.sized; room = v.room; capped = omega (arith, v.capped); covered = c },
        ac,
        pool,
        elim stop [ inl none_left ↦ inl none_left | inr covered ↦ inr (omega arith) ],
      )
