-- ===== src/KvCache/Pool/Budget.antt =====
-- An allocation within the budget of live tables never raises, whatever the prefix cache holds.
use llm_infer.Prelude.{
  ℕ, ◌+◌, ◌-◌, ◌<◌, ◌≤◌, ◌≡◌, refl, ap, inl, inr, String, Option, none, some, List, [], ◌∷◌, ◌++◌,
  arith, ltb, not-ltb→le, Bool-cases, length, owned, tally, sum_below, sum_below_add, sum_below_one,
  subst, ◌==◌, count, ok, owned-append,
}
use llm_infer.KvCache.Allocator.{Allocator, num_free, rc, hand_out}
use llm_infer.KvCache.Allocator.Validity.{Accounts}
use llm_infer.KvCache.Allocator.Laws.{hand_out-Accounts, num_free-eq}
use llm_infer.KvCache.PrefixCache.{PrefixCacheStore, PrefixCacheEntry, Shared}
use llm_infer.KvCache.PrefixCache.Validity.{blocks_of, StoreIsValid, Balanced, Accounts-same}
use llm_infer.KvCache.PrefixCache.Eviction.{evict_for_shortfall-Balanced}
use llm_infer.KvCache.Pool.{Pool, ask_evictor, allocate, shared}

-- The entries of the prefix cache, if there is one.
abbrev pub cached : Option PrefixCacheStore → List PrefixCacheEntry
cached none = []
cached (some store) = store.entries

abbrev pub CacheIsValid : Option PrefixCacheStore → Type 0
CacheIsValid none = Unit
CacheIsValid (some store) = StoreIsValid store

-- The refcounts are those of the cached prefixes and of the given block tables.
pub record Books (p : Pool) (tables : List (List ℕ)) : Type 0 where
  pub store_valid : CacheIsValid p.prefix_cache
  pub accounts : Accounts p.allocator (blocks_of (cached p.prefix_cache) ++ tables)

-- How many blocks the tables hold, shared ones counted once.
abbrev pub live_blocks : ℕ → List (List ℕ) → ℕ
live_blocks num_blocks tables = sum_below num_blocks (λ b. tally (ltb 0 (owned b tables)))

-- With nothing cached, what the tables do not hold is free.
pub free_or_live :
    (a : Allocator) (tables : List (List ℕ))
    → Accounts a tables
    → num_free a + live_blocks a.num_blocks tables ≡ a.num_blocks
free_or_live a tables ac = omega (
  arith,
  num_free-eq a ac.valid,
  sum_below_add a.num_blocks (λ b. tally (rc a b == 0)) (λ b. tally (ltb 0 (owned b tables)))
      (λ _. 1) (λ b. ground (arith, ac.held b)),
  sum_below_one a.num_blocks,
)

-- After the eviction step the pool has the blocks, if the request is within the budget.
ask_evictor_lem :
    (a : Allocator) (cache : Option PrefixCacheStore) (tables : List (List ℕ)) (n : ℕ)
    → let p : Pool = record { allocator = a; prefix_cache = cache } in
      Books p tables
      → live_blocks a.num_blocks tables + n ≤ a.num_blocks
      → (p' : Pool) × (ask_evictor n p ≡ ok tt p')
        × Books p' tables
        × (n ≤ num_free p'.allocator)
        × (p'.allocator.num_blocks ≡ a.num_blocks)
unfolding ask_evictor
ask_evictor_lem a none tables n b h =
    (_, refl, b, omega (arith, free_or_live a tables b.accounts), refl)
ask_evictor_lem a (some store) tables n b h = elim (Bool-cases (ltb (num_free a) n)) [
  | inr enough ↦ (_, rw (enough, ask_evictor), b, not-ltb→le _ _ enough, refl)
  | inl short ↦
      let p : Pool = record { allocator = a; prefix_cache = some store } in
      let (s', run, valid, bal, pool, got) =
        evict_for_shortfall-Balanced (shared p store) tables b.store_valid b.accounts
          (n - num_free a) in
      let room = Room s' bal pool in
      (
        record { allocator = s'.allocator; prefix_cache = some s'.store },
        rw (short, ask_evictor, run),
        record { store_valid = valid; accounts = bal },
        elim got [ inl empty ↦ room empty | inr covered ↦ omega (arith, covered) ],
        pool,
      )
]
  where
    pool-live : {m : ℕ} → m ≡ a.num_blocks → live_blocks m tables ≡ live_blocks a.num_blocks tables
    pool-live e = ap (λ m. live_blocks m tables) e

    Room :
        (s' : Shared)
        → Balanced s' tables
        → s'.allocator.num_blocks ≡ a.num_blocks
        → s'.store.entries ≡ []
        → n ≤ num_free s'.allocator
    Room s' bal pool empty =
        let ac : Accounts s'.allocator tables =
          subst (λ es. Accounts s'.allocator (blocks_of es ++ tables)) empty bal in
        omega (arith, free_or_live s'.allocator tables ac, pool-live pool)

-- With exact refcounts and a valid store, an allocation of at least one block after which the live
-- tables still fit in the pool never raises, whatever the prefix cache holds: it gives different
-- blocks that no table had, and the refcounts stay exact.
pub allocate_within_budget :
    (p : Pool) (tables : List (List ℕ)) (n : ℕ) (owner : Option String)
    → Books p tables
    → 0 < n
    → live_blocks p.allocator.num_blocks tables + n ≤ p.allocator.num_blocks
    → (out : List ℕ) × (p' : Pool) × (allocate n owner p ≡ ok out p')
      × (length out ≡ n)
      × Books p' (out ∷ tables)
      × ((b : ℕ)
          → 0 < count b out
          → (count b out ≡ 1) × (owned b tables ≡ 0) × (rc p'.allocator b ≡ 1))
      × (p'.allocator.num_blocks ≡ p.allocator.num_blocks)
unfolding allocate
allocate_within_budget p tables n owner b pos h =
    let (p₁, asked, b₁, room, pool₁) = ask_evictor_lem p.allocator p.prefix_cache tables n b h in
    let kept = blocks_of (cached p₁.prefix_cache) in
    let (out, a₂, got, len, ac, pool₂, _, fresh) =
      hand_out-Accounts p₁.allocator (kept ++ tables) b₁.accounts n owner room in
    (
      out,
      record p₁ { allocator = a₂ },
      allocated p₁ out a₂ asked got,
      len,
      record {
        store_valid = b₁.store_valid;
        accounts =
            Accounts-same (out ∷ kept ++ tables) _
              (λ b. omega (arith, owned-append b kept tables, owned-append b kept (out ∷ tables)))
              ac;
      },
      λ b k.
          let (once, unowned, _) = fresh b k in
          (once, omega (arith, unowned, owned-append b kept tables), omega (arith, ac.held b)),
      omega arith,
    )
  where
    allocated :
        (p₁ : Pool) (out : List ℕ) (a₂ : Allocator)
        → ask_evictor n p ≡ ok tt p₁
        → hand_out n owner p₁.allocator ≡ ok out a₂
        → allocate n owner p ≡ ok out (record p₁ { allocator = a₂ })
    allocated p₁ out a₂ q r = ground arith
