-- ===== src/KvCache/Pool/Sharing.antt =====
-- Retaining and freeing a block table, on the books of the pool.
use llm_infer.Prelude.{
  ℕ, ◌+◌, ◌≤◌, ◌≡◌, String, Option, List, ◌∷◌, ◌++◌, arith, count, owned, owned-append, ok,
}
use llm_infer.KvCache.Allocator.{num_free, rc, retain, free}
use llm_infer.KvCache.Allocator.Validity.{Acceptable}
use llm_infer.KvCache.Allocator.Laws.{retain-Accounts, free-Accounts, free-Acceptable}
use llm_infer.KvCache.PrefixCache.Validity.{blocks_of, Accounts-same}
use llm_infer.KvCache.Pool.{Pool, on_allocator}
use llm_infer.KvCache.Pool.Budget.{Books, cached}

-- The books look only at how often each block is owned.
pub Books-same :
    {p : Pool} (ts us : List (List ℕ))
    → ((b : ℕ) → owned b ts ≡ owned b us)
    → Books p ts
    → Books p us
Books-same {p} ts us h b = record {
  store_valid = b.store_valid;
  accounts =
      Accounts-same _ _
        (λ x.
          let kept = blocks_of (cached p.prefix_cache) in
          omega (arith, h x, owned-append x kept ts, owned-append x kept us))
        b.accounts;
}

module _ (p : Pool) (table : List ℕ) (tables : List (List ℕ)) (b : Books p (table ∷ tables))
    (distinct : (x : ℕ) → count x table ≤ 1) where
  front :
      (x : ℕ)
      → owned x (blocks_of (cached p.prefix_cache) ++ table ∷ tables)
        ≡ owned x (table ∷ blocks_of (cached p.prefix_cache) ++ tables)
  front x =
      let kept = blocks_of (cached p.prefix_cache) in
      omega (arith, owned-append x kept (table ∷ tables), owned-append x kept tables)

  pub table-Acceptable : Acceptable p.allocator table
  table-Acceptable =
      free-Acceptable p.allocator table (blocks_of (cached p.prefix_cache) ++ tables)
        (Accounts-same _ _ front b.accounts) distinct

  pub retain-Books :
      (p' : Pool) × (on_allocator (retain table) p ≡ ok tt p')
      × Books p' (table ∷ table ∷ tables)
      × (num_free p'.allocator ≡ num_free p.allocator)
  retain-Books =
      let (a', run, ac, same) = retain-Accounts p.allocator _ b.accounts table table-Acceptable in
      (
        record p { allocator = a' },
        rw (run, on_allocator),
        record {
          store_valid = b.store_valid;
          accounts =
              Accounts-same _ _
                (λ x.
                  let kept = blocks_of (cached p.prefix_cache) in
                  omega (
                    arith,
                    owned-append x kept (table ∷ tables),
                    owned-append x kept (table ∷ table ∷ tables),
                  ))
                ac;
        },
        rw same,
      )

  pub free-Books :
      (owner : Option String)
      → (p' : Pool) × (on_allocator (free table owner) p ≡ ok tt p')
        × Books p' tables
        × (num_free p.allocator ≤ num_free p'.allocator)
        × (p'.allocator.num_blocks ≡ p.allocator.num_blocks)
        × ((x : ℕ) → rc p'.allocator x + count x table ≡ rc p.allocator x)
  free-Books owner =
      let (a', run, ac, pool, grows, _) =
        free-Accounts p.allocator table (blocks_of (cached p.prefix_cache) ++ tables) owner
          (Accounts-same _ _ front b.accounts) distinct in
      (
        record p { allocator = a' },
        rw (run, on_allocator),
        record { store_valid = b.store_valid; accounts = ac },
        grows,
        pool,
        λ x. omega (arith, ac.held x, b.accounts.held x, front x),
      )
