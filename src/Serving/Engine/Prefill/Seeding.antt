-- ===== src/Serving/Engine/Prefill/Seeding.antt =====
-- A request that is seeded from the prefix cache.
use llm_infer.Prelude.{
  ℕ, ◌+◌, ◌<◌, ◌≡◌, refl, ap, subst, ◌∙◌, ◌⊎◌, inl, inr, false, some, List, ◌∷◌, ◌++◌, arith, count,
  count-take-drop, length, take, All-Elem, Elem, ok,
}
use llm_infer.KvCache.PrefixCache.{PrefixCacheStore, PrefixCacheHit, Shared, lookup}
use llm_infer.KvCache.PrefixCache.Validity.{Covers, StoreIsValid, blocks_of}
use llm_infer.KvCache.Allocator.Validity.{Accounts}
use llm_infer.KvCache.PrefixCache.Lookups.{Longest, IsHit, lookup_lem}
use llm_infer.KvCache.Pool.{Pool, shared, unshared}
use llm_infer.KvCache.Pool.Budget.{Books, cached, CacheIsValid}
use llm_infer.KvCache.BlockTable.{BlockTable, capacity}
use llm_infer.KvCache.BlockTable.Ownership.{TableIsValid}
use llm_infer.Serving.Request.{Request}
use llm_infer.Serving.Engine.{grouped}
use llm_infer.Serving.Engine.Prefill.{
  Prefilling, seeded, seed_from, has_table, apply_prefix_cache_hit,
}

-- What a seeded request holds: whole blocks of one cached prefix that the prompt starts with.
pub record Seeded (r : Request) (store : PrefixCacheStore) (tables : List (List ℕ))
    (s' : Prefilling) : Type 0 where
  pub table : BlockTable
  pub request :
      s'.request ≡ record r { block_table = some table; prompt_cached_tokens = table.filled }
  pub valid : TableIsValid table
  pub positive : 0 < table.filled
  pub short : table.filled < length r.prompt_ids
  pub full : capacity table ≡ table.filled
  pub books : Books s'.pool (table.blocks ∷ tables)
  pub longest : Longest store.block_size store.entries r.prompt_ids table.filled
  pub from :
      (tokens blocks : List ℕ) × (take table.filled tokens ≡ take table.filled r.prompt_ids)
      × (table.blocks ≡ take (length table.blocks) blocks)
      × Elem (record { token_ids = tokens; block_ids = blocks }) store.entries

hit_Seeded :
    (r : Request) (store : PrefixCacheStore) (tables : List (List ℕ)) (hit : PrefixCacheHit)
    (s : Shared)
    → s.store ≡ store
    → StoreIsValid s.store
    → IsHit s r.prompt_ids hit
    → (p : Pool) → Books p (hit.block_ids ∷ tables)
    → Seeded r store tables (record { request = seeded s.store.block_size r hit; pool = p })
hit_Seeded r store tables hit s same v is p books =
    let (e, found, agree, prefix) = is.from in
    let cover = All-Elem (Covers s.store.block_size) s.store.entries v.covered found in
    record {
      table = record {
        block_size = s.store.block_size;
        blocks = hit.block_ids;
        filled = hit.tokens;
        owner = some r.request_id;
      };
      request = refl;
      valid = record {
        sized = v.sized;
        distinct = λ b. omega (
          arith,
          count-take-drop b (length hit.block_ids) e.block_ids,
          cover.distinct b,
          ap (count b) prefix,
        );
        fits = omega (arith, is.whole);
      };
      positive = is.positive;
      short = is.short;
      full = is.whole;
      books = books;
      longest =
          subst (λ (q : PrefixCacheStore). Longest q.block_size q.entries r.prompt_ids hit.tokens)
            same is.longest;
      from = (
        e.token_ids,
        e.block_ids,
        agree,
        prefix,
        subst (λ (q : PrefixCacheStore). Elem e q.entries) same found,
      );
    }

-- In a pool with a prefix cache and exact refcounts, the seed of a request without a table and
-- without a group never raises. Either no cached entry shares a whole block with the prompt short
-- of its last token, and the request is as before; or the request has a valid table of whole shared
-- blocks, all filled, which are the first blocks of a cached entry that agrees with the prompt so
-- far, as many as any entry has, the refcounts are exact with this table, and at least one token of
-- the prompt is left to prefill.
pub apply_prefix_cache_hit-Seeded :
    (r : Request) (p : Pool) (store : PrefixCacheStore) (tables : List (List ℕ))
    → p.prefix_cache ≡ some store
    → Books p tables
    → has_table r ≡ false
    → grouped r ≡ false
    → (s' : Prefilling) × (apply_prefix_cache_hit store.block_size
          (record { request = r; pool = p })
        ≡ ok tt s')
      × (((s'.request ≡ r)
            × Books s'.pool tables
            × Longest store.block_size store.entries r.prompt_ids 0)
          ⊎ Seeded r store tables s')
unfolding apply_prefix_cache_hit
apply_prefix_cache_hit-Seeded r p store tables on books fresh alone =
    let size = store.block_size in
    let v : StoreIsValid store = subst CacheIsValid on books.store_valid in
    let bal : Accounts p.allocator (blocks_of store.entries ++ tables) =
      subst (λ c. Accounts p.allocator (blocks_of (cached c) ++ tables)) on books.accounts in
    let step : apply_prefix_cache_hit size (record { request = r; pool = p })
        ≡ seed_from size r (unshared (lookup r.prompt_ids (shared p store))) =
      simp (on, fresh, alone, apply_prefix_cache_hit) in
    elim (lookup_lem (shared p store) tables v bal r.prompt_ids) [
      | inl (hit, shared', run, is, valid, bal') ↦ (
        record {
          request = seeded size r hit;
          pool = record { allocator = shared'.allocator; prefix_cache = some shared'.store };
        },
        step ∙ ap (λ o. seed_from size r (unshared o)) run,
        inr (
            hit_Seeded r store tables hit (shared p store) refl v is _
              (record { store_valid = valid; accounts = bal' })),
      )
      | inr (run, nothing) ↦ (
        record {
          request = r;
          pool = record {
            allocator = p.allocator;
            prefix_cache = some (record store { misses = store.misses + 1 });
          };
        },
        step ∙ ap (λ o. seed_from size r (unshared o)) run,
        inl (
          refl,
          record {
            store_valid = record {
              sized = v.sized;
              room = v.room;
              capped = v.capped;
              covered = v.covered;
            };
            accounts = bal;
          },
          nothing,
        ),
      )
    ]
