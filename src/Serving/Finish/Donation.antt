-- ===== src/Serving/Finish/Donation.antt =====
-- When the donation of a finished request goes through, and when it does not.
use llm_infer.Prelude.{
  ℕ, ◌*◌, ◌/◌, ◌<◌, ◌≤◌, ◌≡◌, refl, false, inl, inr, Bool-cases, some, List, [], ◌∷◌, ◌++◌, arith,
  ltb, not-ltb→le, ◌==◌, length, take, length-take, count-take-drop, ok, raise, misaligned,
}
use llm_infer.KvCache.Allocator.{Allocator}
use llm_infer.KvCache.PrefixCache.{PrefixCacheEntry, PrefixCacheStore, donate}
use llm_infer.KvCache.PrefixCache.Validity.{Covers}
use llm_infer.KvCache.PrefixCache.Donations.{donate-Balanced}
use llm_infer.KvCache.Pool.{Pool, shared}
use llm_infer.KvCache.Pool.Budget.{Books}
use llm_infer.KvCache.Pool.Sharing.{table-Acceptable}
use llm_infer.KvCache.BlockTable.{BlockTable, Held}
use llm_infer.KvCache.BlockTable.Ownership.{TableIsValid, release-Books}
use llm_infer.Serving.Request.{Request}
use llm_infer.Serving.Finish.{cached_tokens, donate_to_prefix_cache, finish_table}

-- A quotient of a table's tokens: whole blocks.
whole : (n s : ℕ) → 0 < s → n / s * s / s ≡ n / s
whole n s h = grind arith

reached : (n s k : ℕ) → 0 < s → n ≤ k * s → n / s ≤ k
reached n s k h le = grind arith

one_block_at_least : (n s l : ℕ) → 0 < s → l < n / s * s → ltb (n / s * s) s ≡ false
one_block_at_least n s l h k = grind arith

module _ (r : Request) (t : BlockTable) (a : Allocator) (store : PrefixCacheStore)
    (same : store.block_size ≡ t.block_size) (valid : TableIsValid t) where
  abbrev pool : Pool
  pool = record { allocator = a; prefix_cache = some store }

  abbrev tokens : List ℕ
  tokens = r.prompt_ids ++ r.generated

  abbrev given : List ℕ
  given = take (cached_tokens t / t.block_size) t.blocks

  length-given : length given * store.block_size ≡ cached_tokens t
  length-given =
      let q = whole t.filled t.block_size valid.sized in
      let le = reached t.filled t.block_size (length t.blocks) valid.sized valid.fits in
      let len : length given ≡ t.filled / t.block_size =
        omega (arith, length-take (cached_tokens t / t.block_size) t.blocks, q, le) in
      rw (len, same) refl

  -- When the valid table of a finished request, of the cache's block size, has more tokens in whole
  -- blocks than the request has, the donation raises and the table is not freed.
  pub donation_overshoot :
      length tokens < cached_tokens t
      → finish_table r t pool ≡ raise misaligned (record { table = t; pool = pool })
  unfolding finish_table donate_to_prefix_cache donate
  donation_overshoot over =
      let some_block = one_block_at_least t.filled t.block_size (length tokens) valid.sized over in
      let short = length-take (cached_tokens t) tokens in
      let given_all = length-given in
      let differ : (length given * store.block_size == length (take (cached_tokens t) tokens))
          ≡ false =
        ground arith in
      rw (some_block, finish_table, donate_to_prefix_cache, differ) refl

  module _ (others : List (List ℕ)) (books : Books pool (t.blocks ∷ others)) where
    donated :
        cached_tokens t ≤ length tokens
        → ltb (cached_tokens t) t.block_size ≡ false
        → (p' : Pool) × (donate_to_prefix_cache r t pool ≡ ok tt p') × Books p' (t.blocks ∷ others)
    unfolding donate_to_prefix_cache
    donated enough some_block =
        let room = not-ltb→le _ _ some_block in
        let live = table-Acceptable pool t.blocks others books valid.distinct in
        let part = λ (b : ℕ). count-take-drop b (cached_tokens t / t.block_size) t.blocks in
        let entry : PrefixCacheEntry = record {
          token_ids = take (cached_tokens t) tokens;
          block_ids = given;
        } in
        let cover : Covers store.block_size entry = record {
          aligned = omega (arith, length-given, length-take (cached_tokens t) tokens);
          nonempty = grind (arith, length-given, valid.sized);
          distinct = λ b. omega (arith, part b, valid.distinct b);
        } in
        let (s', run, store_valid, balanced, _, _, _) =
          donate-Balanced (shared pool store) (t.blocks ∷ others) books.store_valid books.accounts
            entry cover
            (λ b k. (
              omega (arith, part b, valid.distinct b),
              (live b (omega (arith, part b))).1,
              (live b (omega (arith, part b))).2,
            )) in
        (
          record { allocator = s'.allocator; prefix_cache = some s'.store },
          rw (some_block, donate_to_prefix_cache, run) refl,
          record { store_valid = store_valid; accounts = balanced },
        )

    -- With exact refcounts and a cache of the table's block size, a finished request whose valid
    -- table has at most as many tokens in whole blocks as the request has is finished without
    -- raising: its table is emptied and the refcounts are exact for the other tables and the cache.
    pub finish_table-Books :
        cached_tokens t ≤ length tokens
        → (h : Held) × (finish_table r t pool ≡ ok tt h)
          × (h.table ≡ record t { blocks = []; filled = 0 })
          × Books h.pool others
    unfolding finish_table donate_to_prefix_cache
    finish_table-Books enough = elim (Bool-cases (ltb (cached_tokens t) t.block_size)) [
      | inl small ↦
          let (h, run, emptied, left, _) = release-Books t pool others valid books in
          (h, rw (small, finish_table, donate_to_prefix_cache) run, emptied, left)
      | inr some_block ↦
          let (p', given_out, kept) = donated enough some_block in
          let (h, run, emptied, left, _) = release-Books t p' others valid kept in
          (h, rw (given_out, finish_table) run, emptied, left)
    ]
