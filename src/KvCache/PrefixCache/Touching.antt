-- ===== src/KvCache/PrefixCache/Touching.antt =====
-- What a hit does to the books and to the order of the entries.
use llm_infer.Prelude.{
  ℕ, suc, ◌+◌, ◌/◌, ◌<◌, ◌≤◌, ◌≡◌, refl, inl, inr, some, List, [], ◌∷◌, ◌++◌, true, false, arith,
  length, take, count, count-take-drop, owned, owned-append, list_eq→eq, list_eq_refl,
  length-append, Elem, All, All-Elem, Bool-cases, ok,
}
use llm_infer.KvCache.Allocator.{rc}
use llm_infer.KvCache.Allocator.Validity.{Acceptable}
use llm_infer.KvCache.Allocator.Laws.{retain-Accounts, rc_in_pool}
use llm_infer.KvCache.PrefixCache.{PrefixCacheEntry, Shared, same_entry, remove_entry, touch, reuse}
use llm_infer.KvCache.PrefixCache.Validity.{
  blocks_of, blocks_of-append, Covers, StoreIsValid, Balanced, Accounts-same, All-append,
}

same_entry→eq : (e f : PrefixCacheEntry) → (same_entry e f ≡ true) → e ≡ f
same_entry→eq e f h =
    ground (arith, list_eq→eq e.token_ids f.token_ids, list_eq→eq e.block_ids f.block_ids)

same_entry_refl : (e : PrefixCacheEntry) → same_entry e e ≡ true
same_entry_refl e = ground (arith, list_eq_refl e.token_ids, list_eq_refl e.block_ids)

-- Removing an entry takes away its blocks, once.
pub remove_entry_lem :
    (size : ℕ) (e : PrefixCacheEntry) (entries : List PrefixCacheEntry)
    → Elem e entries
    → All (Covers size) entries
    → ((b : ℕ)
        → owned b (blocks_of (remove_entry e entries)) + count b e.block_ids
          ≡ owned b (blocks_of entries))
      × (suc (length (remove_entry e entries)) ≡ length entries)
      × All (Covers size) (remove_entry e entries)
      × Covers size e
unfolding remove_entry
remove_entry_lem size e [] h c = absurd h
remove_entry_lem size e (f ∷ entries) h c = elim (Bool-cases (same_entry f e)) [
  | inl same ↦ let p = same_entry→eq f e same in rw (same, ← p) (λ b. omega arith, refl, c.1, c.0)
  | inr other ↦
      let (same_blocks, shorter, covered, cover) =
        remove_entry_lem size e entries (later other) c.1 in
      rw other (λ b. omega (arith, same_blocks b), omega arith, (c.0, covered), cover)
]
  where
    later : same_entry f e ≡ false → Elem e entries
    later other = elim h [ inl p ↦ absurd (ground (arith, same_entry_refl e)) | inr found ↦ found ]

pub owned-Elem :
    (b : ℕ) (e : PrefixCacheEntry) (entries : List PrefixCacheEntry)
    → Elem e entries
    → count b e.block_ids ≤ owned b (blocks_of entries)
owned-Elem b e [] h = absurd h
owned-Elem b e (f ∷ entries) (inl p) = ground arith
owned-Elem b e (f ∷ entries) (inr h) = omega (arith, owned-Elem b e entries h)

module _ (s : Shared) (tables : List (List ℕ)) (v : StoreIsValid s.store)
    (bal : Balanced s tables) where
  -- The reused blocks can be retained.
  reused-Acceptable :
      (e : PrefixCacheEntry) (n : ℕ)
      → Elem e s.store.entries
      → Acceptable s.allocator (take n e.block_ids)
  reused-Acceptable e n found b k =
      let part = count-take-drop b n e.block_ids in
      let once =
        (All-Elem (Covers s.store.block_size) s.store.entries v.covered found).distinct b in
      let some_owner = owned-Elem b e s.store.entries found in
      let held : 0 < rc s.allocator b =
        omega (arith, bal.held b, owned-append b (blocks_of s.store.entries) tables) in
      (omega arith, rc_in_pool s.allocator b bal.valid held, held)

  touch-IsValid :
      (e : PrefixCacheEntry) (k : ℕ) → Elem e s.store.entries → StoreIsValid (touch s.store e k)
  unfolding touch
  touch-IsValid e k found =
      let kept = remove_entry e s.store.entries in
      let (_, shorter, covered, cover) = remove_entry_lem s.store.block_size e _ found v.covered in
      record {
        sized = v.sized;
        room = v.room;
        capped = omega (arith, v.capped, length-append kept (e ∷ []));
        covered = All-append (Covers s.store.block_size) kept (e ∷ []) covered (cover, tt);
      }

  owned-touch :
      (e : PrefixCacheEntry) (k b : ℕ)
      → Elem e s.store.entries
      → owned b (blocks_of (touch s.store e k).entries) ≡ owned b (blocks_of s.store.entries)
  unfolding touch
  owned-touch e k b found =
      let kept = remove_entry e s.store.entries in
      let (same_blocks, _, _, _) = remove_entry_lem s.store.block_size e _ found v.covered in
      omega (arith, same_blocks b, blocks_of-append kept (e ∷ []) b)

  -- The books after a hit: one more owner for the reused blocks.
  pub reuse_lem :
      (e : PrefixCacheEntry) (k : ℕ)
      → Elem e s.store.entries
      → let reused = take (k / s.store.block_size) e.block_ids in
        (s' : Shared) × (reuse s e k ≡ ok (some (record { block_ids = reused; tokens = k })) s')
        × StoreIsValid s'.store
        × Balanced s' (reused ∷ tables)
        × (s'.store ≡ touch s.store e k)
  unfolding reuse
  reuse_lem e k found =
      let reused = take (k / s.store.block_size) e.block_ids in
      let mine = blocks_of s.store.entries in
      let (a', retained, ac, _) =
        retain-Accounts s.allocator _ bal reused (reused-Acceptable e _ found) in
      (
        record { allocator = a'; store = touch s.store e k },
        rw (retained, reuse),
        touch-IsValid e k found,
        Accounts-same (reused ∷ mine ++ tables) _
            (λ b. omega (
              arith,
              owned-append b mine tables,
              owned-append b (blocks_of (touch s.store e k).entries) (reused ∷ tables),
              owned-touch e k b found,
            ))
            ac,
        refl,
      )
