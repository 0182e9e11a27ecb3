-- ===== src/KvCache/PrefixCache/Donations.antt =====
-- `donate`: the books after a donation, what it replaces, and that a later prompt finds it.
use llm_infer.Prelude.{
  ℕ, zero, suc, sym, subst, ◌-◌, ◌<◌, ◌≤◌, ◌≡◌, refl, inl, inr, List, [], ◌∷◌, ◌++◌, arith,
  if◌then◌else◌, length, drop, length-append, owned-append, Elem, All, Bool-cases, ok,
}
use llm_infer.KvCache.Allocator.{Allocator, retain}
use llm_infer.KvCache.Allocator.Validity.{Accounts, Acceptable}
use llm_infer.KvCache.Allocator.Laws.{free-Accounts, retain-Accounts}
use llm_infer.KvCache.PrefixCache.{
  PrefixCacheEntry, Shared, cache_owner, is_prefix, supersede, donate, shrink,
}
use llm_infer.KvCache.PrefixCache.Validity.{
  blocks_of, blocks_of-append, Covers, StoreIsValid, Balanced, Accounts-same, All-append,
}
use llm_infer.KvCache.PrefixCache.Eviction.{shrink_lem}

-- The entries that a donation of `tokens` leaves: those that are no prefix of it.
abbrev pub survivors : List ℕ → List PrefixCacheEntry → List PrefixCacheEntry
survivors tokens [] = []
survivors tokens (e ∷ entries) =
    if is_prefix e.token_ids tokens then survivors tokens entries else e ∷ survivors tokens entries

-- The last `max_entries` entries.
abbrev pub newest : ℕ → List PrefixCacheEntry → List PrefixCacheEntry
newest max_entries entries = drop (length entries - max_entries) entries

module _ (size : ℕ) (tokens : List ℕ) where
  supersede_lem :
      (entries : List PrefixCacheEntry) (a : Allocator) (others : List (List ℕ))
      → All (Covers size) entries
      → Accounts a (blocks_of entries ++ others)
      → (a' : Allocator) × (supersede tokens entries a ≡ ok (survivors tokens entries) a')
        × Accounts a' (blocks_of (survivors tokens entries) ++ others)
        × All (Covers size) (survivors tokens entries)
        × (a'.num_blocks ≡ a.num_blocks)
  unfolding supersede
  supersede_lem [] a others c ac = (a, refl, ac, tt, refl)
  supersede_lem (e ∷ entries) a others c ac = elim (Bool-cases (is_prefix e.token_ids tokens)) [
    | inl old ↦
        let (a₁, freeing, ac₁, pool₁, _, _) =
          free-Accounts a e.block_ids _ cache_owner ac c.0.distinct in
        let (a₂, run, ac₂, c₂, pool₂) = supersede_lem entries a₁ others c.1 ac₁ in
        let step : supersede tokens (e ∷ entries) a ≡ ok (survivors tokens entries) a₂ =
          rw (old, supersede, freeing) run in
        rw old (a₂, step, ac₂, c₂, omega arith)
    | inr kept ↦
        let (a₂, run, ac₂, c₂, pool₂) = supersede_lem entries a (e.block_ids ∷ others) c.1 (
          Accounts-same _ _
            (λ b. omega (
              arith,
              owned-append b (blocks_of entries) (e.block_ids ∷ others),
              owned-append b (blocks_of entries) others,
            ))
            ac) in
        let left = survivors tokens entries in
        let step : supersede tokens (e ∷ entries) a ≡ ok (e ∷ survivors tokens entries) a₂ =
          rw (kept, supersede, run) in
        rw kept (
          a₂,
          step,
          Accounts-same _ _
              (λ b. omega (
                arith,
                owned-append b (blocks_of left) (e.block_ids ∷ others),
                owned-append b (blocks_of left) others,
              ))
              ac₂,
          (c.0, c₂),
          pool₂,
        )
  ]

Elem-drop :
    (n : ℕ) (es : List PrefixCacheEntry) (e : PrefixCacheEntry)
    → n ≤ length es
    → Elem e (drop n (es ++ e ∷ []))
Elem-drop zero [] e h = inl refl
Elem-drop zero (f ∷ es) e h = inr (Elem-drop zero es e (omega arith))
Elem-drop (suc n) [] e h = absurd (omega arith)
Elem-drop (suc n) (f ∷ es) e h = Elem-drop n es e (omega arith)

newest_lem :
    (m : ℕ) (es : List PrefixCacheEntry) (e : PrefixCacheEntry)
    → 0 < m
    → Elem e (newest m (es ++ e ∷ []))
newest_lem m es e h =
    Elem-drop (length (es ++ e ∷ []) - m) es e (omega (arith, length-append es (e ∷ [])))

module _ (s : Shared) (tables : List (List ℕ)) (v : StoreIsValid s.store) (bal : Balanced s tables)
    (e : PrefixCacheEntry) (cover : Covers s.store.block_size e)
    (live : Acceptable s.allocator e.block_ids) where
  -- With exact refcounts a donation of whole live, different blocks to a valid store never raises:
  -- superseded entries go, the donation becomes the most recently used entry, the oldest beyond the
  -- cap go, and the refcounts stay exact.
  pub donate-Balanced :
      (s' : Shared) × (donate e.token_ids e.block_ids s ≡ ok tt s')
      × StoreIsValid s'.store
      × Balanced s' tables
      × (s'.store.entries
          ≡ newest s.store.max_entries (survivors e.token_ids s.store.entries ++ e ∷ []))
      × Elem e s'.store.entries
      × (s'.store.block_size ≡ s.store.block_size)
  unfolding donate
  donate-Balanced =
      let left = survivors e.token_ids s.store.entries in
      let bs = s.store.block_size in
      let (a₁, retained, ac₁, _) = retain-Accounts s.allocator _ bal e.block_ids live in
      let (a₂, replaced, ac₂, c₂, _) =
        supersede_lem bs e.token_ids s.store.entries a₁ (e.block_ids ∷ tables) v.covered (
          Accounts-same _ _
            (λ b. omega (
              arith,
              owned-append b (blocks_of s.store.entries) (e.block_ids ∷ tables),
              owned-append b (blocks_of s.store.entries) tables,
            ))
            ac₁) in
      let (a₃, rest, shrunk, ac₃, c₃, few, last, _) =
        shrink_lem bs tables s.store.max_entries (left ++ e ∷ []) a₂
          (All-append (Covers bs) left (e ∷ []) c₂ (cover, tt))
          (Accounts-same _ _
            (λ b. omega (
              arith,
              owned-append b (blocks_of left) (e.block_ids ∷ tables),
              owned-append b (blocks_of (left ++ e ∷ [])) tables,
              blocks_of-append left (e ∷ []) b,
            ))
            ac₂) in
      (
        record { allocator = a₃; store = record (s.store) { entries = rest } },
        donated a₁ a₂ a₃ rest retained replaced shrunk,
        record { sized = v.sized; room = v.room; capped = few; covered = c₃ },
        ac₃,
        last,
        subst (Elem e) (sym last) (newest_lem s.store.max_entries left e v.room),
        refl,
      )
    where
      donated :
          (a₁ a₂ a₃ : Allocator) (rest : List PrefixCacheEntry)
          → retain e.block_ids s.allocator ≡ ok tt a₁
          → supersede e.token_ids s.store.entries a₁ ≡ ok (survivors e.token_ids s.store.entries) a₂
          → shrink s.store.max_entries (survivors e.token_ids s.store.entries ++ e ∷ []) a₂
            ≡ ok tt (a₃, rest)
          → donate e.token_ids e.block_ids s
            ≡ ok tt (record { allocator = a₃; store = record (s.store) { entries = rest } })
      donated a₁ a₂ a₃ rest p q r = ground (arith, cover.aligned, cover.nonempty)
