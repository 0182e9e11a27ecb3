-- ===== src/KvCache/PrefixCache/Reuse.antt =====
-- Across turns: what one request donates, a later prompt that goes on from it reuses.
use llm_infer.Prelude.{
  ℕ, ◌*◌, ◌≤◌, ◌≡◌, refl, inl, inr, some, List, [], ◌∷◌, ◌++◌, arith, length, length-append, take,
  Elem, ok, ap, sym,
}
use llm_infer.KvCache.Allocator.Validity.{Acceptable}
use llm_infer.KvCache.PrefixCache.{PrefixCacheEntry, PrefixCacheHit, Shared, lookup, donate}
use llm_infer.KvCache.PrefixCache.Validity.{Covers, StoreIsValid, Balanced}
use llm_infer.KvCache.PrefixCache.Lookups.{IsHit, Longest, lookup_lem}
use llm_infer.KvCache.PrefixCache.Donations.{donate-Balanced}

take-append : (xs ys : List ℕ) → take (length xs) (xs ++ ys) ≡ take (length xs) xs
take-append [] ys = refl
take-append (x ∷ xs) ys = ap (◌∷◌ x) (take-append xs ys)

-- An entry that starts the prompt bounds every longest match from below.
Longest-ge :
    (size : ℕ) (entries : List PrefixCacheEntry) (e : PrefixCacheEntry) (x n : ℕ) (more : List ℕ)
    → Elem e entries
    → length e.block_ids * size ≡ length e.token_ids
    → Longest size entries (e.token_ids ++ x ∷ more) n
    → length e.token_ids ≤ n
Longest-ge size entries e x n more found aligned l =
    let shorter = length-append e.token_ids (x ∷ more) in
    omega (
      arith,
      l e found (length e.block_ids) (omega arith) (omega arith)
          (rw aligned (sym (take-append e.token_ids (x ∷ more)))),
    )

-- On a valid store with exact refcounts, a prompt that continues a sequence donated with whole
-- live, different blocks hits, and reuses at least all of the donated tokens.
pub lookup-donate :
    (s : Shared) (tables : List (List ℕ)) (e : PrefixCacheEntry) (x : ℕ) (more : List ℕ)
    → StoreIsValid s.store
    → Balanced s tables
    → Covers s.store.block_size e
    → Acceptable s.allocator e.block_ids
    → (s' s'' : Shared) × (hit : PrefixCacheHit) × (donate e.token_ids e.block_ids s ≡ ok tt s')
      × (lookup (e.token_ids ++ x ∷ more) s' ≡ ok (some hit) s'')
      × IsHit s' (e.token_ids ++ x ∷ more) hit
      × (length e.token_ids ≤ hit.tokens)
      × Balanced s'' (hit.block_ids ∷ tables)
lookup-donate s tables e x more v bal cover live =
    let (s', donated, v', bal', _, found, same) = donate-Balanced s tables v bal e cover live in
    let aligned : length e.block_ids * s'.store.block_size ≡ length e.token_ids =
      rw same cover.aligned in
    let reach =
      λ (n : ℕ). Longest-ge s'.store.block_size s'.store.entries e x n more found aligned in
    elim (lookup_lem s' tables v' bal' (e.token_ids ++ x ∷ more)) [
      | inl (hit, s'', run, is_hit, _, bal'') ↦
          (s', s'', hit, donated, run, is_hit, reach hit.tokens is_hit.longest, bal'')
      | inr (_, none_shared) ↦
          absurd (grind (arith, reach 0 none_shared, cover.nonempty, v.sized, cover.aligned))
    ]
