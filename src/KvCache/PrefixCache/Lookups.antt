-- ===== src/KvCache/PrefixCache/Lookups.antt =====
-- `lookup`: what a hit hands out, and what it does to the books.
use llm_infer.Prelude.{
  ℕ, suc, ◌-◌, ◌*◌, ◌/◌, ◌<◌, ◌≤◌, ◌≡◌, refl, ◌⊎◌, inl, inr, Option, none, some, List, ◌∷◌, false,
  arith, ltb, ltb→lt, not-ltb→le, subst, zero, length, take, length-take, Elem, All, All-Elem,
  Bool-cases, ok,
}
use llm_infer.KvCache.PrefixCache.{
  PrefixCacheEntry, PrefixCacheHit, Shared, usable, best_entry, lookup_cap, missed, settle, lookup,
}
use llm_infer.KvCache.PrefixCache.Validity.{Covers, StoreIsValid, Balanced}
use llm_infer.KvCache.PrefixCache.Touching.{reuse_lem}
use llm_infer.KvCache.PrefixCache.Matching.{
  take-common, common-le-length, le-common, floor-le, le-floor, usable_facts, le-usable,
  best_entry-Best,
}

multiple_small : (q s : ℕ) → q * s < s → q * s ≤ 0
multiple_small zero s h = omega arith
multiple_small (suc q) s h = absurd (omega arith)

-- No entry shares with the prompt, short of its last token, more whole blocks than `n` tokens hold.
abbrev pub Longest : ℕ → List PrefixCacheEntry → List ℕ → ℕ → Type 0
Longest size entries prompt n =
    (e : PrefixCacheEntry)
    → Elem e entries
    → (q : ℕ) → q * size ≤ length e.token_ids
    → q * size < length prompt
    → take (q * size) e.token_ids ≡ take (q * size) prompt
    → q * size ≤ n

-- What a hit gives: whole blocks of an entry that starts like the prompt, as many as any entry has,
-- and at least one token left to prefill.
pub record IsHit (s : Shared) (prompt : List ℕ) (hit : PrefixCacheHit) : Type 0 where
  pub whole : length hit.block_ids * s.store.block_size ≡ hit.tokens
  pub positive : 0 < hit.tokens
  pub short : hit.tokens < length prompt
  pub from :
      (e : PrefixCacheEntry) × Elem e s.store.entries
      × (take hit.tokens e.token_ids ≡ take hit.tokens prompt)
      × (hit.block_ids ≡ take (length hit.block_ids) e.block_ids)
  pub longest : Longest s.store.block_size s.store.entries prompt hit.tokens

module _ (s : Shared) (tables : List (List ℕ)) (v : StoreIsValid s.store) (bal : Balanced s tables)
    (prompt : List ℕ) where
  -- The loop's result is at least every whole-block match.
  longest :
      (n : ℕ)
      → All
          (λ e. usable s.store.block_size (lookup_cap s.store prompt) prompt e ≤ n)
          s.store.entries
      → Longest s.store.block_size s.store.entries prompt n
  longest n all e found q in_entry in_prompt agree =
      let bs = s.store.block_size in
      let under_cap = le-floor q (length prompt - 1) bs v.sized (omega arith) in
      let common = le-common (q * bs) e.token_ids prompt in_entry (omega arith) agree in
      let best = All-Elem (λ e. usable bs (lookup_cap s.store prompt) prompt e ≤ n) _ all found in
      omega
        (arith, best, le-usable bs v.sized ((length prompt - 1) / bs) prompt e q under_cap common)

  hit_lem :
      (e : PrefixCacheEntry) (k : ℕ)
      → Elem e s.store.entries
      → k ≡ usable s.store.block_size (lookup_cap s.store prompt) prompt e
      → s.store.block_size ≤ k
      → All
          (λ e. usable s.store.block_size (lookup_cap s.store prompt) prompt e ≤ k)
          s.store.entries
      → IsHit s prompt
          (record { block_ids = take (k / s.store.block_size) e.block_ids; tokens = k })
  hit_lem e k found is_k big all =
      let bs = s.store.block_size in
      let (whole, capped, common) = usable_facts bs v.sized ((length prompt - 1) / bs) prompt e in
      let low = floor-le (length prompt - 1) bs in
      let cover = All-Elem (Covers bs) s.store.entries v.covered found in
      let (in_entry, in_prompt) = common-le-length e.token_ids prompt in
      let whole' : k / bs * bs ≡ k = rw is_k whole in
      let enough : k / bs ≤ length e.block_ids = grind (arith, cover.aligned) in
      let blocks : length (take (k / bs) e.block_ids) ≡ k / bs =
        omega (arith, length-take (k / bs) e.block_ids) in
      record {
        whole = rw blocks whole';
        positive = omega (arith, v.sized);
        short = omega (arith, v.sized);
        from = (e, found, take-common k e.token_ids prompt (omega arith), rw blocks);
        longest = longest k all;
      }

  -- No match of a whole block: nothing longer than zero.
  none-Longest :
      (n : ℕ)
      → n < s.store.block_size
      → Longest s.store.block_size s.store.entries prompt n
      → Longest s.store.block_size s.store.entries prompt 0
  none-Longest n small l e found q in_entry in_prompt agree =
      multiple_small q s.store.block_size (omega (arith, l e found q in_entry in_prompt agree))

  under_cap : Longest s.store.block_size s.store.entries prompt (lookup_cap s.store prompt)
  under_cap e found q in_entry in_prompt agree =
      le-floor q (length prompt - 1) s.store.block_size v.sized (omega arith)

  abbrev Under : Option PrefixCacheEntry × ℕ → Type 0
  Under r =
      All (λ e. usable s.store.block_size (lookup_cap s.store prompt) prompt e ≤ r.1)
        s.store.entries

  abbrev pub Looked : Type 0
  Looked =
      ((hit : PrefixCacheHit) × (s' : Shared) × (lookup prompt s ≡ ok (some hit) s')
        × IsHit s prompt hit
        × StoreIsValid s'.store
        × Balanced s' (hit.block_ids ∷ tables))
      ⊎ ((lookup prompt s ≡ missed s) × Longest s.store.block_size s.store.entries prompt 0)

  settled :
      ltb (lookup_cap s.store prompt) s.store.block_size ≡ false
      → (e : PrefixCacheEntry) → Elem e s.store.entries
      → let k = usable s.store.block_size (lookup_cap s.store prompt) prompt e in
        best_entry s.store.block_size (lookup_cap s.store prompt) prompt s.store.entries (none, 0)
          ≡ (some e, k)
        → Under (some e, k)
        → Looked
  unfolding lookup
  settled room e found is_e all =
      let k = usable s.store.block_size (lookup_cap s.store prompt) prompt e in
      elim (Bool-cases (ltb k s.store.block_size)) [
        | inl little ↦ inr (
          rw (room, lookup, is_e, settle, little),
          none-Longest k (ltb→lt _ _ little) (longest k all),
        )
        | inr enough ↦
            let (s', hit, valid, balanced, _) = reuse_lem s tables v bal e k found in
            inl (
              _,
              s',
              rw (room, lookup, is_e, settle, enough) hit,
              hit_lem e k found refl (not-ltb→le _ _ enough) all,
              valid,
              balanced,
            )
      ]

  -- On a valid store with exact refcounts `lookup` never raises: it hits with the longest reusable
  -- whole-block prefix that leaves a prompt token to prefill, and the caller owns its blocks, or it
  -- only counts a miss and no entry shares a whole block with the prompt.
  pub lookup_lem : Looked
  unfolding lookup
  lookup_lem =
      let cap = lookup_cap s.store prompt in
      let bs = s.store.block_size in
      let best = best_entry bs cap prompt s.store.entries (none, 0) in
      let (_, all, from) = best_entry-Best bs cap prompt s.store.entries (none, 0) in
      elim (Bool-cases (ltb cap bs)) [
        | inl tiny ↦ inr (rw (tiny, lookup), none-Longest cap (ltb→lt _ _ tiny) under_cap)
        | inr room ↦ elim from [
          | inl same ↦ inr (rw (room, lookup, same), longest 0 (subst Under same all))
          | inr (e, found, is_e, pos) ↦ settled room e found is_e (subst Under is_e all)
        ]
      ]
