-- ===== src/KvCache/PrefixCache/Matching.antt =====
-- How far a cached prompt agrees with a new one, and the loop that picks the best entry.
use native.Mathlib.Nat.{mul-div_cancel}
use llm_infer.Prelude.{
  ℕ, zero, suc, ◌*◌, ◌/◌, ◌<◌, ◌≤◌, ◌≡◌, refl, ◌⊎◌, inl, inr, Option, some, List, [], ◌∷◌, arith,
  ltb, ltb→lt, not-ltb→le, Bool-cases, if◌then◌else◌, length, take, Elem, All,
}
use llm_infer.KvCache.PrefixCache.{PrefixCacheEntry, common_prefix_len, usable, best_entry}

-- Up to the common length the two agree.
pub take-common :
    (n : ℕ) (cached prompt : List ℕ)
    → n ≤ common_prefix_len cached prompt
    → take n cached ≡ take n prompt
unfolding common_prefix_len
take-common zero cached prompt h = refl
take-common (suc n) [] prompt h = absurd (omega arith)
take-common (suc n) (c ∷ cached) [] h = absurd (omega arith)
take-common (suc n) (c ∷ cached) (p ∷ prompt) h = ground (arith, take-common n cached prompt)

pub common-le-length :
    (cached prompt : List ℕ)
    → (common_prefix_len cached prompt ≤ length cached)
      × (common_prefix_len cached prompt ≤ length prompt)
unfolding common_prefix_len
common-le-length [] prompt = omega arith
common-le-length (c ∷ cached) [] = omega arith
common-le-length (c ∷ cached) (p ∷ prompt) = ground (arith, common-le-length cached prompt)

-- The common length is the greatest at which they agree.
pub le-common :
    (n : ℕ) (cached prompt : List ℕ)
    → n ≤ length cached
    → n ≤ length prompt
    → take n cached ≡ take n prompt
    → n ≤ common_prefix_len cached prompt
unfolding common_prefix_len
le-common zero cached prompt h k e = omega arith
le-common (suc n) [] prompt h k e = absurd (omega arith)
le-common (suc n) (c ∷ cached) [] h k e = absurd (omega arith)
le-common (suc n) (c ∷ cached) (p ∷ prompt) h k e = ground (arith, le-common n cached prompt)

-- Rounding down to whole blocks.
pub floor-le : (n s : ℕ) → n / s * s ≤ n
floor-le n s = grind arith

pub le-floor : (q n s : ℕ) → 0 < s → q * s ≤ n → q * s ≤ n / s * s
le-floor q n s h k = grind arith

module _ (size : ℕ) (size_pos : 0 < size) (cap_blocks : ℕ) (prompt : List ℕ) where
  pub usable_facts :
      (e : PrefixCacheEntry)
      → let k = usable size (cap_blocks * size) prompt e in
        (k / size * size ≡ k) × (k ≤ cap_blocks * size) × (k ≤ common_prefix_len e.token_ids prompt)
  unfolding usable
  usable_facts e = grind (
    arith,
    mul-div_cancel (common_prefix_len e.token_ids prompt / size) size_pos,
    mul-div_cancel cap_blocks size_pos,
    floor-le (common_prefix_len e.token_ids prompt) size,
  )

  -- Any number of whole blocks on which the entry agrees with the prompt, under the cap, is usable.
  pub le-usable :
      (e : PrefixCacheEntry) (q : ℕ)
      → q * size ≤ cap_blocks * size
      → q * size ≤ common_prefix_len e.token_ids prompt
      → q * size ≤ usable size (cap_blocks * size) prompt e
  unfolding usable
  le-usable e q h k =
      grind (arith, le-floor q (common_prefix_len e.token_ids prompt) size size_pos k)

module _ (size cap : ℕ) (prompt : List ℕ) where
  -- The loop ends with the best so far, or with an entry that is strictly better.
  abbrev pub Best :
      List PrefixCacheEntry → Option PrefixCacheEntry × ℕ → Option PrefixCacheEntry × ℕ → Type 0
  Best entries start r =
      (start.1 ≤ r.1)
      × All (λ e. usable size cap prompt e ≤ r.1) entries
      × ((r ≡ start)
          ⊎ ((e : PrefixCacheEntry) × Elem e entries
              × (r ≡ (some e, usable size cap prompt e))
              × (0 < usable size cap prompt e)))

  Best-cons :
      (e : PrefixCacheEntry) (entries : List PrefixCacheEntry)
      (start r : Option PrefixCacheEntry × ℕ)
      → let k = usable size cap prompt e in
        Best entries (if ltb start.1 k then (some e, k) else start) r → Best (e ∷ entries) start r
  Best-cons e entries start r b = elim (Bool-cases (ltb start.1 (usable size cap prompt e))) [
    | inl better ↦
        let (low, all, from) = rw better at b in
        let more = ltb→lt _ _ better in
        (
          omega arith,
          (low, all),
          inr (elim from [
            | inl same ↦ (e, inl refl, same, omega arith)
            | inr (x, found, is_x, pos) ↦ (x, inr found, is_x, pos)
          ]),
        )
    | inr worse ↦
        let (low, all, from) = rw worse at b in
        let less = not-ltb→le _ _ worse in
        (
          low,
          (omega arith, all),
          elim from [
            | inl same ↦ inl same
            | inr (x, found, is_x, pos) ↦ inr (x, inr found, is_x, pos)
          ],
        )
  ]

  pub best_entry-Best :
      (entries : List PrefixCacheEntry) (start : Option PrefixCacheEntry × ℕ)
      → Best entries start (best_entry size cap prompt entries start)
  unfolding best_entry
  best_entry-Best [] start = (omega arith, tt, inl refl)
  best_entry-Best (e ∷ entries) start = Best-cons e entries start _ (best_entry-Best entries _)
