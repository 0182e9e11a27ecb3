-- ===== src/KvCache/PrefixCache/Validity.antt =====
-- The invariant of the prefix cache, and its account with the allocator.
use llm_infer.Prelude.{
  ℕ, ◌+◌, ◌*◌, ◌<◌, ◌≤◌, ◌≡◌, List, [], ◌∷◌, ◌++◌, map, arith, length, count, owned, All,
}
use llm_infer.KvCache.Allocator.{Allocator}
use llm_infer.KvCache.Allocator.Validity.{Accounts}
use llm_infer.KvCache.PrefixCache.{PrefixCacheEntry, PrefixCacheStore, Shared}

-- The block lists that the entries hold.
abbrev pub blocks_of : List PrefixCacheEntry → List (List ℕ)
blocks_of = map (λ e. e.block_ids)

pub blocks_of-append :
    (es fs : List PrefixCacheEntry) (b : ℕ)
    → owned b (blocks_of (es ++ fs)) ≡ owned b (blocks_of es) + owned b (blocks_of fs)
blocks_of-append [] fs b = omega arith
blocks_of-append (e ∷ es) fs b = omega (arith, blocks_of-append es fs b)

-- An entry covers its tokens with whole blocks, at least one, and no block twice.
pub record Covers (block_size : ℕ) (e : PrefixCacheEntry) : Type 0 where
  pub aligned : length e.block_ids * block_size ≡ length e.token_ids
  pub nonempty : 0 < length e.block_ids
  pub distinct : (b : ℕ) → count b e.block_ids ≤ 1

pub record StoreIsValid (s : PrefixCacheStore) : Type 0 where
  pub sized : 0 < s.block_size
  pub room : 0 < s.max_entries
  pub capped : length s.entries ≤ s.max_entries
  pub covered : All (Covers s.block_size) s.entries

-- The allocator's refcounts are those of the entries and of the block tables.
abbrev pub Balanced : Shared → List (List ℕ) → Type 0
Balanced s tables = Accounts s.allocator (blocks_of s.store.entries ++ tables)

-- Accounts look only at how often each block is owned.
pub Accounts-same :
    {a : Allocator} (ts us : List (List ℕ))
    → ((b : ℕ) → owned b ts ≡ owned b us)
    → Accounts a ts
    → Accounts a us
Accounts-same ts us h ac = record { valid = ac.valid; held = λ b. omega (arith, ac.held b, h b) }

pub All-append {κ} :
    {A : Type 0} (P : A → Type κ) (xs ys : List A) → All P xs → All P ys → All P (xs ++ ys)
All-append P [] ys h k = k
All-append P (x ∷ xs) ys h k = (h.0, All-append P xs ys h.1 k)
