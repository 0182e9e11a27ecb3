-- ===== src/KvCache/PrefixCache.antt =====
-- llm_infer/kv_cache/prefix_cache.py: the store of finished prompts' blocks, least recently used
-- first. A method runs on the store and on the allocator that it shares with the block tables.
pub mod Validity
pub mod Eviction
pub mod Matching
pub mod Touching
pub mod Lookups
pub mod Donations
pub mod Reuse
use llm_infer.Prelude.{
  ℕ, ◌+◌, ◌-◌, ◌*◌, ◌/◌, min, String, Bool, true, false, ◌&&◌, Option, none, some, List, [], ◌∷◌,
  ◌++◌, ltb, leb, ◌==◌, if◌then◌else◌, length, take, list_eq, bad_config, misaligned,
  empty_donation, Outcome, ok, raise,
}
use llm_infer.KvCache.Allocator.{Allocator, num_free, retain, free}

-- `_CACHE_OWNER`
abbrev pub cache_owner : Option String
cache_owner = some "prefix-cache"

pub record PrefixCacheEntry : Type 0 where
  pub token_ids : List ℕ
  pub block_ids : List ℕ

pub record PrefixCacheHit : Type 0 where
  pub block_ids : List ℕ
  pub tokens : ℕ

pub record PrefixCacheStore : Type 0 where
  pub block_size : ℕ
  pub max_entries : ℕ
  pub entries : List PrefixCacheEntry
  pub hits : ℕ
  pub misses : ℕ
  pub hit_tokens : ℕ

-- The store with its allocator.
pub record Shared : Type 0 where
  pub allocator : Allocator
  pub store : PrefixCacheStore

unfoldable pub init : ℕ → ℕ → Outcome (Unit {0}) PrefixCacheStore
init block_size max_entries =
    if ltb block_size 1
    then raise bad_config tt
    else if ltb max_entries 1
    then raise bad_config tt
    else ok
        (record {
          block_size = block_size;
          max_entries = max_entries;
          entries = [];
          hits = 0;
          misses = 0;
          hit_tokens = 0;
        })
        tt

unfoldable pub common_prefix_len : List ℕ → List ℕ → ℕ
common_prefix_len [] prompt = 0
common_prefix_len (c ∷ cached) [] = 0
common_prefix_len (c ∷ cached) (p ∷ prompt) =
    if c == p then 1 + common_prefix_len cached prompt else 0

unfoldable pub is_prefix : List ℕ → List ℕ → Bool
is_prefix shorter longer =
    leb (length shorter) (length longer) && list_eq (take (length shorter) longer) shorter

-- How far an entry can serve a prompt: whole blocks, under the cap.
unfoldable pub usable : ℕ → ℕ → List ℕ → PrefixCacheEntry → ℕ
unfolding common_prefix_len
usable block_size cap prompt_ids entry =
    min (common_prefix_len entry.token_ids prompt_ids / block_size * block_size) cap

-- The loop of `lookup` over the entries, from the best so far.
unfoldable pub best_entry :
    ℕ
    → ℕ
    → List ℕ
    → List PrefixCacheEntry
    → Option PrefixCacheEntry × ℕ
    → Option PrefixCacheEntry × ℕ
unfolding usable
best_entry block_size cap prompt_ids [] best = best
best_entry block_size cap prompt_ids (entry ∷ entries) best =
    let k = usable block_size cap prompt_ids entry in
    best_entry block_size cap prompt_ids entries (if ltb best.1 k then (some entry, k) else best)

-- `==` on two entries, and `list.remove`.
abbrev pub same_entry : PrefixCacheEntry → PrefixCacheEntry → Bool
same_entry e f = list_eq e.token_ids f.token_ids && list_eq e.block_ids f.block_ids

unfoldable pub remove_entry : PrefixCacheEntry → List PrefixCacheEntry → List PrefixCacheEntry
remove_entry e [] = []
remove_entry e (f ∷ entries) = if same_entry f e then entries else f ∷ remove_entry e entries

abbrev pub lookup_cap : PrefixCacheStore → List ℕ → ℕ
lookup_cap s prompt_ids = (length prompt_ids - 1) / s.block_size * s.block_size

abbrev pub missed : Shared → Outcome Shared (Option PrefixCacheHit)
missed s = ok none (record s { store = record (s.store) { misses = s.store.misses + 1 } })

-- The entry becomes the most recently used one.
unfoldable pub touch : PrefixCacheStore → PrefixCacheEntry → ℕ → PrefixCacheStore
unfolding remove_entry
touch store entry best_k = record store {
  entries = remove_entry entry store.entries ++ entry ∷ [];
  hits = store.hits + 1;
  hit_tokens = store.hit_tokens + best_k;
}

-- `lookup` after the loop has settled on an entry.
unfoldable pub reuse : Shared → PrefixCacheEntry → ℕ → Outcome Shared (Option PrefixCacheHit)
unfolding touch
reuse s entry best_k = elim (retain reused s.allocator) [
  | raise e a ↦ raise e (record s { allocator = a })
  | ok _ a ↦
      ok (some (record { block_ids = reused; tokens = best_k }))
        (record { allocator = a; store = touch s.store entry best_k })
]
  where
    reused : List ℕ
    reused = take (best_k / s.store.block_size) entry.block_ids

-- `lookup` on the outcome of its loop.
unfoldable pub settle :
    Shared → Option PrefixCacheEntry × ℕ → Outcome Shared (Option PrefixCacheHit)
unfolding reuse
settle s (none, best_k) = missed s
settle s (some entry, best_k) =
    if ltb best_k s.store.block_size then missed s else reuse s entry best_k

unfoldable pub lookup : List ℕ → Shared → Outcome Shared (Option PrefixCacheHit)
unfolding settle best_entry
lookup prompt_ids s =
    let cap = lookup_cap s.store prompt_ids in
    if ltb cap s.store.block_size
    then missed s
    else settle s (best_entry s.store.block_size cap prompt_ids s.store.entries (none, 0))

-- The loop of `donate` that frees the entries which the donation supersedes; it gives the survivors.
unfoldable pub supersede :
    List ℕ → List PrefixCacheEntry → Allocator → Outcome Allocator (List PrefixCacheEntry)
unfolding is_prefix
supersede tokens [] a = ok [] a
supersede tokens (entry ∷ entries) a = elim (is_prefix entry.token_ids tokens) [
  | true ↦ elim (free entry.block_ids cache_owner a) [
    | ok _ a' ↦ supersede tokens entries a'
    | raise e a' ↦ raise e a'
  ]
  | false ↦ elim (supersede tokens entries a) [
    | ok survivors a' ↦ ok (entry ∷ survivors) a'
    | raise e a' ↦ raise e a'
  ]
]

-- `while len(self._entries) > self.max_entries: self._pop_lru_and_free()`
unfoldable pub shrink :
    ℕ → List PrefixCacheEntry → Allocator → Outcome (Allocator × List PrefixCacheEntry) (Unit {0})
shrink max_entries [] a = ok tt (a, [])
shrink max_entries (entry ∷ entries) a = elim (ltb max_entries (length (entry ∷ entries))) [
  | true ↦ elim (free entry.block_ids cache_owner a) [
    | ok _ a' ↦ shrink max_entries entries a'
    | raise e a' ↦ raise e (a', entries)
  ]
  | false ↦ ok tt (a, entry ∷ entries)
]

abbrev with_entries : PrefixCacheStore → Allocator × List PrefixCacheEntry → Shared
with_entries store (a, entries) = record {
  allocator = a;
  store = record store { entries = entries };
}

-- The outcome of a loop over the entries, as one of the store.
abbrev pub back :
    PrefixCacheStore
    → Outcome (Allocator × List PrefixCacheEntry) (Unit {0})
    → Outcome Shared (Unit {0})
back store (ok _ t) = ok tt (with_entries store t)
back store (raise e t) = raise e (with_entries store t)

-- `donate` once its blocks are retained.
unfoldable pub replace : List ℕ → List ℕ → PrefixCacheStore → Allocator → Outcome Shared (Unit {0})
unfolding supersede shrink
replace token_ids block_ids store a = elim (supersede token_ids store.entries a) [
  | raise e a' ↦ raise e (record { allocator = a'; store = store })
  | ok survivors a' ↦ back store (shrink store.max_entries (survivors ++ entry ∷ []) a')
]
  where
    entry : PrefixCacheEntry
    entry = record { token_ids = token_ids; block_ids = block_ids }

unfoldable pub donate : List ℕ → List ℕ → Shared → Outcome Shared (Unit {0})
unfolding replace
donate token_ids block_ids s =
    if length block_ids * s.store.block_size == length token_ids
    then (if length block_ids == 0
        then raise empty_donation s
        else elim (retain block_ids s.allocator) [
          | raise e a ↦ raise e (record s { allocator = a })
          | ok _ a ↦ replace token_ids block_ids s.store a
        ])
    else raise misaligned s

-- The loop of `clear`.
unfoldable pub free_entries : List PrefixCacheEntry → Allocator → Outcome Allocator (Unit {0})
free_entries [] a = ok tt a
free_entries (entry ∷ entries) a = elim (free entry.block_ids cache_owner a) [
  | ok _ a' ↦ free_entries entries a'
  | raise e a' ↦ raise e a'
]

unfoldable pub clear : Shared → Outcome Shared (Unit {0})
unfolding free_entries
clear s = elim (free_entries s.store.entries s.allocator) [
  | ok _ a ↦ ok tt (with_entries s.store (a, []))
  | raise e a ↦ raise e (record s { allocator = a })
]

-- The loop of `_evict_for_shortfall`, with its counter `freed`.
unfoldable pub evict :
    ℕ
    → ℕ
    → List PrefixCacheEntry
    → Allocator
    → Outcome (Allocator × List PrefixCacheEntry) (Unit {0})
evict needed freed [] a = ok tt (a, [])
evict needed freed (entry ∷ entries) a = elim (ltb freed needed) [
  | true ↦ elim (free entry.block_ids cache_owner a) [
    | ok _ a' ↦ evict needed (freed + (num_free a' - num_free a)) entries a'
    | raise e a' ↦ raise e (a', entries)
  ]
  | false ↦ ok tt (a, entry ∷ entries)
]

unfoldable pub evict_for_shortfall : ℕ → Shared → Outcome Shared (Unit {0})
unfolding evict
evict_for_shortfall needed s = back s.store (evict needed 0 s.store.entries s.allocator)
