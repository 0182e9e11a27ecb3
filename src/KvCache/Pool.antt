-- ===== src/KvCache/Pool.antt =====
-- `BlockAllocator.allocate` of llm_infer/kv_cache/block_allocator.py, with the eviction source that
-- `PrefixCacheStore.__init__` registers: the pool that block tables draw from.
pub mod Budget
pub mod Sharing
use llm_infer.Prelude.{
  ℕ, ◌-◌, String, Option, none, some, List, ltb, if◌then◌else◌, bad_count, Outcome, ok, raise,
}
use llm_infer.KvCache.Allocator.{Allocator, num_free, hand_out}
use llm_infer.KvCache.PrefixCache.{PrefixCacheStore, Shared, evict_for_shortfall}

-- The allocator, and the prefix cache where the engine has one.
pub record Pool : Type 0 where
  pub allocator : Allocator
  pub prefix_cache : Option PrefixCacheStore

-- A call of the allocator alone.
abbrev pub on_allocator {κ} :
    {A : Type κ} → (Allocator → Outcome Allocator A) → Pool → Outcome Pool A
on_allocator f p = elim (f p.allocator) [
  | ok x a ↦ ok x (record p { allocator = a })
  | raise e a ↦ raise e (record p { allocator = a })
]

-- A call of the registered prefix cache, on the allocator that it shares.
abbrev pub shared : Pool → PrefixCacheStore → Shared
shared p store = record { allocator = p.allocator; store = store }

abbrev pub unshared {κ} : {A : Type κ} → Outcome Shared A → Outcome Pool A
unshared (ok x s) = ok x (record { allocator = s.allocator; prefix_cache = some s.store })
unshared (raise e s) = raise e (record { allocator = s.allocator; prefix_cache = some s.store })

-- `self.eviction_source(shortfall)`, if one is registered and the pool is short.
unfoldable pub ask_evictor : ℕ → Pool → Outcome Pool (Unit {0})
ask_evictor count p = elim p.prefix_cache [
  | none ↦ ok tt p
  | some store ↦
      if ltb (num_free p.allocator) count
      then unshared (evict_for_shortfall (count - num_free p.allocator) (shared p store))
      else ok tt p
]

unfoldable pub allocate : ℕ → Option String → Pool → Outcome Pool (List ℕ)
unfolding ask_evictor
allocate count owner p = if ltb count 1 then raise bad_count p else elim (ask_evictor count p) [
  | ok _ p' ↦ on_allocator (hand_out count owner) p'
  | raise e p' ↦ raise e p'
]
