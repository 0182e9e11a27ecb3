-- ===== src/KvCache/BlockTable.antt =====
-- llm_infer/kv_cache/block_table.py: a request's map from token positions to physical slots. A method
-- that changes the pool runs on the table and the pool.
pub mod Slots
pub mod Ownership
use llm_infer.Prelude.{
  ℕ, zero, suc, ◌+◌, ◌-◌, ◌*◌, ◌/◌, ◌%◌, String, Option, none, some, List, [], ◌∷◌, ◌++◌, ltb,
  if◌then◌else◌, length, get_or, take, drop, bad_config, Outcome, ok, raise,
}
use llm_infer.KvCache.Allocator.{retain, free}
use llm_infer.KvCache.Pool.{Pool, allocate, on_allocator}

pub record BlockTable : Type 0 where
  pub block_size : ℕ
  pub blocks : List ℕ
  -- `length`: how many tokens are cached.
  pub filled : ℕ
  pub owner : Option String

-- A table and the pool that it draws from.
pub record Held : Type 0 where
  pub table : BlockTable
  pub pool : Pool

-- `-(-n // size)`
abbrev pub ceil_div : ℕ → ℕ → ℕ
ceil_div n size = (n + (size - 1)) / size

abbrev pub empty_table : ℕ → Option String → BlockTable
empty_table block_size owner = record {
  block_size = block_size;
  blocks = [];
  filled = 0;
  owner = owner;
}

unfoldable pub init : ℕ → Outcome (Unit {0}) BlockTable
init block_size =
    if ltb block_size 1 then raise bad_config tt else ok (empty_table block_size none) tt

abbrev pub capacity : BlockTable → ℕ
capacity t = length t.blocks * t.block_size

-- A call on the pool, for a caller that also holds a table.
abbrev pub holding : {A : Type 0} → BlockTable → Outcome Pool A → Outcome Held A
holding t (ok x p) = ok x (record { table = t; pool = p })
holding t (raise e p) = raise e (record { table = t; pool = p })

-- The blocks that come from the pool are appended.
abbrev pub extend : BlockTable → Outcome Pool (List ℕ) → Outcome Held (Unit {0})
extend t (ok out p) = ok tt (record { table = record t { blocks = t.blocks ++ out }; pool = p })
extend t (raise e p) = raise e (record { table = t; pool = p })

unfoldable pub reserve : ℕ → Held → Outcome Held (Unit {0})
reserve num_new_tokens h =
    let needed_blocks = ceil_div (t.filled + num_new_tokens) t.block_size in
    if ltb (length t.blocks) needed_blocks
    then extend t (allocate (needed_blocks - length t.blocks) t.owner h.pool)
    else ok tt h
  where
    open h use {table as t}

-- `if fork.blocks:` and what stands under it.
abbrev pub retain_blocks : List ℕ → Pool → Outcome Pool (Unit {0})
retain_blocks [] p = ok tt p
retain_blocks (b ∷ blocks) p = on_allocator (retain (b ∷ blocks)) p

unfoldable pub fork_shared : BlockTable → Pool → Outcome Pool BlockTable
fork_shared t p = elim (retain_blocks t.blocks p) [ ok _ p' ↦ ok t p' | raise e p' ↦ raise e p' ]

-- `none` is the ValueError of a position out of range.
unfoldable pub physical_slot : BlockTable → ℕ → Option ℕ
physical_slot t pos =
    if ltb pos (capacity t)
    then some (get_or t.blocks (pos / t.block_size) 0 * t.block_size + pos % t.block_size)
    else none

abbrev pub prepend : Option ℕ → Option (List ℕ) → Option (List ℕ)
prepend (some slot) (some slots) = some (slot ∷ slots)
prepend (some slot) none = none
prepend none slots = none

unfoldable pub physical_slots : BlockTable → ℕ → ℕ → Option (List ℕ)
unfolding physical_slot
physical_slots t start zero = some []
physical_slots t start (suc count) =
    prepend (physical_slot t start) (physical_slots t (suc start) count)

unfoldable pub trim_to_length : Held → Outcome Held (Unit {0})
trim_to_length h =
    let needed = ceil_div t.filled t.block_size in
    if ltb needed (length t.blocks)
    then holding (record t { blocks = take needed t.blocks })
        (on_allocator (free (drop needed t.blocks) t.owner) h.pool)
    else ok tt h
  where
    open h use {table as t}

-- `if self.blocks:` and what stands under it.
abbrev pub free_blocks : List ℕ → Option String → Pool → Outcome Pool (Unit {0})
free_blocks [] owner p = ok tt p
free_blocks (b ∷ blocks) owner p = on_allocator (free (b ∷ blocks) owner) p

abbrev pub emptied : BlockTable → Outcome Pool (Unit {0}) → Outcome Held (Unit {0})
emptied t (ok _ p) = ok tt (record { table = record t { blocks = []; filled = 0 }; pool = p })
emptied t (raise e p) = raise e (record { table = t; pool = p })

unfoldable pub release : Held → Outcome Held (Unit {0})
release h = emptied h.table (free_blocks h.table.blocks h.table.owner h.pool)
