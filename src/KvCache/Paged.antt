-- ===== src/KvCache/Paged.antt =====
-- llm_infer/kv_cache/paged_kv_cache.py: the K/V pages behind block tables. `R` is what one slot of one
-- layer holds: a key row and a value row, which every method moves together. The tensor `kv` is a
-- function of the layer, the block and the offset.
pub mod CopyOnWrite
pub mod Rows
pub mod Isolation
pub mod Plans
use llm_infer.Prelude.{
  ℕ, zero, suc, ◌+◌, ◌-◌, ◌*◌, ◌/◌, ◌%◌, min, Bool, true, false, not, ◌&&◌, ◌||◌, Option, none,
  some, List, [], ◌∷◌, ltb, ◌==◌, if◌then◌else◌, length, get_or, set, take, drop, Outcome, ok,
  raise, bad_count, bad_position, shared_write, batch_mismatch,
}
use llm_infer.KvCache.Allocator.{Allocator, refcount, free}
use llm_infer.KvCache.Pool.{Pool, allocate, on_allocator}
use llm_infer.KvCache.BlockTable.{BlockTable, capacity, ceil_div, physical_slot, physical_slots}

abbrev pub Pages : Type 0 → Type 0
Pages R = ℕ → ℕ → ℕ → R

-- The pages, one table, and the pool.
pub record Cache (R : Type 0) : Type 0 where
  pub kv : Pages R
  pub table : BlockTable
  pub pool : Pool

-- The sum of `append_cost`: how many of the blocks are shared.
unfoldable pub count_shared : List ℕ → Allocator → Outcome Allocator ℕ
unfolding refcount
count_shared [] a = ok 0 a
count_shared (block ∷ blocks) a = elim (refcount a block) [
  | raise e a' ↦ raise e a'
  | ok owners _ ↦ elim (count_shared blocks a) [
    | raise e a' ↦ raise e a'
    | ok n a' ↦ ok ((if ltb 1 owners then 1 else 0) + n) a'
  ]
]

unfoldable pub append_cost : BlockTable → ℕ → Allocator → Outcome Allocator ℕ
unfolding count_shared
append_cost t count a =
    let end_pos = t.filled + count in
    let growth = ceil_div end_pos t.block_size - length t.blocks in
    let first_block = t.filled / t.block_size in
    let end_block = min ((end_pos - 1) / t.block_size + 1) (length t.blocks) in
    if ltb count 1
    then ok 0 a
    else elim (count_shared (drop first_block (take end_block t.blocks)) a) [
      | ok cow a' ↦ ok (growth + cow) a'
      | raise e a' ↦ raise e a'
    ]

-- `_copy_block`, in every layer.
abbrev pub copy_block : {R : Type 0} → ℕ → ℕ → Pages R → Pages R
copy_block source target kv layer block offset =
    if block == target then kv layer source offset else kv layer block offset

-- Replacing a shared block by a private copy: the end of a round of `prepare_write`.
abbrev pub replaced :
    {R : Type 0} → ℕ → ℕ → Cache R → Outcome Pool (List ℕ) → Outcome (Cache R) (Unit {0})
replaced index block c (raise e p) = raise e (record c { pool = p })
replaced index block c (ok out p) =
    let new_block = get_or out 0 0 in
    let t = record (c.table) { blocks = set c.table.blocks index new_block } in
    let kv = copy_block block new_block c.kv in
    elim (on_allocator (free (block ∷ []) t.owner) p) [
      | ok _ p' ↦ ok tt (record { kv = kv; table = t; pool = p' })
      | raise e p' ↦ raise e (record { kv = kv; table = t; pool = p' })
    ]

-- A round of the loop of `prepare_write`.
unfoldable pub prepare_block : {R : Type 0} → ℕ → ℕ → Cache R → Outcome (Cache R) (Unit {0})
prepare_block start_pos index c =
    let t = c.table in
    let block = get_or t.blocks index 0 in
    elim (refcount c.pool.allocator block) [
      | raise e a ↦ raise e c
      | ok owners a ↦
          if owners == 1
          then ok tt c
          else if not (start_pos == t.filled) || start_pos == index * t.block_size
          then raise shared_write c
          else replaced index block c (allocate 1 t.owner c.pool)
    ]

unfoldable pub prepare_blocks : {R : Type 0} → ℕ → ℕ → ℕ → Cache R → Outcome (Cache R) (Unit {0})
prepare_blocks start_pos index zero c = ok tt c
prepare_blocks start_pos index (suc rounds) c = elim (prepare_block start_pos index c) [
  | ok _ c' ↦ prepare_blocks start_pos (suc index) rounds c'
  | raise e c' ↦ raise e c'
]

unfoldable pub prepare_write : {R : Type 0} → ℕ → ℕ → Cache R → Outcome (Cache R) (Unit {0})
prepare_write start_pos count c =
    let end_pos = start_pos + count in
    let first_block = start_pos / c.table.block_size in
    let last_block = (end_pos - 1) / c.table.block_size in
    if ltb count 1
    then raise bad_count c
    else if ltb (capacity c.table) end_pos
    then raise bad_position c
    else prepare_blocks start_pos first_block (last_block + 1 - first_block) c

-- `_write_slots` and `_read_slots`: a slot is split into its block and its offset.
unfoldable pub write_slots : {R : Type 0} → ℕ → ℕ → List ℕ → List R → Pages R → Pages R
write_slots size layer [] rows kv = kv
write_slots size layer (slot ∷ slots) [] kv = kv
write_slots size layer (slot ∷ slots) (row ∷ rows) kv =
    write_slots size layer slots rows
      (λ l b o. if l == layer && (b == slot / size && o == slot % size) then row else kv l b o)

unfoldable pub read_slots : {R : Type 0} → ℕ → ℕ → List ℕ → Pages R → List R
read_slots size layer [] kv = []
read_slots size layer (slot ∷ slots) kv =
    kv layer (slot / size) (slot % size) ∷ read_slots size layer slots kv

abbrev pub stored :
    {R : Type 0} → ℕ → List R → Cache R → Option (List ℕ) → Outcome (Cache R) (Unit {0})
stored layer rows c none = raise bad_position c
stored layer rows c (some slots) =
    ok tt (record c { kv = write_slots c.table.block_size layer slots rows c.kv })

unfoldable pub write : {R : Type 0} → ℕ → ℕ → List R → Cache R → Outcome (Cache R) (Unit {0})
write layer start_pos rows c = elim (prepare_write start_pos (length rows) c) [
  | raise e c' ↦ raise e c'
  | ok _ c' ↦ stored layer rows c' (physical_slots c'.table start_pos (length rows))
]

-- `none` is the ValueError of a position out of range.
unfoldable pub read : {R : Type 0} → BlockTable → ℕ → ℕ → Pages R → Option (List R)
read t layer count kv = elim (physical_slots t 0 count) [
  | none ↦ none
  | some slots ↦ some (read_slots t.block_size layer slots kv)
]
