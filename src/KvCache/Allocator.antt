-- ===== src/KvCache/Allocator.antt =====
-- llm_infer/kv_cache/block_allocator.py: the refcounted free list over physical block ids.
-- `allocate` asks the prefix cache for blocks, so its eviction step stands in KvCache/Pool; here is
-- all that it does after that step. A failed call returns the object as Python leaves it.
pub mod Validity
pub mod Loops
pub mod Laws
use llm_infer.Prelude.{
  ℕ, ◌+◌, ◌-◌, String, Bool, true, false, ◌||◌, Option, none, some, List, [], ◌∷◌, ◌++◌, ltb, ◌==◌,
  if◌then◌else◌, length, get_or, set, take, drop, replicate, range, member, Error, bad_config,
  bad_count, out_of_blocks, out_of_range, double_free, dead_block, duplicate_block, Outcome, ok,
  raise,
}

pub record BlockPoolEvent : Type 0 where
  pub owner : Option String
  pub allocated : List ℕ
  pub freed : List ℕ
  pub num_used : ℕ
  pub num_free : ℕ

-- `free_list` is `_free`, its top at the end. `observed` says whether an observer is registered, and
-- `events` are the calls that it received, oldest first.
pub record Allocator : Type 0 where
  pub num_blocks : ℕ
  pub free_list : List ℕ
  pub refcounts : List ℕ
  pub observed : Bool
  pub events : List BlockPoolEvent

-- `list(range(num_blocks))` and no references.
abbrev pub fresh_pool : ℕ → Bool → Allocator
fresh_pool num_blocks observed = record {
  num_blocks = num_blocks;
  free_list = range 0 num_blocks;
  refcounts = replicate num_blocks 0;
  observed = observed;
  events = [];
}

unfoldable pub init : ℕ → Bool → Outcome (Unit {0}) Allocator
init num_blocks observed =
    if ltb num_blocks 1 then raise bad_config tt else ok (fresh_pool num_blocks observed) tt

abbrev pub num_free : Allocator → ℕ
num_free a = length a.free_list

abbrev pub num_used : Allocator → ℕ
num_used a = a.num_blocks - length a.free_list

-- `_refcounts[block]`, for a block id in range.
abbrev pub rc : Allocator → ℕ → ℕ
rc a block = get_or a.refcounts block 0

unfoldable pub refcount : Allocator → ℕ → Outcome Allocator ℕ
refcount a block = if ltb block a.num_blocks then ok (rc a block) a else raise out_of_range a

unfoldable pub notify : Option String → List ℕ → List ℕ → Allocator → Allocator
notify owner [] [] a = a
notify owner allocated freed a =
    if a.observed then record a { events = a.events ++ event ∷ [] } else a
  where
    event : BlockPoolEvent
    event = record {
      owner = owner;
      allocated = allocated;
      freed = freed;
      num_used = num_used a;
      num_free = num_free a;
    }

-- The assignments of a loop that sets the refcount of each block to one.
unfoldable pub claim : List ℕ → List ℕ → List ℕ
claim [] refs = refs
claim (block ∷ blocks) refs = claim blocks (set refs block 1)

-- `self._free[-count:]`, and the allocator without these blocks.
abbrev pub top_blocks : ℕ → Allocator → List ℕ
top_blocks count a = drop (length a.free_list - count) a.free_list

unfoldable pub without_top : ℕ → Allocator → Allocator
unfolding claim
without_top count a = record a {
  free_list = take (length a.free_list - count) a.free_list;
  refcounts = claim (top_blocks count a) a.refcounts;
}

-- `allocate` after the eviction step.
unfoldable pub hand_out : ℕ → Option String → Allocator → Outcome Allocator (List ℕ)
unfolding without_top notify
hand_out count owner a =
    let out = top_blocks count a in
    if ltb (length a.free_list) count
    then raise out_of_blocks a
    else ok out (notify owner out [] (without_top count a))

pub data Action : Type 0 where
  retaining freeing : Action

abbrev dead : Action → Error
dead retaining = dead_block
dead freeing = double_free

-- The loop of `_validate_live_blocks`; `seen` is its set.
unfoldable pub validate : Action → Allocator → List ℕ → List ℕ → Option Error
validate action a seen [] = none
validate action a seen (block ∷ blocks) =
    let rest = validate action a (block ∷ seen) blocks in
    if ltb block a.num_blocks
    then if rc a block == 0
      then some (dead action)
      else if member block seen
      then some duplicate_block
      else rest
    else some out_of_range

unfoldable pub increment : List ℕ → List ℕ → List ℕ
increment [] refs = refs
increment (block ∷ blocks) refs = increment blocks (set refs block (get_or refs block 0 + 1))

unfoldable pub retain : List ℕ → Allocator → Outcome Allocator (Unit {0})
unfolding validate increment
retain blocks a = elim (validate retaining a [] blocks) [
  | some e ↦ raise e a
  | none ↦ ok tt (record a { refcounts = increment blocks a.refcounts })
]

-- One round of the loop of `free`, on the allocator and the blocks returned so far.
unfoldable pub drop_reference : ℕ → Allocator × List ℕ → Allocator × List ℕ
drop_reference block (a, returned) =
    if left == 0
    then (
      record a { refcounts = refs; free_list = a.free_list ++ block ∷ [] },
      returned ++ block ∷ [],
    )
    else (record a { refcounts = refs }, returned)
  where
    left : ℕ
    left = rc a block - 1

    refs : List ℕ
    refs = set a.refcounts block left

unfoldable pub drop_references : List ℕ → Allocator × List ℕ → Allocator × List ℕ
drop_references [] s = s
drop_references (block ∷ blocks) s = drop_references blocks (drop_reference block s)

unfoldable pub free : List ℕ → Option String → Allocator → Outcome Allocator (Unit {0})
unfolding validate drop_references drop_reference notify
free blocks owner a = elim (validate freeing a [] blocks) [
  | some e ↦ raise e a
  | none ↦
      let (a', returned) = drop_references blocks (a, []) in ok tt (notify owner [] returned a')
]
