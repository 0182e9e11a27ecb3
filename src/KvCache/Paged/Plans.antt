-- ===== src/KvCache/Paged/Plans.antt =====
-- The read plans of llm_infer/kv_cache/paged_kv_cache.py for a batch: packed slots, and the page table that a
-- native paged kernel reads. A plan's host copies are the lists themselves and are left out.
pub mod PageRows
pub mod Int32
pub mod PageTable
pub mod Packed
use llm_infer.Prelude.{
  ℕ, ◌+◌, ◌-◌, ◌%◌, Bool, true, false, not, ◌&&◌, ◌||◌, Option, none, some, List, [], ◌∷◌, ◌++◌,
  ltb, ◌==◌, if◌then◌else◌, length, take, bad_count, bad_position, batch_mismatch, unsupported,
  overflow, Outcome, ok, raise,
}
use llm_infer.KvCache.BlockTable.{BlockTable, ceil_div, physical_slots}
use llm_infer.KvCache.Paged.{Pages, read_slots}

pub record KvPagePlan : Type 0 where
  pub indptr : List ℕ
  pub indices : List ℕ
  pub last_page_len : List ℕ
  pub page_size : ℕ

pub record KvReadPlan : Type 0 where
  pub idx : Option (List ℕ)
  pub cu_seqlens : Option (List ℕ)
  pub lengths : List ℕ
  pub max_len : ℕ
  pub page_plan : Option KvPagePlan

-- `any(length < 1 for length in lengths)`
abbrev pub some_empty : List ℕ → Bool
some_empty [] = false
some_empty (n ∷ ns) = ltb n 1 || some_empty ns

-- `max(lengths)`, of lengths that are there.
abbrev pub max_of : List ℕ → ℕ
max_of [] = 0
max_of (n ∷ ns) = let rest = max_of ns in if ltb n rest then rest else n

-- The pages of one request and what the requests after it have.
abbrev pub with_pages : ℕ → ℕ → List ℕ → Option KvPagePlan → Option KvPagePlan
with_pages last len pages none = none
with_pages last len pages (some plan) = some (record {
  indptr = last ∷ plan.indptr;
  indices = pages ++ plan.indices;
  last_page_len = len ∷ plan.last_page_len;
  page_size = plan.page_size;
})

-- The loop of `plan_pages`, from the last entry of `indptr_host`; `none` is the ValueError of a table
-- with too few blocks. The entry itself stands first in the result.
unfoldable pub page_rows : ℕ → ℕ → List BlockTable → List ℕ → Option KvPagePlan
page_rows size last [] ns =
    some (record { indptr = last ∷ []; indices = []; last_page_len = []; page_size = size })
page_rows size last (t ∷ ts) [] =
    some (record { indptr = last ∷ []; indices = []; last_page_len = []; page_size = size })
page_rows size last (t ∷ ts) (n ∷ ns) =
    let page_count = ceil_div n size in
    let rest = page_rows size (last + page_count) ts ns in
    if ltb (length t.blocks) page_count
    then none
    else with_pages last ((n - 1) % size + 1) (take page_count t.blocks) rest

-- Whether a list fits in a tensor of 32-bit integers; its numbers are not negative.
abbrev pub all_int32 : List ℕ → Bool
all_int32 [] = true
all_int32 (n ∷ ns) = ltb n 0x8000_0000 && all_int32 ns

-- The three lists become tensors.
abbrev pub fits_int32 : KvPagePlan → Bool
fits_int32 plan = all_int32 plan.indptr && (all_int32 plan.last_page_len && all_int32 plan.indices)

abbrev pub planned : Option KvPagePlan → Outcome (Unit {0}) KvPagePlan
planned none = raise bad_position tt
planned (some plan) = if fits_int32 plan then ok plan tt else raise overflow tt

unfoldable pub plan_pages : ℕ → List BlockTable → List ℕ → Outcome (Unit {0}) KvPagePlan
unfolding page_rows
plan_pages size ts ns =
    if not (length ts == length ns)
    then raise batch_mismatch tt
    else if length ts == 0
    then raise bad_count tt
    else if some_empty ns
    then raise bad_count tt
    else planned (page_rows size 0 ts ns)

abbrev pub joined : Option (List ℕ) → Option (List ℕ) → Option (List ℕ)
joined (some xs) (some ys) = some (xs ++ ys)
joined (some xs) none = none
joined none ys = none

-- `slots`; `none` is the ValueError of a position out of range.
unfoldable pub packed_slots : List BlockTable → List ℕ → Option (List ℕ)
unfolding physical_slots
packed_slots [] ns = some []
packed_slots (t ∷ ts) [] = some []
packed_slots (t ∷ ts) (n ∷ ns) = joined (physical_slots t 0 n) (packed_slots ts ns)

-- `cumsum`, from a sum so far.
abbrev pub cumsum : ℕ → List ℕ → List ℕ
cumsum sum [] = []
cumsum sum (n ∷ ns) = (sum + n) ∷ cumsum (sum + n) ns

-- The sums are assigned to 32-bit integers, of which the bits are kept here.
abbrev pub wrapped : List ℕ → List ℕ
wrapped [] = []
wrapped (n ∷ ns) = (n % 0x1_0000_0000) ∷ wrapped ns

abbrev pub read_plan : List ℕ → Option (List ℕ) → Option KvPagePlan → KvReadPlan
read_plan ns idx pages = record {
  idx = idx;
  cu_seqlens = elim idx [ none ↦ none | some slots ↦ some (0 ∷ wrapped (cumsum 0 ns)) ];
  lengths = ns;
  max_len = max_of ns;
  page_plan = pages;
}

-- The page plan, if it is asked for.
abbrev pub paged :
    Bool → ℕ → List BlockTable → List ℕ → Option (List ℕ) → Outcome (Unit {0}) KvReadPlan
paged false size ts ns idx = ok (read_plan ns idx none) tt
paged true size ts ns idx = elim (plan_pages size ts ns) [
  | ok plan _ ↦ ok (read_plan ns idx (some plan)) tt
  | raise e _ ↦ raise e tt
]

abbrev pub packed : Bool → Bool → ℕ → List BlockTable → List ℕ → Outcome (Unit {0}) KvReadPlan
packed pages false size ts ns = paged pages size ts ns none
packed pages true size ts ns = elim (packed_slots ts ns) [
  | none ↦ raise bad_position tt
  | some slots ↦ if all_int32 ns then paged pages size ts ns (some slots) else raise overflow tt
]

unfoldable pub plan_read_many :
    ℕ → List BlockTable → List ℕ → Bool → Bool → Outcome (Unit {0}) KvReadPlan
unfolding plan_pages packed_slots
plan_read_many size ts ns include_pages include_packed =
    if not (length ts == length ns)
    then raise batch_mismatch tt
    else if length ts == 0
    then raise bad_count tt
    else if some_empty ns
    then raise bad_count tt
    else if not include_pages && not include_packed
    then raise unsupported tt
    else packed include_pages include_packed size ts ns

-- `none` is the ValueError of a plan without packed slots.
unfoldable pub read_many_plan : {R : Type 0} → ℕ → ℕ → KvReadPlan → Pages R → Option (List R)
read_many_plan size layer plan kv = elim plan.idx [
  | none ↦ none
  | some slots ↦ some (read_slots size layer slots kv)
]
