-- ===== src/Serving/Budget.antt =====
-- The budget that admission reserves (llm_infer/scheduler/scheduler.py, `max_blocks_for`) against the pool
-- that the running requests' tables draw from.
use native.Mathlib.Nat.{le_trans}
use llm_infer.Prelude.{
  ℕ, ◌+◌, ◌-◌, ◌≤◌, ◌≡◌, refl, ap, List, [], ◌∷◌, arith, ltb, ◌==◌, length, tally, count, owned,
  sum_below, sum_below_add, sum_below_le, sum_below_point, sum_below_zero, length-append, ok,
}
use llm_infer.KvCache.Pool.{Pool}
use llm_infer.KvCache.Pool.Budget.{Books, live_blocks}
use llm_infer.KvCache.BlockTable.{BlockTable, Held, capacity, ceil_div, reserve}
use llm_infer.KvCache.BlockTable.Ownership.{
  TableIsValid, ceil_div_least, ceil_div-fits, reserve-Books,
}
use llm_infer.Serving.Request.{Request}
use llm_infer.Scheduler.{max_blocks_for}
use llm_infer.Scheduler.Admission.{total}

abbrev pub lengths : List (List ℕ) → ℕ
lengths [] = 0
lengths (t ∷ ts) = length t + lengths ts

sum-count : (m : ℕ) (xs : List ℕ) → sum_below m (λ b. count b xs) ≤ length xs
sum-count m [] = omega (arith, sum_below_zero m)
sum-count m (x ∷ xs) = ground (
  arith,
  sum_below_add m (λ b. tally (x == b)) (λ b. count b xs) (λ b. count b (x ∷ xs)) (λ i. refl),
  sum_below_point m x,
  sum-count m xs,
)

sum-owned : (m : ℕ) (tables : List (List ℕ)) → sum_below m (λ b. owned b tables) ≤ lengths tables
sum-owned m [] = omega (arith, sum_below_zero m)
sum-owned m (t ∷ tables) = omega (
  arith,
  sum_below_add m (λ b. count b t) (λ b. owned b tables) (λ b. owned b (t ∷ tables)) (λ i. refl),
  sum-count m t,
  sum-owned m tables,
)

pub live_blocks-le : (m : ℕ) (tables : List (List ℕ)) → live_blocks m tables ≤ lengths tables
live_blocks-le m tables = omega (
  arith,
  sum_below_le m (λ b. tally (ltb 0 (owned b tables))) (λ b. owned b tables) (λ b. ground arith),
  sum-owned m tables,
)

-- Each table is within the worst case of its request.
abbrev pub Within : ℕ → List Request → List (List ℕ) → Type 0
Within size [] [] = Unit {0}
Within size (r ∷ rs) (t ∷ ts) = (length t ≤ max_blocks_for size r) × Within size rs ts
Within size [] (t ∷ ts) = ⊥
Within size (r ∷ rs) [] = ⊥

lengths-le :
    (size : ℕ) (rs : List Request) (ts : List (List ℕ))
    → Within size rs ts
    → lengths ts ≤ total (max_blocks_for size) rs
lengths-le size [] [] w = omega arith
lengths-le size (r ∷ rs) (t ∷ ts) (fits, w) = omega (arith, fits, lengths-le size rs ts w)
lengths-le size [] (t ∷ ts) w = absurd w
lengths-le size (r ∷ rs) [] w = absurd w

-- With exact refcounts, when the worst cases of the running requests together fit in the pool and
-- each table is within the worst case of its request, growing a valid table up to its request's
-- prompt and new tokens, less one, never raises, whatever the prefix cache holds; it leaves a valid
-- table with room for the tokens, exact refcounts, and each table within its worst case.
pub reserve_admitted :
    (r : Request) (peers : List Request) (t : BlockTable) (p : Pool) (others : List (List ℕ))
    (n : ℕ)
    → TableIsValid t
    → Books p (t.blocks ∷ others)
    → total (max_blocks_for t.block_size) (r ∷ peers) ≤ p.allocator.num_blocks
    → Within t.block_size (r ∷ peers) (t.blocks ∷ others)
    → t.filled + n ≤ length r.prompt_ids + r.max_new_tokens - 1
    → (h : Held) × (reserve n (record { table = t; pool = p }) ≡ ok tt h)
      × (t.filled + n ≤ capacity h.table)
      × TableIsValid h.table
      × Books h.pool (h.table.blocks ∷ others)
      × Within t.block_size (r ∷ peers) (h.table.blocks ∷ others)
reserve_admitted r peers t p others n v books admitted (mine, theirs) fits =
    let size = t.block_size in
    let most = length r.prompt_ids + r.max_new_tokens - 1 in
    let enough = ceil_div-fits most size v.sized in
    let needed : ceil_div (t.filled + n) size ≤ max_blocks_for size r =
      ceil_div_least (t.filled + n) size (ceil_div most size) v.sized (le_trans fits enough) in
    let live = live_blocks-le p.allocator.num_blocks (t.blocks ∷ others) in
    let rest = lengths-le size peers others theirs in
    let (h, more, run, table, grown, holds, valid, kept) =
      reserve-Books t p others v books n (omega (arith, live, rest, needed, mine, admitted)) in
    let blocks = ap (λ (u : BlockTable). length u.blocks) table in
    (
      h,
      run,
      holds,
      valid,
      kept,
      (omega (arith, blocks, grown, needed, mine, length-append t.blocks more), theirs),
    )
