-- ===== src/Serving/Engine/Preemption/Growth.antt =====
-- `_blocks_to_grow` never raises for a running request.
use llm_infer.Prelude.{
  ℕ, ◌+◌, ◌-◌, ◌/◌, ◌≤◌, ◌<◌, min, ◌≡◌, refl, ap, inl, inr, Bool-cases, Option, none, some, List,
  [], ◌∷◌, Elem, arith, ltb, lt→ltb, take, drop, length, count, count-take-drop, owned,
  owned-append, if◌then◌else◌, ok,
}
use llm_infer.KvCache.Allocator.{Allocator, rc, refcount}
use llm_infer.KvCache.Allocator.Laws.{rc_in_pool}
use llm_infer.KvCache.PrefixCache.Validity.{blocks_of}
use llm_infer.KvCache.Pool.Budget.{cached}
use llm_infer.KvCache.BlockTable.{BlockTable, ceil_div}
use llm_infer.KvCache.Paged.{count_shared, append_cost}
use llm_infer.Serving.Request.{Request}
use llm_infer.Serving.Engine.{Engine}
use llm_infer.Serving.Engine.Preemption.{blocks_to_grow}
use llm_infer.Serving.Engine.Preemption.Validity.{EngineIsValid, blocks_held, tables_of}

abbrev pub InPool : Allocator → List ℕ → Type 0
InPool a blocks = (b : ℕ) → 0 < count b blocks → b < a.num_blocks

refcount_lem : (a : Allocator) (b : ℕ) → b < a.num_blocks → refcount a b ≡ ok (rc a b) a
unfolding refcount
refcount_lem a b h = rw (lt→ltb b a.num_blocks h, refcount) refl

count_shared-ok :
    (blocks : List ℕ) (a : Allocator) → InPool a blocks → (n : ℕ) × (count_shared blocks a ≡ ok n a)
unfolding count_shared
count_shared-ok [] a h = (0, refl)
count_shared-ok (b ∷ blocks) a h =
    let (n, rest) = count_shared-ok blocks a (λ c k. h c (ground (arith))) in
    (
      (if ltb 1 (rc a b) then 1 else 0) + n,
      rw (refcount_lem a b (h b (ground arith)), count_shared, rest) refl,
    )

-- The blocks between two indices are blocks of the list.
InPool-between :
    (a : Allocator) (blocks : List ℕ) (n m : ℕ)
    → InPool a blocks
    → InPool a (drop n (take m blocks))
InPool-between a blocks n m h b k =
    h b (omega (arith, count-take-drop b m blocks, count-take-drop b n (take m blocks)))

pub append_cost-ok :
    (t : BlockTable) (n : ℕ) (a : Allocator)
    → InPool a t.blocks
    → (need : ℕ) × (append_cost t n a ≡ ok need a)
unfolding append_cost
append_cost-ok t n a h =
    let first = t.filled / t.block_size in
    let last = min ((t.filled + n - 1) / t.block_size + 1) (length t.blocks) in
    let (cow, run) =
      count_shared-ok (drop first (take last t.blocks)) a
        (InPool-between a t.blocks first last h) in
    elim (Bool-cases (ltb n 1)) [
      | inl nothing ↦ (0, rw (nothing, append_cost) refl)
      | inr more ↦ (
        ceil_div (t.filled + n) t.block_size - length t.blocks + cow,
        rw (more, append_cost, run) refl,
      )
    ]

owned-running :
    (b : ℕ) (r : Request) (rs : List Request)
    → Elem r rs
    → count b (blocks_held r.block_table) ≤ owned b (tables_of rs)
owned-running b r [] i = absurd i
owned-running b r (q ∷ rs) (inl same) =
    omega (arith, ap (λ (x : Request). count b (blocks_held x.block_table)) same)
owned-running b r (q ∷ rs) (inr i) = omega (arith, owned-running b r rs i)

pub held-InPool :
    (e : Engine) (r : Request)
    → EngineIsValid e
    → Elem r e.scheduler.running
    → InPool e.pool.allocator (blocks_held r.block_table)
held-InPool e r h i b k =
    let kept = blocks_of (cached e.pool.prefix_cache) in
    rc_in_pool e.pool.allocator b h.books.accounts.valid (
      omega (
        arith,
        h.books.accounts.held b,
        owned-append b kept (tables_of e.scheduler.running),
        owned-running b r e.scheduler.running i,
      ))

grow_at :
    (r : Request) (o : Option BlockTable) (n : ℕ) (e : Engine)
    → InPool e.pool.allocator (blocks_held o)
    → (need : ℕ) × (blocks_to_grow (record r { block_table = o }) n e ≡ ok need e)
unfolding blocks_to_grow
grow_at r none n e h = (ceil_div n e.scheduler.block_size, refl)
grow_at r (some t) n e h =
    let (need, run) = append_cost-ok t n e.pool.allocator h in (need, rw (run, blocks_to_grow) refl)

pub blocks_to_grow-ok :
    (e : Engine) (r : Request) (n : ℕ)
    → EngineIsValid e
    → Elem r e.scheduler.running
    → (need : ℕ) × (blocks_to_grow r n e ≡ ok need e)
blocks_to_grow-ok e r n h i = grow_at r r.block_table n e (held-InPool e r h i)
