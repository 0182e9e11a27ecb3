-- ===== src/KvCache/Allocator/Laws.antt =====
-- The allocator's operations keep the books: refcounts against the tables that hold the blocks.
use llm_infer.Prelude.{
  ℕ, ◌+◌, ◌-◌, ◌<◌, ◌≤◌, ◌≡◌, refl, String, Bool, Option, List, [], ◌∷◌, arith, ltb, ◌==◌,
  if◌then◌else◌, length, tally, count, owned, count-take-drop, length-drop, length-take,
  count-range, length-replicate, get_or-replicate, length-range, get_or_beyond, ◌∙◌, sum_below,
  sum_below_eq, sum_below_add, sum_below_one, length-sum_counts, Option-cases, inl, inr, Error, ok,
  raise,
}
use llm_infer.KvCache.Allocator.{
  Allocator, rc, fresh_pool, num_free, num_used, init, notify, increment, top_blocks, without_top,
  hand_out, retain, free, validate, retaining, freeing, drop_references,
}
use llm_infer.KvCache.Allocator.Validity.{
  IsValid, Accounts, Acceptable, validate-Acceptable, Acceptable-validate,
}
use llm_infer.KvCache.Allocator.Loops.{
  length-claim, get_or-claim, length-increment, get_or-increment, Dropped, drop_references-Dropped,
}

pub fresh_pool-Accounts : (n : ℕ) (observed : Bool) → Accounts (fresh_pool n observed) []
fresh_pool-Accounts n observed = record {
  valid = record {
    sized = length-replicate n 0;
    exact = λ b. ground (arith, count-range b 0 n, get_or-replicate {A = ℕ} n b 0);
  };
  held = λ b. get_or-replicate {A = ℕ} n b 0;
}

-- A pool of positive size starts with every block free and none held.
pub init-Accounts :
    (n : ℕ) (observed : Bool)
    → 0 < n
    → (a : Allocator) × (init n observed ≡ ok a tt) × Accounts a [] × (num_free a ≡ n)
unfolding init
init-Accounts n observed h =
    (fresh_pool n observed, ground arith, fresh_pool-Accounts n observed, length-range 0 n)

-- A held block is in the pool.
pub rc_in_pool : (a : Allocator) (b : ℕ) → IsValid a → 0 < rc a b → b < a.num_blocks
rc_in_pool a b v h = ground (arith, v.sized, get_or_beyond a.refcounts b 0)

notify_keeps :
    (owner : Option String) (out freed : List ℕ) (a : Allocator)
    → let a' = notify owner out freed a in
      (a'.num_blocks ≡ a.num_blocks) × (a'.free_list ≡ a.free_list) × (a'.refcounts ≡ a.refcounts)
unfolding notify
notify_keeps owner [] [] a = (refl, refl, refl)
notify_keeps owner out freed a = ground arith

-- The counters: the free list has one entry for each block that nobody holds.
pub num_free-eq :
    (a : Allocator) → IsValid a → num_free a ≡ sum_below a.num_blocks (λ b. tally (rc a b == 0))
num_free-eq a v =
    length-sum_counts a.num_blocks a.free_list (λ b h. ground (arith, v.exact b))
    ∙ sum_below_eq a.num_blocks _ _ (λ b h. ground (arith, v.exact b))

-- On a valid allocator `num_used` counts the blocks that somebody holds.
pub num_used-eq :
    (a : Allocator) → IsValid a → num_used a ≡ sum_below a.num_blocks (λ b. tally (ltb 0 (rc a b)))
num_used-eq a v = omega (
  arith,
  num_free-eq a v,
  sum_below_add a.num_blocks (λ b. tally (rc a b == 0)) (λ b. tally (ltb 0 (rc a b))) (λ _. 1)
      (λ b. ground arith),
  sum_below_one a.num_blocks,
)

Accounts-notify :
    (owner : Option String) (out freed : List ℕ) (a : Allocator) (tables : List (List ℕ))
    → Accounts a tables
    → Accounts (notify owner out freed a) tables
Accounts-notify owner out freed a tables ac =
    let k = notify_keeps owner out freed a in
    record {
      valid = record {
        sized = rw (k.0, k.2) ac.valid.sized;
        exact = λ b. rw (k.0, k.1, k.2) (ac.valid.exact b);
      };
      held = λ b. rw k.2 (ac.held b);
    }

-- The blocks on top of a well-formed free list are different, in the pool, and held by nobody.
top_blocks_fresh :
    (n : ℕ) (a : Allocator) (b : ℕ)
    → IsValid a
    → 0 < count b (top_blocks n a)
    → (count b (top_blocks n a) ≡ 1) × (rc a b ≡ 0) × (b < a.num_blocks)
top_blocks_fresh n a b v h =
    ground (arith, v.exact b, count-take-drop b (length a.free_list - n) a.free_list)

rc-without_top :
    (n : ℕ) (a : Allocator) (b : ℕ)
    → IsValid a
    → rc (without_top n a) b ≡ (if ltb 0 (count b (top_blocks n a)) then 1 else rc a b)
unfolding without_top
rc-without_top n a b v =
    get_or-claim (top_blocks n a) a.refcounts b
      (λ x k. omega (arith, v.sized, (top_blocks_fresh n a x v k).2))

without_top-Accounts :
    (n : ℕ) (a : Allocator) (tables : List (List ℕ))
    → Accounts a tables
    → Accounts (without_top n a) (top_blocks n a ∷ tables)
unfolding without_top
without_top-Accounts n a tables ac =
    let fresh = λ (b : ℕ). top_blocks_fresh n a b ac.valid in
    record {
      valid = record {
        sized = length-claim (top_blocks n a) a.refcounts ∙ ac.valid.sized;
        exact = λ b. ground (
          arith,
          ac.valid.exact b,
          rc-without_top n a b ac.valid,
          fresh b,
          count-take-drop b (length a.free_list - n) a.free_list,
        );
      };
      held = λ b. ground (arith, ac.held b, rc-without_top n a b ac.valid, fresh b);
    }

module _ (a : Allocator) (tables : List (List ℕ)) (ac : Accounts a tables) where
  -- With exact refcounts `hand_out` of as many blocks as are free gives different blocks of the
  -- pool that nobody held, and the refcounts stay exact.
  pub hand_out-Accounts :
      (n : ℕ) (owner : Option String)
      → n ≤ num_free a
      → (out : List ℕ) × (a' : Allocator) × (hand_out n owner a ≡ ok out a')
        × (length out ≡ n)
        × Accounts a' (out ∷ tables)
        × (a'.num_blocks ≡ a.num_blocks)
        × (num_free a' + n ≡ num_free a)
        × ((b : ℕ)
            → 0 < count b out
            → (count b out ≡ 1) × (owned b tables ≡ 0) × (b < a.num_blocks))
  unfolding hand_out
  hand_out-Accounts n owner h = (
    out,
    a',
    ground arith,
    omega (arith, length-drop (length a.free_list - n) a.free_list),
    Accounts-notify owner out [] (without_top n a) (out ∷ tables)
        (without_top-Accounts n a tables ac),
    (notify_keeps owner out [] (without_top n a)).0 ∙ unfold without_top in refl,
    kept,
    λ b k. let f = top_blocks_fresh n a b ac.valid k in (f.0, omega (arith, f.1, ac.held b), f.2),
  )
    where
      out : List ℕ
      out = top_blocks n a

      a' : Allocator
      a' = notify owner out [] (without_top n a)

      kept : num_free a' + n ≡ num_free a
      kept =
          rw (notify_keeps owner out [] (without_top n a)).1
            (unfold without_top in omega (arith, length-take (length a.free_list - n) a.free_list))

  -- With exact refcounts `retain` of live, different blocks never raises, counts one owner more,
  -- and leaves the free list.
  pub retain-Accounts :
      (blocks : List ℕ)
      → Acceptable a blocks
      → (a' : Allocator) × (retain blocks a ≡ ok tt a')
        × Accounts a' (blocks ∷ tables)
        × (a'.free_list ≡ a.free_list)
  unfolding retain
  retain-Accounts blocks h = (
    a',
    rw (Acceptable-validate retaining a blocks h, retain),
    record {
      valid = record {
        sized = length-increment blocks a.refcounts ∙ ac.valid.sized;
        exact = λ b. ground (arith, ac.valid.exact b, more b, h b);
      };
      held = λ b. omega (arith, more b, ac.held b);
    },
    refl,
  )
    where
      a' : Allocator
      a' = record a { refcounts = increment blocks a.refcounts }

      more : (b : ℕ) → rc a' b ≡ rc a b + count b blocks
      more b = get_or-increment blocks a.refcounts b (λ x k. omega (arith, ac.valid.sized, h x k))

-- `retain` raises on blocks that are not all live, different blocks of the pool, and leaves the
-- allocator as it was.
pub retain_refuses :
    (a : Allocator) (blocks : List ℕ)
    → (¬ Acceptable a blocks)
    → (e : Error) × (retain blocks a ≡ raise e a)
unfolding retain
retain_refuses a blocks h = elim (Option-cases (validate retaining a [] blocks)) [
  | inl e ↦ absurd (h (validate-Acceptable retaining a blocks e))
  | inr (e, p) ↦ (e, rw (p, retain))
]

-- A table whose blocks are different can be freed.
pub free-Acceptable :
    (a : Allocator) (table : List ℕ) (tables : List (List ℕ))
    → Accounts a (table ∷ tables)
    → ((b : ℕ) → count b table ≤ 1)
    → Acceptable a table
free-Acceptable a table tables ac d b k =
    let held : 0 < rc a b = omega (arith, ac.held b) in
    (omega (arith, d b), rc_in_pool a b ac.valid held, held)

-- Freeing a table without repeated blocks never raises with exact refcounts; just the blocks that
-- nobody else holds return to the free list.
pub free-Accounts :
    (a : Allocator) (table : List ℕ) (tables : List (List ℕ)) (owner : Option String)
    → Accounts a (table ∷ tables)
    → ((b : ℕ) → count b table ≤ 1)
    → (a' : Allocator) × (free table owner a ≡ ok tt a')
      × Accounts a' tables
      × (a'.num_blocks ≡ a.num_blocks)
      × (num_free a ≤ num_free a')
      × ((b : ℕ)
          → count b a'.free_list
            ≡ count b a.free_list + (if owned b tables == 0 then count b table else 0))
unfolding free
free-Accounts a table tables owner ac d = (
  notify owner [] t.1 t.0,
  rw (Acceptable-validate freeing a table acceptable, free),
  Accounts-notify owner [] t.1 t.0 tables after,
  rw (notify_keeps owner [] t.1 t.0).0 dropped.same_pool,
  rw (notify_keeps owner [] t.1 t.0).1 (omega (arith, dropped.grown)),
  λ b. rw (notify_keeps owner [] t.1 t.0).1 (
      ground (
        arith,
        after.valid.exact b,
        ac.valid.exact b,
        after.held b,
        ac.held b,
        d b,
        acceptable b,
        dropped.same_pool,
      )),
)
  where
    acceptable : Acceptable a table
    acceptable = free-Acceptable a table tables ac d

    t : Allocator × List ℕ
    t = drop_references table (a, [])

    dropped : Dropped table (a, []) t
    dropped = drop_references-Dropped table a [] ac.valid (λ b k. omega (arith, acceptable b k))

    after : Accounts t.0 tables
    after = record { valid = dropped.valid; held = λ b. omega (arith, dropped.held b, ac.held b) }

-- `free` raises on blocks that are not all live, different blocks of the pool, and leaves the
-- allocator as it was.
pub free_refuses :
    (a : Allocator) (blocks : List ℕ) (owner : Option String)
    → (¬ Acceptable a blocks)
    → (e : Error) × (free blocks owner a ≡ raise e a)
unfolding free
free_refuses a blocks owner h = elim (Option-cases (validate freeing a [] blocks)) [
  | inl e ↦ absurd (h (validate-Acceptable freeing a blocks e))
  | inr (e, p) ↦ (e, rw (p, free))
]
