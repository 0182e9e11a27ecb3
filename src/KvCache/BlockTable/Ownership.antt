-- ===== src/KvCache/BlockTable/Ownership.antt =====
-- The methods of a block table on the books of the pool.
use native.Mathlib.Nat.{le_trans, mul-le-mul_right}
use mathlib.Core.List.{append-nil}
use llm_infer.Prelude.{
  ap, sym, ◌∙◌, take_of_length-le, ℕ, ◌+◌, ◌-◌, ◌*◌, ◌<◌, ◌≤◌, ◌≡◌, refl, inl, inr, List, [], ◌∷◌,
  ◌++◌, arith, ltb, ltb→lt, not-ltb→le, Bool-cases, length, length-append, length-take, take, drop,
  count, count-append, count-take-drop, owned, ok,
}
use llm_infer.KvCache.Allocator.{num_free}
use llm_infer.KvCache.Pool.{Pool}
use llm_infer.KvCache.Pool.Budget.{Books, live_blocks, allocate_within_budget}
use llm_infer.KvCache.Pool.Sharing.{Books-same, retain-Books, free-Books}
use llm_infer.KvCache.BlockTable.{
  BlockTable, Held, ceil_div, capacity, reserve, fork_shared, trim_to_length, release,
  retain_blocks, free_blocks,
}

-- A well-formed table: no block twice, and its blocks hold its tokens.
pub record TableIsValid (t : BlockTable) : Type 0 where
  pub sized : 0 < t.block_size
  pub distinct : (b : ℕ) → count b t.blocks ≤ 1
  pub fits : t.filled ≤ capacity t

pub ceil_div-fits : (n size : ℕ) → 0 < size → n ≤ ceil_div n size * size
ceil_div-fits n size h = grind arith

-- It is the least number of blocks that do.
pub ceil_div_least : (n size k : ℕ) → 0 < size → n ≤ k * size → ceil_div n size ≤ k
ceil_div_least n size k h f = grind arith

-- New blocks that no table holds can be appended to the list.
appended_distinct :
    (xs ys : List ℕ) (others : List (List ℕ)) (b : ℕ)
    → count b xs ≤ 1
    → (0 < count b ys → (count b ys ≡ 1) × (owned b (xs ∷ others) ≡ 0))
    → count b (xs ++ ys) ≤ 1
appended_distinct xs ys others b h f = grind (arith, count-append b xs ys)

module _ (t : BlockTable) (p : Pool) (others : List (List ℕ)) (v : TableIsValid t)
    (books : Books p (t.blocks ∷ others)) where
  -- With exact refcounts `reserve` on a valid table never raises within the pool's budget: it
  -- appends just the missing blocks, the table then has room for the tokens, and the refcounts stay
  -- exact.
  pub reserve-Books :
      (n : ℕ)
      → live_blocks p.allocator.num_blocks (t.blocks ∷ others)
          + (ceil_div (t.filled + n) t.block_size - length t.blocks)
        ≤ p.allocator.num_blocks
      → (h : Held) × (more : List ℕ) × (reserve n (record { table = t; pool = p }) ≡ ok tt h)
        × (h.table ≡ record t { blocks = t.blocks ++ more })
        × (length more ≡ ceil_div (t.filled + n) t.block_size - length t.blocks)
        × (t.filled + n ≤ capacity h.table)
        × TableIsValid h.table
        × Books h.pool (h.table.blocks ∷ others)
  unfolding reserve
  reserve-Books n room =
      let needed = ceil_div (t.filled + n) t.block_size in
      let fits = ceil_div-fits (t.filled + n) t.block_size v.sized in
      elim (Bool-cases (ltb (length t.blocks) needed)) [
        | inr enough ↦
            let le : needed ≤ length t.blocks = not-ltb→le _ _ enough in
            (
              record { table = t; pool = p },
              [],
              rw (enough, reserve),
              ap (λ (bs : List ℕ). record t { blocks = bs }) (sym (append-nil t.blocks)),
              omega arith,
              le_trans fits (mul-le-mul_right t.block_size le),
              v,
              books,
            )
        | inl short ↦
            let lt = ltb→lt _ _ short in
            let (out, p', got, len, books', fresh, _) =
              allocate_within_budget p (t.blocks ∷ others) (needed - length t.blocks) t.owner books
                (omega arith) room in
            let full : length (t.blocks ++ out) ≡ needed =
              omega (arith, length-append t.blocks out) in
            let more_room : t.filled + n ≤ length (t.blocks ++ out) * t.block_size = rw full fits in
            (
              record { table = record t { blocks = t.blocks ++ out }; pool = p' },
              out,
              rw (short, reserve, got),
              refl,
              len,
              more_room,
              record {
                sized = v.sized;
                distinct = λ b.
                    appended_distinct t.blocks out others b (v.distinct b)
                      (λ k. ((fresh b k).0, (fresh b k).1));
                fits = omega (arith, more_room);
              },
              Books-same (out ∷ t.blocks ∷ others) _
                  (λ b. omega (arith, count-append b t.blocks out)) books',
            )
      ]

  -- With exact refcounts a fork of a valid table never raises; the fork shares every block, the
  -- refcounts count one owner more, and no block leaves the pool.
  pub fork_shared-Books :
      (p' : Pool) × (fork_shared t p ≡ ok t p')
      × Books p' (t.blocks ∷ t.blocks ∷ others)
      × (num_free p'.allocator ≡ num_free p.allocator)
  unfolding fork_shared
  fork_shared-Books =
      let (p', run, books', same) = fork t.blocks v.distinct books in
      (p', rw (run, fork_shared), books', same)
    where
      fork :
          (blocks : List ℕ)
          → ((b : ℕ) → count b blocks ≤ 1)
          → Books p (blocks ∷ others)
          → (p' : Pool) × (retain_blocks blocks p ≡ ok tt p')
            × Books p' (blocks ∷ blocks ∷ others)
            × (num_free p'.allocator ≡ num_free p.allocator)
      fork [] d b = (p, refl, Books-same _ _ (λ x. omega arith) b, refl)
      fork (x ∷ blocks) d b = retain-Books p (x ∷ blocks) others b d

  -- With exact refcounts freeing a valid table never raises; the table is empty and its references
  -- are gone from the refcounts.
  pub release-Books :
      (h : Held) × (release (record { table = t; pool = p }) ≡ ok tt h)
      × (h.table ≡ record t { blocks = []; filled = 0 })
      × Books h.pool others
      × (num_free p.allocator ≤ num_free h.pool.allocator)
  unfolding release
  release-Books =
      let (p', run, books', grows) = free_all t.blocks v.distinct books in
      (
        record { table = record t { blocks = []; filled = 0 }; pool = p' },
        rw (run, release),
        refl,
        books',
        grows,
      )
    where
      free_all :
          (blocks : List ℕ)
          → ((b : ℕ) → count b blocks ≤ 1)
          → Books p (blocks ∷ others)
          → (p' : Pool) × (free_blocks blocks t.owner p ≡ ok tt p')
            × Books p' others
            × (num_free p.allocator ≤ num_free p'.allocator)
      free_all [] d b = (p, refl, Books-same _ _ (λ x. omega arith) b, omega arith)
      free_all (x ∷ blocks) d b =
          let (p', run, books', grows, _, _) = free-Books p (x ∷ blocks) others b d t.owner in
          (p', run, books', grows)

  -- With exact refcounts trimming a valid table never raises; it keeps the least number of leading
  -- blocks that hold the table's tokens, and the refcounts stay exact.
  pub trim_to_length-Books :
      (h : Held) × (trim_to_length (record { table = t; pool = p }) ≡ ok tt h)
      × (h.table ≡ record t { blocks = take (ceil_div t.filled t.block_size) t.blocks })
      × (length h.table.blocks ≡ ceil_div t.filled t.block_size)
      × TableIsValid h.table
      × Books h.pool (h.table.blocks ∷ others)
      × (num_free p.allocator ≤ num_free h.pool.allocator)
  unfolding trim_to_length
  trim_to_length-Books =
      let needed = ceil_div t.filled t.block_size in
      let least : needed ≤ length t.blocks =
        ceil_div_least t.filled t.block_size _ v.sized v.fits in
      let len : length (take needed t.blocks) ≡ needed =
        omega (arith, length-take needed t.blocks) in
      let part = λ (b : ℕ). count-take-drop b needed t.blocks in
      elim (Bool-cases (ltb needed (length t.blocks))) [
        | inr all ↦
            let whole : take needed t.blocks ≡ t.blocks =
              take_of_length-le needed t.blocks (not-ltb→le _ _ all) in
            (
              record { table = t; pool = p },
              rw (all, trim_to_length),
              ap (λ (bs : List ℕ). record t { blocks = bs }) (sym whole),
              ap length (sym whole) ∙ len,
              v,
              books,
              omega arith,
            )
        | inl some_left ↦
            let (p', run, books', grows, _, _) =
              free-Books p (drop needed t.blocks) (take needed t.blocks ∷ others)
                (Books-same (t.blocks ∷ others) _ (λ b. omega (arith, part b)) books)
                (λ b. omega (arith, part b, v.distinct b)) t.owner in
            (
              record { table = record t { blocks = take needed t.blocks }; pool = p' },
              rw (some_left, trim_to_length, run),
              refl,
              len,
              record {
                sized = v.sized;
                distinct = λ b. omega (arith, part b, v.distinct b);
                fits = rw len (ceil_div-fits t.filled t.block_size v.sized);
              },
              books',
              grows,
            )
      ]
