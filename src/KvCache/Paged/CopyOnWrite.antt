-- ===== src/KvCache/Paged/CopyOnWrite.antt =====
-- `prepare_write`: after it the blocks of the write are private, and nothing that a table reads has
-- changed.
use llm_infer.Prelude.{
  ℕ, zero, suc, ◌+◌, ◌*◌, ◌<◌, ◌≤◌, ◌≡◌, refl, ap, ◌∙◌, lt→ltb, ◌≢◌, inl, inr, true, false, List,
  [], ◌∷◌, arith, ltb, ◌==◌, Bool-cases, length, get_or, set, length-set, get_or-set_self,
  get_or-set_ne, count, tally, owned, owned-append, sum_below_le, sum_below_point, ==_iff,
  sum_below_add, sym, ok,
}
use llm_infer.KvCache.Allocator.{rc, refcount}
use llm_infer.KvCache.Allocator.Laws.{rc_in_pool}
use llm_infer.KvCache.PrefixCache.Validity.{blocks_of}
use llm_infer.KvCache.Pool.{Pool, allocate}
use llm_infer.KvCache.Pool.Budget.{Books, cached, live_blocks, allocate_within_budget}
use llm_infer.KvCache.Pool.Sharing.{Books-same, free-Books}
use llm_infer.KvCache.BlockTable.Slots.{get_or-count}
use llm_infer.KvCache.BlockTable.Ownership.{TableIsValid}
use llm_infer.KvCache.Paged.{Cache, copy_block, replaced, prepare_block, prepare_blocks}

-- A list with one element replaced, counted.
count-set :
    (xs : List ℕ) (i v b : ℕ)
    → i < length xs
    → count b (set xs i v) + tally (get_or xs i 0 == b) ≡ count b xs + tally (v == b)
count-set [] i v b h = absurd (omega arith)
count-set (x ∷ xs) zero v b h = omega arith
count-set (x ∷ xs) (suc i) v b h = omega (arith, count-set xs i v b (omega arith))

singleton : (xs : List ℕ) → length xs ≡ 1 → xs ≡ get_or xs 0 0 ∷ []
singleton [] h = absurd (omega arith)
singleton (x ∷ []) h = refl
singleton (x ∷ y ∷ xs) h = absurd (omega arith)

==-refl : (a : ℕ) → (a == a) ≡ true
==-refl a = ground arith

==-ne : (a b : ℕ) → (a == b) ≡ false → a ≢ b
==-ne a b h = ground arith

live-set :
    (others : List (List ℕ)) (n new index : ℕ) (blocks : List ℕ)
    → index < length blocks
    → live_blocks n (set blocks index new ∷ others) ≤ live_blocks n (blocks ∷ others) + 1
live-set others n new index blocks h =
    let before = λ (b : ℕ). tally (ltb 0 (owned b (blocks ∷ others))) in
    let after = λ (b : ℕ). tally (ltb 0 (owned b (set blocks index new ∷ others))) in
    let grown =
      sum_below_le n after (λ b. before b + tally (new == b))
        (λ b. ground (arith, count-set blocks index new b h)) in
    let apart =
      sum_below_add n before (λ b. tally (new == b)) (λ b. before b + tally (new == b))
        (λ b. refl) in
    let one : tally (ltb new n) ≤ 1 = ground arith in
    omega (arith, grown, apart, one, sum_below_point n new)

module _ {R : Type 0} (others : List (List ℕ)) where
  -- The invariant of the loop, against the state before it.
  pub record Prepared (c d : Cache R) : Type 0 where
    pub valid : TableIsValid d.table
    pub same_length : length d.table.blocks ≡ length c.table.blocks
    pub same_size : d.table.block_size ≡ c.table.block_size
    pub same_filled : d.table.filled ≡ c.table.filled
    pub same_pool : d.pool.allocator.num_blocks ≡ c.pool.allocator.num_blocks
    pub books : Books d.pool (d.table.blocks ∷ others)
    -- The table reads what it read before, and so do the other tables.
    pub mine :
        (l i o : ℕ)
        → i < length c.table.blocks
        → d.kv l (get_or d.table.blocks i 0) o ≡ c.kv l (get_or c.table.blocks i 0) o
    pub theirs : (l b o : ℕ) → 0 < owned b others → d.kv l b o ≡ c.kv l b o

  abbrev pub live : Cache R → ℕ
  live c = live_blocks c.pool.allocator.num_blocks (c.table.blocks ∷ others)

  -- The state after the copy: the block at `index` is `new`, the rest is as before.
  copied-Prepared :
      (c : Cache R) (p : Pool) (index new : ℕ)
      → TableIsValid c.table
      → index < length c.table.blocks
      → count new c.table.blocks ≡ 0
      → owned new others ≡ 0
      → p.allocator.num_blocks ≡ c.pool.allocator.num_blocks
      → Books p (set c.table.blocks index new ∷ others)
      → Prepared c (record {
        kv = copy_block (get_or c.table.blocks index 0) new c.kv;
        table = record (c.table) { blocks = set c.table.blocks index new };
        pool = p;
      })
  copied-Prepared c p index new v h fresh foreign pool books = record {
    valid = record {
      sized = v.sized;
      distinct = λ b. ground (arith, v.distinct b, count-set c.table.blocks index new b h);
      fits = rw (length-set c.table.blocks index new) v.fits;
    };
    same_length = length-set c.table.blocks index new;
    same_size = refl;
    same_filled = refl;
    same_pool = pool;
    books = books;
    mine = λ l i o k. elim (Bool-cases (i == index)) [
      | inl same ↦
          let e = (==_iff i index).0 same in
          rw (e, get_or-set_self c.table.blocks index new 0 h, ==-refl new)
      | inr other ↦
          let ne = λ (e : index ≡ i). ==-ne i index other (sym e) in
          let kept = get_or-set_ne c.table.blocks index i new 0 ne in
          let old : (get_or c.table.blocks i 0 == new) ≡ false =
            ground (arith, get_or-count c.table.blocks i k) in
          rw (kept, old)
    ];
    theirs = λ l b o k. let old : (b == new) ≡ false = ground arith in rw old;
  }

  -- The round of the loop at `index` ended in `d`: the loop's invariant, a block that no other table
  -- holds, and a budget that paid for at most one block.
  pub record Rounded (c d : Cache R) (index : ℕ) : Type 0 where
    pub prepared : Prepared c d
    pub private : owned (get_or d.table.blocks index 0) others ≡ 0
    pub kept : (i : ℕ) → i ≢ index → get_or d.table.blocks i 0 ≡ get_or c.table.blocks i 0
    pub paid : live d ≤ live c + 1

  -- A round that finds a shared block in the middle of an append copies it.
  copies :
      (index : ℕ) (c : Cache R)
      → TableIsValid c.table
      → Books c.pool (c.table.blocks ∷ others)
      → index < length c.table.blocks
      → live c + 1 ≤ c.pool.allocator.num_blocks
      → (d : Cache R) × (replaced index
            (get_or c.table.blocks index 0)
            c
            (allocate 1 c.table.owner c.pool)
          ≡ ok tt d)
        × Rounded c d index
  copies index c v books h room =
      let block = get_or c.table.blocks index 0 in
      let (out, p, got, len, books₁, fresh, pool₁) =
        allocate_within_budget c.pool (c.table.blocks ∷ others) 1 c.table.owner books (omega arith)
          room in
      let new = get_or out 0 0 in
      let single = singleton out len in
      let f = fresh new (rw single (ground arith)) in
      let blocks = set c.table.blocks index new in
      let (p', freed, books₂, _, pool₂, _) =
        free-Books p (block ∷ []) (blocks ∷ others)
          (Books-same (out ∷ c.table.blocks ∷ others) _
            (λ b. omega (arith, count-set c.table.blocks index new b h, ap (count b) single))
            books₁)
          (λ b. ground arith) c.table.owner in
      let d : Cache R = record {
        kv = copy_block block new c.kv;
        table = record (c.table) { blocks = blocks };
        pool = p';
      } in
      let pool : p'.allocator.num_blocks ≡ c.pool.allocator.num_blocks = omega arith in
      let one_more : live d ≤ live c + 1 = rw pool (live-set others _ new index c.table.blocks h) in
      (
        d,
        rw (got, replaced, freed),
        record {
          prepared =
              copied-Prepared c p' index new v h (omega (arith, f.1)) (omega (arith, f.1)) pool
                books₂;
          private = rw (get_or-set_self c.table.blocks index new 0 h) (omega (arith, f.1));
          kept = λ i ne. get_or-set_ne c.table.blocks index i new 0 (λ e. ne (sym e));
          paid = one_more;
        },
      )

  pub Prepared-refl :
      (c : Cache R) → TableIsValid c.table → Books c.pool (c.table.blocks ∷ others) → Prepared c c
  Prepared-refl c v books = record {
    valid = v;
    same_length = refl;
    same_size = refl;
    same_filled = refl;
    same_pool = refl;
    books = books;
    mine = λ l i o k. refl;
    theirs = λ l b o k. refl;
  }

  -- A round that finds a private block changes nothing.
  same_round :
      (c : Cache R) (index : ℕ)
      → TableIsValid c.table
      → Books c.pool (c.table.blocks ∷ others)
      → index < length c.table.blocks
      → rc c.pool.allocator (get_or c.table.blocks index 0) ≡ 1
      → Rounded c c index
  same_round c index v books h one =
      let block = get_or c.table.blocks index 0 in
      let kept = blocks_of (cached c.pool.prefix_cache) in
      record {
        prepared = Prepared-refl c v books;
        private = omega (
          arith,
          books.accounts.held block,
          owned-append block kept (c.table.blocks ∷ others),
          get_or-count c.table.blocks index h,
        );
        kept = λ i ne. refl;
        paid = omega arith;
      }

  refcount-ok :
      (c : Cache R) (index : ℕ)
      → Books c.pool (c.table.blocks ∷ others)
      → index < length c.table.blocks
      → let block = get_or c.table.blocks index 0 in
        refcount c.pool.allocator block ≡ ok (rc c.pool.allocator block) c.pool.allocator
  unfolding refcount
  refcount-ok c index books h =
      let block = get_or c.table.blocks index 0 in
      let kept = blocks_of (cached c.pool.prefix_cache) in
      let held : 0 < rc c.pool.allocator block = omega (
        arith,
        books.accounts.held block,
        owned-append block kept (c.table.blocks ∷ others),
        get_or-count c.table.blocks index h,
      ) in
      rw (lt→ltb _ _ (rc_in_pool c.pool.allocator block books.accounts.valid held))

  private_round :
      (start index : ℕ) (c : Cache R)
      → Books c.pool (c.table.blocks ∷ others)
      → index < length c.table.blocks
      → rc c.pool.allocator (get_or c.table.blocks index 0) ≡ 1
      → prepare_block start index c ≡ ok tt c
  unfolding prepare_block
  private_round start index c books h one =
      rw (refcount-ok c index books h, prepare_block, (==_iff _ _).1 one)

  -- Any round of an append that starts inside a block.
  round :
      (start index : ℕ) (c : Cache R)
      → TableIsValid c.table
      → Books c.pool (c.table.blocks ∷ others)
      → index < length c.table.blocks
      → start ≡ c.table.filled
      → start ≢ index * c.table.block_size
      → live c + 1 ≤ c.pool.allocator.num_blocks
      → (d : Cache R) × (prepare_block start index c ≡ ok tt d) × Rounded c d index
  unfolding prepare_block
  round start index c v books h at_end inside room =
      let found = refcount-ok c index books h in
      elim (Bool-cases (rc c.pool.allocator (get_or c.table.blocks index 0) == 1)) [
        | inl one ↦
            (c, rw (found, prepare_block, one), same_round c index v books h ((==_iff _ _).0 one))
        | inr more ↦
            let (d, run, rounded) = copies index c v books h room in
            let here : (start == c.table.filled) ≡ true = (==_iff _ _).1 at_end in
            let later : (start == index * c.table.block_size) ≡ false = ground arith in
            (d, rw (found, prepare_block, more, here, later) run, rounded)
      ]

  -- The invariant composes along the rounds.
  Prepared-trans : (c d e : Cache R) → Prepared c d → Prepared d e → Prepared c e
  Prepared-trans c d e p q = record {
    valid = q.valid;
    same_length = q.same_length ∙ p.same_length;
    same_size = q.same_size ∙ p.same_size;
    same_filled = q.same_filled ∙ p.same_filled;
    same_pool = q.same_pool ∙ p.same_pool;
    books = q.books;
    mine = λ l i o k. q.mine l i o (rw p.same_length k) ∙ p.mine l i o k;
    theirs = λ l b o k. q.theirs l b o k ∙ p.theirs l b o k;
  }

  -- Enough room pays for every round; each block of the range ends up private.
  pub prepare_blocks_append :
      (start index rounds : ℕ) (c : Cache R)
      → TableIsValid c.table
      → Books c.pool (c.table.blocks ∷ others)
      → index + rounds ≤ length c.table.blocks
      → start ≡ c.table.filled
      → ((i : ℕ) → start ≢ i * c.table.block_size)
      → live c + rounds ≤ c.pool.allocator.num_blocks
      → (d : Cache R) × (prepare_blocks start index rounds c ≡ ok tt d)
        × Prepared c d
        × ((i : ℕ) → index ≤ i → i < index + rounds → owned (get_or d.table.blocks i 0) others ≡ 0)
        × ((i : ℕ) → i < index → get_or d.table.blocks i 0 ≡ get_or c.table.blocks i 0)
  unfolding prepare_blocks
  prepare_blocks_append start index zero c v books h at_end inside room =
      (c, refl, Prepared-refl c v books, λ i k m. absurd (omega arith), λ i k. refl)
  prepare_blocks_append start index (suc rounds) c v books h at_end inside room =
      let (d, run, r) =
        round start index c v books (omega arith) at_end (inside index) (omega arith) in
      let p = r.prepared in
      let (e, rest, q, private, before) =
        prepare_blocks_append start (suc index) rounds d p.valid p.books
          (omega (arith, p.same_length)) (at_end ∙ sym p.same_filled)
          (λ i. rw p.same_size (inside i)) (omega (arith, r.paid, p.same_pool)) in
      (
        e,
        rw (run, prepare_blocks) rest,
        Prepared-trans c d e p q,
        λ i k m. in_range i k m d e r.private (before index (omega arith)) (private i),
        λ i k. before i (omega arith) ∙ r.kept i (omega arith),
      )
    where
      in_range :
          (i : ℕ)
          → index ≤ i
          → i < index + suc rounds
          → (d e : Cache R) → owned (get_or d.table.blocks index 0) others ≡ 0
          → get_or e.table.blocks index 0 ≡ get_or d.table.blocks index 0
          → (suc index ≤ i → i < suc index + rounds → owned (get_or e.table.blocks i 0) others ≡ 0)
          → owned (get_or e.table.blocks i 0) others ≡ 0
      in_range i k m d e first same rest = elim (Bool-cases (i == index)) [
        | inl p ↦ rw ((==_iff i index).0 p, same) first
        | inr ne ↦ rest (ground arith) (omega arith)
      ]

  -- Where every block of the range is private already, the loop changes nothing.
  pub prepare_blocks_private :
      (start index rounds : ℕ) (c : Cache R)
      → TableIsValid c.table
      → Books c.pool (c.table.blocks ∷ others)
      → index + rounds ≤ length c.table.blocks
      → ((i : ℕ)
          → index ≤ i
          → i < index + rounds
          → rc c.pool.allocator (get_or c.table.blocks i 0) ≡ 1)
      → (prepare_blocks start index rounds c ≡ ok tt c)
        × ((i : ℕ) → index ≤ i → i < index + rounds → owned (get_or c.table.blocks i 0) others ≡ 0)
  unfolding prepare_blocks
  prepare_blocks_private start index zero c v books h own = (refl, λ i k m. absurd (omega arith))
  prepare_blocks_private start index (suc rounds) c v books h own =
      let one = own index (omega arith) (omega arith) in
      let (rest, _) =
        prepare_blocks_private start (suc index) rounds c v books (omega arith)
          (λ i k m. own i (omega arith) (omega arith)) in
      (
        rw (private_round start index c books (omega arith) one, prepare_blocks) rest,
        λ i k m. (same_round c i v books (omega arith) (own i k m)).private,
      )
