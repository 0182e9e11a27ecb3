-- ===== src/KvCache/Paged/Isolation.antt =====
-- Appending through one table: it reads back what was written, and no other table sees a change.
use llm_infer.Prelude.{
  ℕ, ◌+◌, ◌-◌, ◌*◌, ◌/◌, ◌%◌, ◌<◌, ◌≤◌, ◌≡◌, refl, ap, sym, ◌∙◌, ◌≢◌, ◌⊎◌, false, inl, inr, some,
  some_cancel, List, [], ◌∷◌, ◌++◌, map, arith, ltb, length, get_or, range, count, owned, Elem, ok,
}
use llm_infer.KvCache.Allocator.{rc}
use llm_infer.KvCache.Pool.Budget.{Books}
use llm_infer.KvCache.BlockTable.{BlockTable, capacity}
use llm_infer.KvCache.BlockTable.Slots.{get_or-count, block_index, physical_slots-some}
use llm_infer.KvCache.BlockTable.Ownership.{TableIsValid}
use llm_infer.KvCache.Paged.{Cache, prepare_blocks, prepare_write, write, read}
use llm_infer.KvCache.Paged.CopyOnWrite.{
  Prepared, Prepared-refl, live, prepare_blocks_append, prepare_blocks_private,
}
use llm_infer.KvCache.Paged.Rows.{
  row_at, read-rows, map-range-eq, written, written_elsewhere, read-written,
}

owned-Elem : (b : ℕ) (t : List ℕ) (ts : List (List ℕ)) → Elem t ts → count b t ≤ owned b ts
owned-Elem b t [] h = absurd h
owned-Elem b t (u ∷ ts) (inl p) = ground arith
owned-Elem b t (u ∷ ts) (inr h) = omega (arith, owned-Elem b t ts h)

div_mono : (a b s : ℕ) → a ≤ b → 0 < s → a / s ≤ b / s
div_mono a b s h k = grind arith

module _ {R : Type 0} (c : Cache R) (others : List (List ℕ)) (v : TableIsValid c.table)
    (books : Books c.pool (c.table.blocks ∷ others)) where
  -- How many blocks an append of `n` tokens may have to copy.
  abbrev pub touched : ℕ → ℕ
  touched n =
      (c.table.filled + n - 1) / c.table.block_size + 1 - c.table.filled / c.table.block_size

  -- Where the append may write: it starts inside a block, or its blocks are private.
  abbrev pub Appendable : ℕ → Type 0
  Appendable n =
      ((i : ℕ) → c.table.filled ≢ i * c.table.block_size)
      ⊎ ((i : ℕ)
          → c.table.filled / c.table.block_size ≤ i
          → i ≤ (c.table.filled + n - 1) / c.table.block_size
          → rc c.pool.allocator (get_or c.table.blocks i 0) ≡ 1)

  blocks_private :
      (n : ℕ)
      → 0 < n
      → c.table.filled + n ≤ capacity c.table
      → Appendable n
      → live others c + touched n ≤ c.pool.allocator.num_blocks
      → let first = c.table.filled / c.table.block_size in
        (d : Cache R) × (prepare_blocks c.table.filled first (touched n) c ≡ ok tt d)
        × Prepared others c d
        × ((i : ℕ)
            → first ≤ i
            → i < first + touched n
            → owned (get_or d.table.blocks i 0) others ≡ 0)
  blocks_private n pos fits may room =
      let first = c.table.filled / c.table.block_size in
      let last : (c.table.filled + n - 1) / c.table.block_size < length c.table.blocks =
        block_index c.table (c.table.filled + n - 1) v.sized (omega arith) in
      let ordered : first ≤ (c.table.filled + n - 1) / c.table.block_size =
        div_mono c.table.filled (c.table.filled + n - 1) c.table.block_size (omega arith) v.sized in
      elim may [
        | inl inside ↦
            let (d, run, prepared, private, _) =
              prepare_blocks_append others c.table.filled first (touched n) c v books (omega arith)
                refl inside room in
            (d, run, prepared, private)
        | inr own ↦
            let (run, private) =
              prepare_blocks_private others c.table.filled first (touched n) c v books (omega arith)
                (λ i k m. own i k (omega arith)) in
            (c, run, Prepared-refl others c v books, private)
      ]

  -- An append within the table's capacity and the pool's budget is prepared without raising, and then
  -- no other table holds a block that it writes.
  pub prepare_write_append :
      (n : ℕ)
      → 0 < n
      → c.table.filled + n ≤ capacity c.table
      → Appendable n
      → live others c + touched n ≤ c.pool.allocator.num_blocks
      → (d : Cache R) × (prepare_write c.table.filled n c ≡ ok tt d)
        × Prepared others c d
        × ((pos : ℕ)
            → c.table.filled ≤ pos
            → pos < c.table.filled + n
            → owned (get_or d.table.blocks (pos / c.table.block_size) 0) others ≡ 0)
  unfolding prepare_write
  prepare_write_append n some_rows fits may room =
      let (d, run, prepared, private) = blocks_private n some_rows fits may room in
      let many : ltb n 1 ≡ false = ground arith in
      let inside : ltb (capacity c.table) (c.table.filled + n) ≡ false = ground arith in
      (
        d,
        rw (many, prepare_write, inside) run,
        prepared,
        λ pos k m.
            let low = div_mono c.table.filled pos c.table.block_size k v.sized in
            let high =
              div_mono pos (c.table.filled + n - 1) c.table.block_size (omega arith) v.sized in
            private (pos / c.table.block_size) low (omega arith),
      )

  -- A table reads the same rows after the copies.
  Prepared-rows :
      (d : Cache R) (p : Prepared others c d) (layer n : ℕ)
      → n ≤ capacity c.table
      → map (row_at d.table p.valid layer d.kv) (range 0 n)
        ≡ map (row_at c.table v layer c.kv) (range 0 n)
  Prepared-rows d p layer n h = map-range-eq _ _ 0 n λ q low high. rw p.same_size (
      p.mine layer (q / c.table.block_size) (q % c.table.block_size)
        (block_index c.table q v.sized (omega arith)))

  -- Rows written where no other table holds the block leave the other tables' rows alone.
  foreign_rows :
      (d : Cache R) (p : Prepared others c d) (layer start : ℕ) (rows : List R)
      → ((pos : ℕ)
          → start ≤ pos
          → pos < start + length rows
          → owned (get_or d.table.blocks (pos / d.table.block_size) 0) others ≡ 0)
      → (u : BlockTable) (w : TableIsValid u) (l n : ℕ) → Elem u.blocks others
      → n ≤ capacity u
      → read u l n (written d.table p.valid layer start rows d.kv) ≡ read u l n c.kv
  foreign_rows d p layer start rows private u w l n found h =
      let new = written d.table p.valid layer start rows d.kv in
      read-rows u w l n new h
      ∙ ap some (
          map-range-eq _ _ 0 n λ q low high.
            written_elsewhere d.table p.valid layer start rows d.kv l _ _ (λ pos k m. inl (λ e.
              absurd (
                omega
                  (arith, private pos k m, foreign q (omega arith), ap (λ b. owned b others) e))))
            ∙ p.theirs l _ _ (foreign q (omega arith)))
      ∙ sym (read-rows u w l n c.kv h)
    where
      foreign : (q : ℕ) → q < n → 0 < owned (get_or u.blocks (q / u.block_size) 0) others
      foreign q high =
          let b = get_or u.blocks (q / u.block_size) 0 in
          omega (
            arith,
            get_or-count u.blocks (q / u.block_size) (block_index u q w.sized (omega arith)),
            owned-Elem b u.blocks others found,
          )

  -- With exact refcounts, an append of at least one row through a valid table, within its capacity
  -- and the pool's budget and in the last partial block or in private blocks, does not raise; the
  -- table then reads back its old rows and the new ones, and every other table reads what it read
  -- before.
  pub write_append :
      (layer : ℕ) (rows : List R)
      → 0 < length rows
      → c.table.filled + length rows ≤ capacity c.table
      → Appendable (length rows)
      → live others c + touched (length rows) ≤ c.pool.allocator.num_blocks
      → (d : Cache R) × (write layer c.table.filled rows c ≡ ok tt d)
        × Books d.pool (d.table.blocks ∷ others)
        × TableIsValid d.table
        × ((old : List R)
            → read c.table layer c.table.filled c.kv ≡ some old
            → read d.table layer (c.table.filled + length rows) d.kv ≡ some (old ++ rows))
        × ((u : BlockTable) (l n : ℕ)
            → Elem u.blocks others
            → TableIsValid u
            → n ≤ capacity u
            → read u l n d.kv ≡ read u l n c.kv)
  unfolding write
  write_append layer rows some_rows fits may room =
      let start = c.table.filled in
      let (d, run, p, private) = prepare_write_append (length rows) some_rows fits may room in
      let fits' : start + length rows ≤ capacity d.table = rw (p.same_length, p.same_size) fits in
      (
        record d { kv = written d.table p.valid layer start rows d.kv },
        rw (run, write, physical_slots-some d.table start (length rows) fits'),
        p.books,
        p.valid,
        λ old was.
            read-written d.table p.valid layer start rows d.kv fits'
            ∙ ap some (
                ap (λ xs. xs ++ rows)
                  (Prepared-rows d p layer start (omega arith)
                    ∙ some_cancel
                        (sym (read-rows c.table v layer start c.kv (omega arith)) ∙ was))),
        λ u l n found w h.
            foreign_rows d p layer start rows (λ pos k m. rw p.same_size (private pos k m)) u w l n
              found h,
      )
