-- ===== src/Tests/Tables.antt =====
-- Block tables and pages.
use llm_infer.Prelude.{
  ℕ, ◌+◌, ◌*◌, ◌≤◌, ◌≡◌, ◌≢◌, inl, some, List, [], ◌∷◌, ◌++◌, arith, length, Elem, ok,
}
use llm_infer.KvCache.Allocator.{num_free}
use llm_infer.KvCache.Pool.Budget.{Books}
use llm_infer.KvCache.BlockTable.{BlockTable, Held, capacity, reserve, release}
use llm_infer.KvCache.BlockTable.Ownership.{TableIsValid, reserve-Books, release-Books}
use llm_infer.KvCache.Paged.{Cache, write, read}
use llm_infer.KvCache.Paged.Isolation.{write_append}
use llm_infer.Tests.{shared_pool, shared_pool-Books, one_block, one_block-TableIsValid}

-- Two more tokens do not fit in block 0: a second block is allocated.
reserve-Books_example :
    (h : Held) × (more : List ℕ) × (reserve 2 (record { table = one_block; pool = shared_pool })
      ≡ ok tt h)
    × (h.table ≡ record one_block { blocks = 0 ∷ more })
    × (length more ≡ 1)
    × (3 ≤ capacity h.table)
    × TableIsValid h.table
    × Books h.pool (h.table.blocks ∷ [])
reserve-Books_example =
    reserve-Books one_block shared_pool [] one_block-TableIsValid shared_pool-Books 2 (omega arith)

release-Books_example :
    (h : Held) × (release (record { table = one_block; pool = shared_pool }) ≡ ok tt h)
    × (h.table ≡ record one_block { blocks = []; filled = 0 })
    × Books h.pool []
    × (2 ≤ num_free h.pool.allocator)
release-Books_example =
    release-Books one_block shared_pool [] one_block-TableIsValid shared_pool-Books

-- A table that was rolled back to no token gives its block back.
abbrev rolled_back : BlockTable
rolled_back = record one_block { filled = 0 }

rolled_back-TableIsValid : TableIsValid rolled_back
rolled_back-TableIsValid = record {
  sized = omega arith;
  distinct = one_block-TableIsValid.distinct;
  fits = omega arith;
}

one_ne_three : ◌≢◌ {A = ℕ} 1 3
one_ne_three e = omega arith

-- A key and a value row in every slot.
abbrev pages : Cache ℕ
pages = record {
  kv = λ layer block offset. 10 * block + offset;
  table = one_block;
  pool = shared_pool;
}

-- The prefix cache holds block 0 too, so that the append goes to a copy of it.
write_append_example :
    (d : Cache ℕ) × (write 0 1 (7 ∷ []) pages ≡ ok tt d)
    × Books d.pool (d.table.blocks ∷ [])
    × TableIsValid d.table
    × ((old : List ℕ)
        → read one_block 0 1 pages.kv ≡ some old
        → read d.table 0 2 d.kv ≡ some (old ++ 7 ∷ []))
    × ((u : BlockTable) (l n : ℕ)
        → Elem u.blocks []
        → TableIsValid u
        → n ≤ capacity u
        → read u l n d.kv ≡ read u l n pages.kv)
write_append_example =
    write_append pages [] one_block-TableIsValid shared_pool-Books 0 (7 ∷ []) (omega arith)
      (omega arith) (inl (λ i. omega arith)) (omega arith)
