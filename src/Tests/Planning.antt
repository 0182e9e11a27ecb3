-- ===== src/Tests/Planning.antt =====
-- Read plans of a batch of two.
use llm_infer.Prelude.{
  ℕ, suc, ◌+◌, ◌-◌, ◌*◌, ◌<◌, ◌≡◌, refl, true, some, List, [], ◌∷◌, get_or, arith, ok,
}
use llm_infer.KvCache.BlockTable.{BlockTable, physical_slot}
use llm_infer.KvCache.Paged.Plans.{KvPagePlan, KvReadPlan, plan_pages, plan_read_many}
use llm_infer.KvCache.Paged.Plans.PageRows.{At, Readable, page_slot}
use llm_infer.KvCache.Paged.Plans.PageTable.{plan_pages-slots}
use llm_infer.KvCache.Paged.Plans.Packed.{PackedPlan, plan_read_many-PackedPlan}
use llm_infer.Tests.{one_block, long_table}

abbrev batch : List BlockTable
batch = long_table ∷ one_block ∷ []

batch-Readable : Readable 2 batch (3 ∷ 1 ∷ [])
batch-Readable = ((refl, omega arith, omega arith), ((refl, omega arith, omega arith), tt))

plan_pages-slots_example :
    (plan : KvPagePlan) × (plan_pages 2 batch (3 ∷ 1 ∷ []) ≡ ok plan tt)
    × ((i : ℕ) (t : BlockTable) (n : ℕ)
        → At batch i t
        → At (3 ∷ 1 ∷ []) i n
        → ((pos : ℕ) → pos < n → physical_slot t pos ≡ some (page_slot plan i pos))
          × ((get_or plan.indptr (suc i) 0 - get_or plan.indptr i 0 - 1) * 2
                + get_or plan.last_page_len i 0
              ≡ n))
plan_pages-slots_example =
    plan_pages-slots 2 batch (3 ∷ 1 ∷ []) (omega arith) (omega arith) batch-Readable (omega arith)
      (refl, (refl, tt))

-- A slot holds its own address.
plan_read_many-PackedPlan_example :
    (plan : KvReadPlan) × (plan_read_many 2 batch (3 ∷ 1 ∷ []) true true ≡ ok plan tt)
    × PackedPlan 2 0 batch (3 ∷ 1 ∷ []) (λ layer block offset. block * 2 + offset) plan
plan_read_many-PackedPlan_example =
    plan_read_many-PackedPlan 2 0 batch (3 ∷ 1 ∷ []) true
      (λ (layer block offset : ℕ). block * 2 + offset) (omega arith) (omega arith) batch-Readable
      (omega arith) (refl, (refl, tt))
