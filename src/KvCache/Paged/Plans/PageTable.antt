-- ===== src/KvCache/Paged/Plans/PageTable.antt =====
-- The page table finds the slots of the block tables.
use llm_infer.Prelude.{
  ℕ, zero, suc, ◌+◌, ◌-◌, ◌*◌, ◌/◌, ◌%◌, ◌<◌, ◌≤◌, ◌≡◌, refl, ap, sym, subst, ◌∙◌, true, false,
  some, some_cancel, List, [], ◌∷◌, arith, ◌==◌, length, get_or, ok,
}
use llm_infer.KvCache.BlockTable.{BlockTable, capacity, physical_slot}
use llm_infer.KvCache.BlockTable.Slots.{slot_of, physical_slot-some}
use llm_infer.KvCache.Paged.Plans.{
  KvPagePlan, some_empty, fits_int32, page_rows, planned, plan_pages,
}
use llm_infer.KvCache.Paged.Plans.Int32.{sum, IdsFit, page_rows_fit}
use llm_infer.KvCache.Paged.Plans.PageRows.{At, Readable, page_slot, Located, page_rows-Located}

pub Readable-lengths :
    (size : ℕ) (ts : List BlockTable) (ns : List ℕ)
    → Readable size ts ns
    → (length ts ≡ length ns) × (some_empty ns ≡ false)
Readable-lengths size [] [] r = (refl, refl)
Readable-lengths size [] (n ∷ ns) r = absurd r
Readable-lengths size (t ∷ ts) [] r = absurd r
Readable-lengths size (t ∷ ts) (n ∷ ns) ((_, some_token, _), r) =
    let (same, full) = Readable-lengths size ts ns r in (ap suc same, ground (arith, full))

Readable-At :
    (size : ℕ) (ts : List BlockTable) (ns : List ℕ) (i : ℕ) (t : BlockTable) (n : ℕ)
    → Readable size ts ns
    → At ts i t
    → At ns i n
    → (t.block_size ≡ size) × (n ≤ capacity t)
Readable-At size [] ns i t n r h k = absurd (ground arith)
Readable-At size (u ∷ ts) [] i t n r h k = absurd r
Readable-At size (u ∷ ts) (m ∷ ns) zero t n ((sized, _, fits), r) h k =
    subst (λ v. (v.block_size ≡ size) × (n ≤ capacity v)) (some_cancel h)
      (sized, subst (λ q. q ≤ capacity u) (some_cancel k) fits)
Readable-At size (u ∷ ts) (m ∷ ns) (suc i) t n (_, r) h k = Readable-At size ts ns i t n r h k

plan_pages_lem :
    (size : ℕ) (ts : List BlockTable) (ns : List ℕ) (plan : KvPagePlan)
    → length ts ≡ length ns
    → 1 ≤ length ts
    → some_empty ns ≡ false
    → page_rows size 0 ts ns ≡ some plan
    → fits_int32 plan ≡ true
    → plan_pages size ts ns ≡ ok plan tt
unfolding plan_pages
plan_pages_lem size ts ns plan same many full run fit =
    let equal : (length ts == length ns) ≡ true = ground arith in
    let there : (length ts == 0) ≡ false = ground arith in
    rw (equal, there, full, run, planned, fit) refl

-- For at least one table of the pool's positive block size, each with as many positions as are read
-- of it, at least one, and with lengths that add up to less than 2 ^ 31 and block ids below 2 ^ 31,
-- `plan_pages` never raises. For each request of the batch the page table then gives every position
-- below the length the physical slot that the request's block table gives it, and the request's
-- pages, the last one filled up to its `last_page_len`, hold exactly the length.
pub plan_pages-slots :
    (size : ℕ) (ts : List BlockTable) (ns : List ℕ)
    → 0 < size
    → 1 ≤ length ts
    → Readable size ts ns
    → sum ns < 0x8000_0000
    → IdsFit ts
    → (plan : KvPagePlan) × (plan_pages size ts ns ≡ ok plan tt)
      × ((i : ℕ) (t : BlockTable) (n : ℕ)
          → At ts i t
          → At ns i n
          → ((pos : ℕ) → pos < n → physical_slot t pos ≡ some (page_slot plan i pos))
            × ((get_or plan.indptr (suc i) 0 - get_or plan.indptr i 0 - 1) * size
                  + get_or plan.last_page_len i 0
                ≡ n))
plan_pages-slots size ts ns positive many r small ids =
    let (plan, run, page_size, _, rows) = page_rows-Located size 0 ts ns positive r in
    let (same, full) = Readable-lengths size ts ns r in
    let (plan', run', fit') = page_rows_fit size 0 ts ns positive r (omega (arith, small)) ids in
    let fit : fits_int32 plan ≡ true =
      subst (λ q. fits_int32 q ≡ true) (some_cancel (sym run' ∙ run)) fit' in
    (
      plan,
      plan_pages_lem size ts ns plan same many full run fit,
      λ i t n h k.
          let l = rows i t n h k in
          let (sized, fits) = Readable-At size ts ns i t n r h k in
          (
            λ pos inside.
                physical_slot-some t pos (omega (arith, fits, inside))
                ∙ ap some (slot_at plan i t n pos (page_size ∙ sym sized) l inside),
            subst
                (λ s.
                  (get_or plan.indptr (suc i) 0 - get_or plan.indptr i 0 - 1) * s
                    + get_or plan.last_page_len i 0
                  ≡ n)
                sized l.sized,
          ),
    )
  where
    slot_at :
        (plan : KvPagePlan) (i : ℕ) (t : BlockTable) (n pos : ℕ)
        → plan.page_size ≡ t.block_size
        → Located plan 0 i t n
        → pos < n
        → slot_of t pos ≡ page_slot plan i pos
    slot_at plan i t n pos sized l inside =
        let s = t.block_size in
        let page = l.pages pos inside in
        let e : get_or plan.indptr i 0 - 0 ≡ get_or plan.indptr i 0 = omega arith in
        subst
          (λ z.
            slot_of t pos ≡ get_or plan.indices (get_or plan.indptr i 0 + pos / z) 0 * z + pos % z)
          (sym sized)
          (ap (λ b. b * s + pos % s)
            (sym page ∙ ap (λ (z : ℕ). get_or plan.indices (z + pos / s) 0) e))
