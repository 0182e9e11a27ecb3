-- ===== src/KvCache/Paged/Plans/Int32.antt =====
-- When the numbers of a plan fit in 32-bit integers.
use llm_infer.Prelude.{
  ℕ, zero, suc, ◌+◌, ◌-◌, ◌%◌, ◌<◌, ◌≤◌, ◌≡◌, refl, subst, true, some, List, [], ◌∷◌, ◌++◌, arith,
  lt→ltb, length, take,
}
use llm_infer.KvCache.BlockTable.{BlockTable, ceil_div}
use llm_infer.KvCache.BlockTable.Ownership.{ceil_div_least}
use llm_infer.KvCache.Paged.Plans.{KvPagePlan, all_int32, fits_int32, page_rows, cumsum, wrapped}
use llm_infer.KvCache.Paged.Plans.PageRows.{Readable, page_rows_step}

abbrev pub sum : List ℕ → ℕ
sum [] = 0
sum (n ∷ ns) = n + sum ns

-- The block ids of each table fit.
abbrev pub IdsFit : List BlockTable → Type 0
IdsFit [] = Unit {0}
IdsFit (t ∷ ts) = (all_int32 t.blocks ≡ true) × IdsFit ts

all_int32-append :
    (xs ys : List ℕ) → all_int32 xs ≡ true → all_int32 ys ≡ true → all_int32 (xs ++ ys) ≡ true
all_int32-append [] ys h k = k
all_int32-append (x ∷ xs) ys h k = ground (arith, all_int32-append xs ys)

all_int32-take : (n : ℕ) (xs : List ℕ) → all_int32 xs ≡ true → all_int32 (take n xs) ≡ true
all_int32-take zero xs h = refl
all_int32-take (suc n) [] h = refl
all_int32-take (suc n) (x ∷ xs) h = ground (arith, all_int32-take n xs)

few_pages : (n size : ℕ) → 0 < size → 1 ≤ n → ceil_div n size ≤ n
few_pages n size h k = ceil_div_least n size n h (grind arith)

short_page : (n size : ℕ) → 0 < size → 1 ≤ n → (n - 1) % size + 1 ≤ n
short_page n size h k = grind arith

pub all_int32-sum : (ns : List ℕ) → sum ns < 0x8000_0000 → all_int32 ns ≡ true
all_int32-sum [] h = refl
all_int32-sum (n ∷ ns) h = ground (arith, all_int32-sum ns)

fits_in_front :
    (last n : ℕ) (size : ℕ) (blocks : List ℕ) (rest : KvPagePlan)
    → last < 0x8000_0000
    → (n - 1) % size + 1 < 0x8000_0000
    → all_int32 blocks ≡ true
    → fits_int32 rest ≡ true
    → fits_int32 (record {
      indptr = last ∷ rest.indptr;
      indices = blocks ++ rest.indices;
      last_page_len = ((n - 1) % size + 1) ∷ rest.last_page_len;
      page_size = rest.page_size;
    })
      ≡ true
fits_in_front last n size blocks rest h k b r =
    let low = lt→ltb last 0x8000_0000 h in
    let page = lt→ltb ((n - 1) % size + 1) 0x8000_0000 k in
    let ids = all_int32-append blocks rest.indices b in ground (arith, low, page, ids)

pub page_rows_fit :
    (size last : ℕ) (ts : List BlockTable) (ns : List ℕ)
    → 0 < size
    → Readable size ts ns
    → last + sum ns < 0x8000_0000
    → IdsFit ts
    → (plan : KvPagePlan) × (page_rows size last ts ns ≡ some plan) × (fits_int32 plan ≡ true)
unfolding page_rows
page_rows_fit size last [] [] pos r small ids = (
  record { indptr = last ∷ []; indices = []; last_page_len = []; page_size = size },
  refl,
  ground (arith, lt→ltb last 0x8000_0000 (omega arith)),
)
page_rows_fit size last [] (n ∷ ns) pos r small ids = absurd r
page_rows_fit size last (t ∷ ts) [] pos r small ids = absurd r
page_rows_fit size last (t ∷ ts) (n ∷ ns) pos ((sized, some_token, fits), r) small (own, ids) =
    let count = ceil_div n size in
    let few = few_pages n size pos some_token in
    let (rest, run, fit) =
      page_rows_fit size (last + count) ts ns pos r (omega (arith, few, small)) ids in
    let enough : ceil_div n size ≤ length t.blocks =
      subst (λ s. ceil_div n s ≤ length t.blocks) sized
        (ceil_div_least n t.block_size (length t.blocks) (omega (arith, sized, pos)) fits) in
    (
      _,
      page_rows_step size last t ts n ns rest (ground (arith, enough)) run,
      fits_in_front last n size (take count t.blocks) rest (omega arith)
          (omega (arith, short_page n size pos some_token, small))
          (all_int32-take count t.blocks own) fit,
    )

pub wrapped-cumsum :
    (from : ℕ) (ns : List ℕ)
    → from + sum ns < 0x8000_0000
    → wrapped (cumsum from ns) ≡ cumsum from ns
wrapped-cumsum from [] h = refl
wrapped-cumsum from (n ∷ ns) h =
    let same : (from + n) % 0x1_0000_0000 ≡ from + n = omega arith in
    rw (same, wrapped-cumsum (from + n) ns (omega arith)) refl
