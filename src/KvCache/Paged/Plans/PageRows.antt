-- ===== src/KvCache/Paged/Plans/PageRows.antt =====
-- The rows of the page table, request by request.
use llm_infer.Prelude.{
  ℕ, zero, suc, ◌+◌, ◌-◌, ◌*◌, ◌/◌, ◌%◌, ◌<◌, ◌≤◌, ◌≡◌, refl, ap, sym, subst, ◌∙◌, false, some,
  some_cancel, List, [], ◌∷◌, ◌++◌, arith, ltb, length, length-take, take, get_or, get_elem?,
}
use llm_infer.KvCache.BlockTable.{BlockTable, capacity, ceil_div}
use llm_infer.KvCache.BlockTable.Ownership.{ceil_div_least}
use llm_infer.KvCache.Paged.Plans.{KvPagePlan, page_rows}

-- The tables have the block size and hold at least the length that is read, and as many lengths.
abbrev pub Readable : ℕ → List BlockTable → List ℕ → Type 0
Readable size [] [] = Unit {0}
Readable size [] (n ∷ ns) = ⊥
Readable size (t ∷ ts) [] = ⊥
Readable size (t ∷ ts) (n ∷ ns) =
    ((t.block_size ≡ size) × (1 ≤ n) × (n ≤ capacity t)) × Readable size ts ns

-- The slot of a position of a request, as a paged kernel computes it.
abbrev pub page_slot : KvPagePlan → ℕ → ℕ → ℕ
page_slot plan i pos =
    get_or plan.indices (get_or plan.indptr i 0 + pos / plan.page_size) 0 * plan.page_size
    + pos % plan.page_size

get_or-append_left :
    (xs ys : List ℕ) (i : ℕ) → i < length xs → get_or (xs ++ ys) i 0 ≡ get_or xs i 0
get_or-append_left [] ys i h = absurd (omega arith)
get_or-append_left (x ∷ xs) ys zero h = refl
get_or-append_left (x ∷ xs) ys (suc i) h = get_or-append_left xs ys i (omega arith)

get_or-append_right : (xs ys : List ℕ) (i : ℕ) → get_or (xs ++ ys) (length xs + i) 0 ≡ get_or ys i 0
get_or-append_right [] ys i = let e : zero + i ≡ i = omega arith in rw (e) refl
get_or-append_right (x ∷ xs) ys i =
    let e : suc (length xs) + i ≡ suc (length xs + i) = omega arith in
    rw (e) (get_or-append_right xs ys i)

get_or-take : (xs : List ℕ) (n i : ℕ) → i < n → get_or (take n xs) i 0 ≡ get_or xs i 0
get_or-take xs zero i h = absurd (omega arith)
get_or-take [] (suc n) i h = refl
get_or-take (x ∷ xs) (suc n) zero h = refl
get_or-take (x ∷ xs) (suc n) (suc i) h = get_or-take xs n i (omega arith)

-- One request's rows of a plan whose `indptr` starts at `last`: its pages hold its positions, and as
-- many positions as its length, the last page being filled up to `last_page_len`.
pub record Located (plan : KvPagePlan) (last i : ℕ) (t : BlockTable) (n : ℕ) : Type 0 where
  pub starts : last ≤ get_or plan.indptr i 0
  pub pages :
      (pos : ℕ)
      → pos < n
      → get_or plan.indices (get_or plan.indptr i 0 - last + pos / t.block_size) 0
        ≡ get_or t.blocks (pos / t.block_size) 0
  pub sized :
      (get_or plan.indptr (suc i) 0 - get_or plan.indptr i 0 - 1) * t.block_size
        + get_or plan.last_page_len i 0
      ≡ n

page_of : (pos n size : ℕ) → 0 < size → pos < n → pos / size < ceil_div n size
page_of pos n size h k = grind arith

ceil_eq : (n size : ℕ) → 0 < size → 1 ≤ n → ceil_div n size ≡ (n - 1) / size + 1
ceil_eq n size h k = let e : n + (size - 1) ≡ n - 1 + size = omega arith in rw (e) (grind arith)

last_page :
    (n size : ℕ) → 0 < size → 1 ≤ n → (ceil_div n size - 1) * size + ((n - 1) % size + 1) ≡ n
last_page n size h k = rw (ceil_eq n size h k) (grind arith)

abbrev pub At {ℓ} : {A : Type ℓ} → List A → ℕ → A → Type ℓ
At xs i a = get_elem? xs i ≡ some a

-- The rows of one request in front of those of the others.
abbrev in_front : ℕ → BlockTable → ℕ → KvPagePlan → KvPagePlan
in_front last t n rest = record {
  indptr = last ∷ rest.indptr;
  indices = take (ceil_div n t.block_size) t.blocks ++ rest.indices;
  last_page_len = ((n - 1) % t.block_size + 1) ∷ rest.last_page_len;
  page_size = rest.page_size;
}

pub page_rows_step :
    (size last : ℕ) (t : BlockTable) (ts : List BlockTable) (n : ℕ) (ns : List ℕ)
    (rest : KvPagePlan)
    → ltb (length t.blocks) (ceil_div n size) ≡ false
    → page_rows size (last + ceil_div n size) ts ns ≡ some rest
    → page_rows size last (t ∷ ts) (n ∷ ns)
      ≡ some (record {
        indptr = last ∷ rest.indptr;
        indices = take (ceil_div n size) t.blocks ++ rest.indices;
        last_page_len = ((n - 1) % size + 1) ∷ rest.last_page_len;
        page_size = rest.page_size;
      })
unfolding page_rows
page_rows_step size last t ts n ns rest enough run = rw (enough, page_rows, run) refl

module _ (last : ℕ) (t : BlockTable) (n : ℕ) (rest : KvPagePlan) (positive : 0 < t.block_size)
    (some_token : 1 ≤ n) (fits : n ≤ capacity t) where
  cut : length (take (ceil_div n t.block_size) t.blocks) ≡ ceil_div n t.block_size
  cut = omega (
    arith,
    length-take (ceil_div n t.block_size) t.blocks,
    ceil_div_least n t.block_size (length t.blocks) positive fits,
  )

  Located-here :
      get_or rest.indptr 0 0 ≡ last + ceil_div n t.block_size
      → Located (in_front last t n rest) last 0 t n
  Located-here next = record {
    starts = omega arith;
    pages = λ pos inside.
        let count = ceil_div n t.block_size in
        let in_page = page_of pos n t.block_size positive inside in
        let e : last - last + pos / t.block_size ≡ pos / t.block_size = omega arith in
        rw (e) (
          get_or-append_left (take count t.blocks) rest.indices (pos / t.block_size)
            (omega (arith, cut, in_page))
          ∙ get_or-take t.blocks count (pos / t.block_size) in_page);
    sized =
        let e : last + ceil_div n t.block_size - last - 1 ≡ ceil_div n t.block_size - 1 =
          omega arith in
        rw (next, e) (last_page n t.block_size positive some_token);
  }

  Located-later :
      (i : ℕ) (u : BlockTable) (m : ℕ)
      → Located rest (last + ceil_div n t.block_size) i u m
      → Located (in_front last t n rest) last (suc i) u m
  Located-later i u m l = record {
    starts = omega (arith, l.starts);
    pages = λ pos inside.
        let count = ceil_div n t.block_size in
        let at = get_or rest.indptr i 0 in
        let e : at - last + pos / u.block_size
            ≡ length (take count t.blocks) + (at - (last + count) + pos / u.block_size) =
          omega (arith, cut, l.starts) in
        rw (e) (
          get_or-append_right (take count t.blocks) rest.indices
            (at - (last + count) + pos / u.block_size)
          ∙ l.pages pos inside);
    sized = l.sized;
  }

pub page_rows-Located :
    (size last : ℕ) (ts : List BlockTable) (ns : List ℕ)
    → 0 < size
    → Readable size ts ns
    → (plan : KvPagePlan) × (page_rows size last ts ns ≡ some plan)
      × (plan.page_size ≡ size)
      × (get_or plan.indptr 0 0 ≡ last)
      × ((i : ℕ) (t : BlockTable) (n : ℕ) → At ts i t → At ns i n → Located plan last i t n)
unfolding page_rows
page_rows-Located size last [] [] pos r = (
  record { indptr = last ∷ []; indices = []; last_page_len = []; page_size = size },
  refl,
  refl,
  refl,
  λ i t n h k. absurd (ground arith),
)
page_rows-Located size last [] (n ∷ ns) pos r = absurd r
page_rows-Located size last (t ∷ ts) [] pos r = absurd r
page_rows-Located size last (t ∷ ts) (n ∷ ns) pos ((sized, some_token, fits), r) =
    let count = ceil_div n size in
    let (rest, run, page_size, first, others) = page_rows-Located size (last + count) ts ns pos r in
    let positive : 0 < t.block_size = omega (arith, sized, pos) in
    let enough : ceil_div n size ≤ length t.blocks =
      subst (λ s. ceil_div n s ≤ length t.blocks) sized
        (ceil_div_least n t.block_size (length t.blocks) positive fits) in
    let not_short : ltb (length t.blocks) (ceil_div n size) ≡ false = ground (arith, enough) in
    let front = in_front last t n rest in
    let pages_are : page_rows size last (t ∷ ts) (n ∷ ns) ≡ some front =
      page_rows_step size last t ts n ns rest not_short run
      ∙ ap
          (λ s. some (record {
            indptr = last ∷ rest.indptr;
            indices = take (ceil_div n s) t.blocks ++ rest.indices;
            last_page_len = ((n - 1) % s + 1) ∷ rest.last_page_len;
            page_size = rest.page_size;
          }))
          (sym sized) in
    (front, pages_are, page_size, refl, at rest first others sized positive some_token fits)
  where
    at :
        (rest : KvPagePlan)
        → get_or rest.indptr 0 0 ≡ last + ceil_div n size
        → ((i : ℕ) (u : BlockTable) (m : ℕ)
            → At ts i u
            → At ns i m
            → Located rest (last + ceil_div n size) i u m)
        → t.block_size ≡ size
        → 0 < t.block_size
        → 1 ≤ n
        → n ≤ capacity t
        → (i : ℕ) (u : BlockTable) (m : ℕ) → At (t ∷ ts) i u
        → At (n ∷ ns) i m
        → Located (in_front last t n rest) last i u m
    at rest first others sized positive some_token fits zero u m h k =
        let front = in_front last t n rest in
        let next : get_or rest.indptr 0 0 ≡ last + ceil_div n t.block_size =
          subst (λ s. get_or rest.indptr 0 0 ≡ last + ceil_div n s) (sym sized) first in
        subst (λ v. Located front last 0 v m) (some_cancel h)
          (subst (λ q. Located front last 0 t q) (some_cancel k)
            (Located-here last t n rest positive some_token fits next))
    at rest first others sized positive some_token fits (suc i) u m h k =
        Located-later last t n rest positive some_token fits i u m
          (subst (λ s. Located rest (last + ceil_div n s) i u m) (sym sized) (others i u m h k))
