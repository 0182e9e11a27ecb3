-- ===== src/KvCache/Paged/Plans/Packed.antt =====
-- A packed read of a batch is the reads of its tables, one after the other.
use llm_infer.Prelude.{
  ℕ, zero, suc, ◌+◌, ◌/◌, ◌%◌, ◌<◌, ◌≤◌, ◌≡◌, refl, ap, sym, ◌∙◌, Bool, true, false, Option, none,
  some, List, [], ◌∷◌, ◌++◌, map, range, arith, ◌==◌, length, get_or, ok,
}
use llm_infer.KvCache.BlockTable.{BlockTable, physical_slots}
use llm_infer.KvCache.BlockTable.Slots.{slot_of, physical_slots-some}
use llm_infer.KvCache.Paged.{Pages, read_slots, read}
use llm_infer.KvCache.Paged.Plans.{
  KvPagePlan, KvReadPlan, packed, paged, some_empty, packed_slots, read_plan, cumsum,
  plan_read_many, read_many_plan,
}
use llm_infer.KvCache.Paged.Plans.Int32.{sum, IdsFit, all_int32-sum, wrapped-cumsum}
use llm_infer.KvCache.Paged.Plans.PageRows.{Readable, At}
use llm_infer.KvCache.Paged.Plans.PageTable.{Readable-lengths, plan_pages-slots}

-- Each table read by itself.
abbrev pub gathered : {R : Type 0} → ℕ → List BlockTable → List ℕ → Pages R → Option (List R)
gathered layer [] ns kv = some []
gathered layer (t ∷ ts) [] kv = some []
gathered layer (t ∷ ts) (n ∷ ns) kv = elim (read t layer n kv) [
  | none ↦ none
  | some rows ↦ elim (gathered layer ts ns kv) [ none ↦ none | some more ↦ some (rows ++ more) ]
]

read_slots-append :
    {R : Type 0} (size layer : ℕ) (xs ys : List ℕ) (kv : Pages R)
    → read_slots size layer (xs ++ ys) kv
      ≡ read_slots size layer xs kv ++ read_slots size layer ys kv
unfolding read_slots
read_slots-append size layer [] ys kv = refl
read_slots-append size layer (x ∷ xs) ys kv =
    ap (◌∷◌ (kv layer (x / size) (x % size))) (read_slots-append size layer xs ys kv)

read_lem :
    {R : Type 0} (t : BlockTable) (layer n : ℕ) (slots : List ℕ) (kv : Pages R)
    → physical_slots t 0 n ≡ some slots
    → read t layer n kv ≡ some (read_slots t.block_size layer slots kv)
unfolding read
read_lem t layer n slots kv h = rw (h, read) refl

packed_slots-gathered :
    {R : Type 0} (size layer : ℕ) (ts : List BlockTable) (ns : List ℕ) (kv : Pages R)
    → Readable size ts ns
    → (slots : List ℕ) × (packed_slots ts ns ≡ some slots)
      × (gathered layer ts ns kv ≡ some (read_slots size layer slots kv))
unfolding packed_slots read_slots
packed_slots-gathered size layer [] [] kv r = ([], refl, refl)
packed_slots-gathered size layer [] (n ∷ ns) kv r = absurd r
packed_slots-gathered size layer (t ∷ ts) [] kv r = absurd r
packed_slots-gathered size layer (t ∷ ts) (n ∷ ns) kv ((sized, some_token, fits), r) =
    let (rest, run, others) = packed_slots-gathered size layer ts ns kv r in
    let own = map (slot_of t) (range 0 n) in
    let slots : physical_slots t 0 n ≡ some own = physical_slots-some t 0 n (omega (arith, fits)) in
    let mine : read t layer n kv ≡ some (read_slots size layer own kv) =
      read_lem t layer n own kv slots ∙ ap (λ s. some (read_slots s layer own kv)) sized in
    (
      own ++ rest,
      rw (slots, packed_slots, run) refl,
      rw (mine, gathered, others) (ap some (sym (read_slots-append size layer own rest kv))),
    )

cumsum-At :
    (sum : ℕ) (ns : List ℕ) (i n : ℕ)
    → At ns i n
    → get_or (sum ∷ cumsum sum ns) (suc i) 0 ≡ get_or (sum ∷ cumsum sum ns) i 0 + n
cumsum-At sum [] i n h = absurd (ground arith)
cumsum-At sum (m ∷ ns) zero n h = ground arith
cumsum-At sum (m ∷ ns) (suc i) n h = cumsum-At (sum + m) ns i n h

-- What a packed plan is, whatever its page plan.
pub record PackedPlan {R : Type 0} (size layer : ℕ) (ts : List BlockTable) (ns : List ℕ)
    (kv : Pages R) (plan : KvReadPlan) : Type 0 where
  pub rows : List R
  pub gathers : gathered layer ts ns kv ≡ some rows
  pub reads : read_many_plan size layer plan kv ≡ some rows
  pub starts : List ℕ
  pub starts_are : plan.cu_seqlens ≡ some starts
  pub first : get_or starts 0 0 ≡ 0
  pub steps : (i n : ℕ) → At ns i n → get_or starts (suc i) 0 ≡ get_or starts i 0 + n

packed_lem :
    (size : ℕ) (ts : List BlockTable) (ns : List ℕ) (pages : Bool) (slots : List ℕ)
    → 0 < size
    → 1 ≤ length ts
    → Readable size ts ns
    → sum ns < 0x8000_0000
    → IdsFit ts
    → packed_slots ts ns ≡ some slots
    → (page_plan : Option KvPagePlan) × (plan_read_many size ts ns pages true
        ≡ ok (read_plan ns (some slots) page_plan) tt)
unfolding plan_read_many
packed_lem size ts ns pages slots positive many r small ids run =
    let (same, full) = Readable-lengths size ts ns r in
    let equal : (length ts == length ns) ≡ true = ground arith in
    let there : (length ts == 0) ≡ false = ground arith in go equal there full pages
  where
    go :
        (length ts == length ns) ≡ true
        → (length ts == 0) ≡ false
        → some_empty ns ≡ false
        → (b : Bool)
        → (page_plan : Option KvPagePlan) × (plan_read_many size ts ns b true
            ≡ ok (read_plan ns (some slots) page_plan) tt)
    go equal there full false =
        (none, rw (equal, there, full, packed, run, all_int32-sum ns small) refl)
    go equal there full true =
        let (plan, planned, _) = plan_pages-slots size ts ns positive many r small ids in
        (
          some plan,
          rw (equal, there, full, packed, run, all_int32-sum ns small, paged, planned) refl,
        )

-- For at least one table of the pool's positive block size, each with as many positions as are read
-- of it, at least one, and with lengths that add up to less than 2 ^ 31 and block ids below 2 ^ 31,
-- `plan_read_many` with packed indices never raises, with page metadata or not, and a read by its
-- plan gives what reading each table by itself gives, one after the other; entry `i` of the 32-bit
-- integers `cu_seqlens` is where the rows of request `i` start.
pub plan_read_many-PackedPlan :
    {R : Type 0} (size layer : ℕ) (ts : List BlockTable) (ns : List ℕ) (pages : Bool) (kv : Pages R)
    → 0 < size
    → 1 ≤ length ts
    → Readable size ts ns
    → sum ns < 0x8000_0000
    → IdsFit ts
    → (plan : KvReadPlan) × (plan_read_many size ts ns pages true ≡ ok plan tt)
      × PackedPlan size layer ts ns kv plan
unfolding read_many_plan
plan_read_many-PackedPlan size layer ts ns pages kv positive many r small ids =
    let (slots, run, gathers) = packed_slots-gathered size layer ts ns kv r in
    let (page_plan, planned) = packed_lem size ts ns pages slots positive many r small ids run in
    (
      read_plan ns (some slots) page_plan,
      planned,
      record {
        rows = read_slots size layer slots kv;
        gathers = gathers;
        reads = refl;
        starts = 0 ∷ cumsum 0 ns;
        starts_are =
            ap (λ (sums : List ℕ). some (0 ∷ sums)) (wrapped-cumsum 0 ns (omega (arith, small)));
        first = refl;
        steps = λ i n h. cumsum-At 0 ns i n h;
      },
    )
