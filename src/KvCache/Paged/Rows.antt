-- ===== src/KvCache/Paged/Rows.antt =====
-- The loops of `_write_slots` and `_read_slots` over the positions of one table.
use mathlib.Core.List.{map-append}
use llm_infer.Prelude.{
  ℕ, zero, suc, ◌+◌, ◌/◌, ◌%◌, ◌<◌, ◌≤◌, ◌≡◌, refl, ap, ap₂, ◌∙◌, ◌≢◌, ◌⊎◌, inl, inr, ◌&&◌, some,
  List, [], ◌∷◌, ◌++◌, map, arith, ◌==◌, if◌then◌else◌, length, get_or, range,
}
use llm_infer.KvCache.BlockTable.{BlockTable, capacity}
use llm_infer.KvCache.BlockTable.Slots.{slot_of, slot_parts, slot_injective, physical_slots-some}
use llm_infer.KvCache.BlockTable.Ownership.{TableIsValid}
use llm_infer.KvCache.Paged.{Pages, write_slots, read_slots, read}

parts :
    (t : BlockTable) (pos : ℕ)
    → TableIsValid t
    → (slot_of t pos / t.block_size ≡ get_or t.blocks (pos / t.block_size) 0)
      × (slot_of t pos % t.block_size ≡ pos % t.block_size)
parts t pos v =
    slot_parts (get_or t.blocks (pos / t.block_size) 0) t.block_size (pos % t.block_size)
      (omega (arith, v.sized))

pub map-range-eq {ℓ} :
    {A : Type ℓ} (f g : ℕ → A) (i n : ℕ)
    → ((q : ℕ) → i ≤ q → q < i + n → f q ≡ g q)
    → map f (range i n) ≡ map g (range i n)
map-range-eq f g i zero h = refl
map-range-eq f g i (suc n) h =
    ap₂ ◌∷◌ (h i (omega arith) (omega arith))
      (map-range-eq f g (suc i) n (λ q k m. h q (omega arith) (omega arith)))

range-add : (i n m : ℕ) → range i (n + m) ≡ range i n ++ range (i + n) m
range-add i zero m =
    let e : zero + m ≡ m = omega arith in let f : i + zero ≡ i = omega arith in rw (e, f)
range-add i (suc n) m =
    let e : suc n + m ≡ suc (n + m) = omega arith in
    let f : i + suc n ≡ suc i + n = omega arith in rw (e, f) (ap (◌∷◌ i) (range-add (suc i) n m))

module _ {R : Type 0} (t : BlockTable) (v : TableIsValid t) where
  -- What the pages hold for a position of the table.
  abbrev pub row_at : ℕ → Pages R → ℕ → R
  row_at layer kv pos = kv layer (get_or t.blocks (pos / t.block_size) 0) (pos % t.block_size)

  pub read_slots-map :
      (layer : ℕ) (ps : List ℕ) (kv : Pages R)
      → read_slots t.block_size layer (map (slot_of t) ps) kv ≡ map (row_at layer kv) ps
  unfolding read_slots
  read_slots-map layer [] kv = refl
  read_slots-map layer (p ∷ ps) kv =
      rw ((parts t p v).0, (parts t p v).1, read_slots-map layer ps kv)

  -- A read in range gives the row of each position, in order.
  pub read-rows :
      (layer n : ℕ) (kv : Pages R)
      → n ≤ capacity t
      → read t layer n kv ≡ some (map (row_at layer kv) (range 0 n))
  unfolding read
  read-rows layer n kv h =
      rw (physical_slots-some t 0 n (omega arith), read)
        (ap some (read_slots-map layer (range 0 n) kv))

  -- The pages after rows are written at consecutive positions.
  abbrev pub written : ℕ → ℕ → List R → Pages R → Pages R
  written layer start rows kv =
      write_slots t.block_size layer (map (slot_of t) (range start (length rows))) rows kv

  abbrev one_row : ℕ → ℕ → R → Pages R → Pages R
  one_row layer pos row kv l b o =
      if l == layer && (b == slot_of t pos / t.block_size && o == slot_of t pos % t.block_size)
      then row
      else kv l b o

  one_row_self :
      (layer pos : ℕ) (row : R) (kv : Pages R) → row_at layer (one_row layer pos row kv) pos ≡ row
  one_row_self layer pos row kv = rw ((parts t pos v).0, (parts t pos v).1) (ground arith)

  one_row_ne :
      (layer pos q : ℕ) (row : R) (kv : Pages R)
      → pos < capacity t
      → q < capacity t
      → q ≢ pos
      → row_at layer (one_row layer pos row kv) q ≡ row_at layer kv q
  one_row_ne layer pos q row kv h k ne = ground (
    arith,
    parts t pos v,
    parts t q v,
    λ (e : slot_of t q ≡ slot_of t pos). ne (slot_injective t v.sized q pos v.distinct k h e),
  )

  -- A write from `start` on leaves the earlier positions alone.
  pub written_before :
      (layer start q : ℕ) (rows : List R) (kv : Pages R)
      → q < start
      → start + length rows ≤ capacity t
      → row_at layer (written layer start rows kv) q ≡ row_at layer kv q
  unfolding write_slots
  written_before layer start q [] kv h k = refl
  written_before layer start q (row ∷ rows) kv h k =
      written_before layer (suc start) q rows _ (omega arith) (omega arith)
      ∙ one_row_ne layer start q row kv (omega arith) (omega arith) (omega arith)

  -- The positions written read back the rows.
  pub written_rows :
      (layer start : ℕ) (rows : List R) (kv : Pages R)
      → start + length rows ≤ capacity t
      → map (row_at layer (written layer start rows kv)) (range start (length rows)) ≡ rows
  unfolding write_slots
  written_rows layer start [] kv h = refl
  written_rows layer start (row ∷ rows) kv h =
      ap₂ ◌∷◌
        (written_before layer (suc start) start rows _ (omega arith) (omega arith)
          ∙ one_row_self layer start row kv)
        (written_rows layer (suc start) rows _ (omega arith))

  -- Nothing else changes: no other layer, and no block that the positions do not lie in.
  pub written_elsewhere :
      (layer start : ℕ) (rows : List R) (kv : Pages R) (l b o : ℕ)
      → ((pos : ℕ)
          → start ≤ pos
          → pos < start + length rows
          → (b ≢ get_or t.blocks (pos / t.block_size) 0) ⊎ (l ≢ layer))
      → written layer start rows kv l b o ≡ kv l b o
  unfolding write_slots
  written_elsewhere layer start [] kv l b o far = refl
  written_elsewhere layer start (row ∷ rows) kv l b o far =
      written_elsewhere layer (suc start) rows _ l b o
        (λ pos k m. far pos (omega arith) (omega arith))
      ∙ elim (far start (omega arith) (omega arith)) [
        | inl other_block ↦ ground (arith, parts t start v)
        | inr other_layer ↦ ground arith
      ]

  -- Reading on after an append gives the old rows and then the new ones.
  pub read-written :
      (layer start : ℕ) (rows : List R) (kv : Pages R)
      → start + length rows ≤ capacity t
      → read t layer (start + length rows) (written layer start rows kv)
        ≡ some (map (row_at layer kv) (range 0 start) ++ rows)
  read-written layer start rows kv h =
      let new = written layer start rows kv in
      let old_rows =
        map-range-eq (row_at layer new) (row_at layer kv) 0 start
          (λ q k m. written_before layer start q rows kv (omega arith) h) in
      let from_start : 0 + start ≡ start = omega arith in
      read-rows layer (start + length rows) new h
      ∙ ap some (
          rw
            (
              range-add 0 start (length rows),
              map-append (row_at layer new) (range 0 start),
              from_start,
            )
            (ap₂ ◌++◌ old_rows (written_rows layer start rows kv h)))
