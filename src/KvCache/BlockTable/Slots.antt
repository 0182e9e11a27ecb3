-- ===== src/KvCache/BlockTable/Slots.antt =====
-- Positions and physical slots: no two positions share a slot, and every slot lies in the pool.
use llm_infer.Prelude.{
  ℕ, zero, suc, ◌+◌, ◌*◌, ◌/◌, ◌%◌, ◌<◌, ◌≤◌, ◌≡◌, refl, ap, ◌≢◌, ◌⊎◌, inl, inr, ltb, ltb→lt,
  not-ltb→le, Bool-cases, none, some, List, [], ◌∷◌, arith, ltb, length, get_or, range, map, count,
}
use llm_infer.KvCache.BlockTable.{BlockTable, capacity, physical_slot, physical_slots}

-- The slot of a position in range.
abbrev pub slot_of : BlockTable → ℕ → ℕ
slot_of t pos = get_or t.blocks (pos / t.block_size) 0 * t.block_size + pos % t.block_size

pub physical_slot-some :
    (t : BlockTable) (pos : ℕ) → pos < capacity t → physical_slot t pos ≡ some (slot_of t pos)
unfolding physical_slot
physical_slot-some t pos h = ground arith

pub block_index :
    (t : BlockTable) (pos : ℕ)
    → 0 < t.block_size
    → pos < capacity t
    → pos / t.block_size < length t.blocks
block_index t pos s h = grind arith

-- Every position of a run in range has its slot.
pub physical_slots-some :
    (t : BlockTable) (start n : ℕ)
    → start + n ≤ capacity t
    → physical_slots t start n ≡ some (map (slot_of t) (range start n))
unfolding physical_slots
physical_slots-some t start zero h = refl
physical_slots-some t start (suc n) h =
    rw (physical_slot-some t start (omega arith), physical_slots-some t (suc start) n (omega arith))

pub get_or-count : (xs : List ℕ) (i : ℕ) → i < length xs → 0 < count (get_or xs i 0) xs
get_or-count [] i h = absurd (omega arith)
get_or-count (x ∷ xs) zero h = ground arith
get_or-count (x ∷ xs) (suc i) h = ground (arith, get_or-count xs i)

-- In a list without repetition an element has one place.
get_or-injective :
    (xs : List ℕ) (i j : ℕ)
    → ((b : ℕ) → count b xs ≤ 1)
    → i < length xs
    → j < length xs
    → get_or xs i 0 ≡ get_or xs j 0
    → i ≡ j
get_or-injective [] i j d hi hj e = absurd (omega arith)
get_or-injective (x ∷ xs) zero zero d hi hj e = refl
get_or-injective (x ∷ xs) zero (suc j) d hi hj e = absurd (ground (arith, d x, get_or-count xs j))
get_or-injective (x ∷ xs) (suc i) zero d hi hj e = absurd (ground (arith, d x, get_or-count xs i))
get_or-injective (x ∷ xs) (suc i) (suc j) d hi hj e =
    ground (arith, get_or-injective xs i j (λ b. ground (arith, d b)))

-- A slot splits into its block and its offset, as `_slot_parts` does.
pub slot_parts : (b s r : ℕ) → r < s → ((b * s + r) / s ≡ b) × ((b * s + r) % s ≡ r)
slot_parts b s r h = grind arith

slot_unique : (b c s r q : ℕ) → r < s → q < s → b * s + r ≡ c * s + q → (b ≡ c) × (r ≡ q)
slot_unique b c s r q h k e = (
  omega (arith, (slot_parts b s r h).0, (slot_parts c s q k).0, ap (λ (x : ℕ). x / s) e),
  omega (arith, (slot_parts b s r h).1, (slot_parts c s q k).1, ap (λ (x : ℕ). x % s) e),
)

position_parts : (p q s : ℕ) → 0 < s → p / s ≡ q / s → p % s ≡ q % s → p ≡ q
position_parts p q s h e f = grind arith

module _ (t : BlockTable) (size_pos : 0 < t.block_size) where
  slot_in_pool :
      (num_blocks pos : ℕ)
      → ((b : ℕ) → 0 < count b t.blocks → b < num_blocks)
      → pos < capacity t
      → slot_of t pos < num_blocks * t.block_size
  slot_in_pool num_blocks pos own h =
      let i = pos / t.block_size in
      let in_pool =
        own (get_or t.blocks i 0) (get_or-count t.blocks i (block_index t pos size_pos h)) in
      grind arith

  pub slot_injective :
      (p q : ℕ)
      → ((b : ℕ) → count b t.blocks ≤ 1)
      → p < capacity t
      → q < capacity t
      → slot_of t p ≡ slot_of t q
      → p ≡ q
  slot_injective p q distinct h k e =
      let s = t.block_size in
      let i = block_index t p size_pos h in
      let j = block_index t q size_pos k in
      let (same_block, same_offset) =
        slot_unique _ _ s (p % s) (q % s) (omega arith) (omega arith) e in
      position_parts p q s size_pos
        (get_or-injective t.blocks (p / s) (q / s) distinct i j same_block) same_offset

  slot_got : (p x : ℕ) → physical_slot t p ≡ some x → (p < capacity t) × (slot_of t p ≡ x)
  unfolding physical_slot
  slot_got p x e = elim (Bool-cases (ltb p (capacity t))) [
    | inr out ↦ absurd (ground arith)
    | inl room ↦ (ltb→lt _ _ room, ground arith)
  ]

  -- A position has a slot exactly when it is within the capacity, and the slot is a slot of the
  -- pool, for a positive block size and a table whose blocks are blocks of the pool.
  pub physical_slot_in_pool :
      (num_blocks p : ℕ)
      → ((b : ℕ) → 0 < count b t.blocks → b < num_blocks)
      → ((physical_slot t p ≡ none) × (capacity t ≤ p))
        ⊎ ((x : ℕ) × (physical_slot t p ≡ some x)
            × (p < capacity t)
            × (x < num_blocks * t.block_size))
  unfolding physical_slot
  physical_slot_in_pool num_blocks p own = elim (Bool-cases (ltb p (capacity t))) [
    | inr out ↦ inl (ground arith, not-ltb→le _ _ out)
    | inl room ↦
        let h = ltb→lt _ _ room in
        inr (slot_of t p, ground arith, h, slot_in_pool num_blocks p own h)
  ]

  -- Different positions have different slots, for a positive block size and a table without
  -- repeated blocks.
  pub physical_slot_ne :
      (p q x y : ℕ)
      → ((b : ℕ) → count b t.blocks ≤ 1)
      → p ≢ q
      → physical_slot t p ≡ some x
      → physical_slot t q ≡ some y
      → x ≢ y
  physical_slot_ne p q x y distinct other f g same =
      let (h, at_x) = slot_got p x f in
      let (k, at_y) = slot_got q y g in
      other (slot_injective p q distinct h k (omega (arith, at_x, at_y, same)))
