-- ===== src/KvCache/Allocator/Loops.antt =====
-- What the loops of the allocator do to the refcounts and to the free list.
use llm_infer.Prelude.{
  ℕ, ◌+◌, ◌-◌, ◌<◌, ◌≤◌, ◌≡◌, refl, List, [], ◌∷◌, arith, ltb, ◌==◌, if◌then◌else◌, length, get_or,
  set, count, count-append, length-set, get_or-set_self, get_or-set_ne, length-append, Bool-cases,
  ==_iff, inl, inr,
}
use llm_infer.KvCache.Allocator.{Allocator, rc, claim, increment, drop_reference, drop_references}
use llm_infer.KvCache.Allocator.Validity.{IsValid}

-- A write at an index in range, read anywhere.
pub get_or-set :
    (refs : List ℕ) (i j v : ℕ)
    → i < length refs
    → get_or (set refs i v) j 0 ≡ (if i == j then v else get_or refs j 0)
get_or-set refs i j v h = elim (Bool-cases (i == j)) [
  | inl e ↦ rw (e, ← (==_iff i j).0 e) (get_or-set_self refs i v 0 h)
  | inr e ↦ rw e (get_or-set_ne refs i j v 0 (λ (p : i ≡ j). ground arith))
]

pub length-claim : (blocks refs : List ℕ) → length (claim blocks refs) ≡ length refs
unfolding claim
length-claim [] refs = refl
length-claim (x ∷ xs) refs = omega (arith, length-claim xs (set refs x 1), length-set refs x 1)

pub get_or-claim :
    (blocks refs : List ℕ) (b : ℕ)
    → ((x : ℕ) → 0 < count x blocks → x < length refs)
    → get_or (claim blocks refs) b 0 ≡ (if ltb 0 (count b blocks) then 1 else get_or refs b 0)
unfolding claim
get_or-claim [] refs b h = refl
get_or-claim (x ∷ xs) refs b h = ground (
  arith,
  h x,
  get_or-set refs x b 1,
  get_or-claim xs (set refs x 1) b (λ y k. ground (arith, h y, length-set refs x 1)),
)

pub length-increment : (blocks refs : List ℕ) → length (increment blocks refs) ≡ length refs
unfolding increment
length-increment [] refs = refl
length-increment (x ∷ xs) refs =
    let v = get_or refs x 0 + 1 in
    omega (arith, length-increment xs (set refs x v), length-set refs x v)

pub get_or-increment :
    (blocks refs : List ℕ) (b : ℕ)
    → ((x : ℕ) → 0 < count x blocks → x < length refs)
    → get_or (increment blocks refs) b 0 ≡ get_or refs b 0 + count b blocks
unfolding increment
get_or-increment [] refs b h = omega arith
get_or-increment (x ∷ xs) refs b h =
    let v = get_or refs x 0 + 1 in
    ground (
      arith,
      h x,
      get_or-set refs x b v,
      get_or-increment xs (set refs x v) b (λ y k. ground (arith, h y, length-set refs x v)),
    )

module _ (block : ℕ) (a : Allocator) (returned : List ℕ) where
  pub rc-drop_reference :
      (b : ℕ)
      → IsValid a
      → block < a.num_blocks
      → rc (drop_reference block (a, returned)).0 b
        ≡ (if block == b then rc a block - 1 else rc a b)
  unfolding drop_reference
  rc-drop_reference b v h = ground (arith, v.sized, get_or-set a.refcounts block b (rc a block - 1))

  pub num_blocks-drop_reference : (drop_reference block (a, returned)).0.num_blocks ≡ a.num_blocks
  unfolding drop_reference
  num_blocks-drop_reference = ground arith

  -- Each round keeps the allocator well-formed, if the block is held.
  pub drop_reference-IsValid :
      IsValid a
      → block < a.num_blocks
      → 0 < rc a block
      → IsValid (drop_reference block (a, returned)).0
  unfolding drop_reference
  drop_reference-IsValid v h k = record {
    sized = ground (arith, v.sized, length-set a.refcounts block (rc a block - 1));
    exact = λ b. ground (
      arith,
      v.sized,
      v.exact b,
      v.exact block,
      count-append b a.free_list (block ∷ []),
      get_or-set a.refcounts block b (rc a block - 1),
    );
  }

  -- The free list grows by exactly the blocks that the round reports.
  pub drop_reference_returns :
      (b : ℕ)
      → IsValid a
      → 0 < rc a block
      → let s = drop_reference block (a, returned) in
        (count b s.1 + count b a.free_list ≡ count b returned + count b s.0.free_list)
        × (length s.1 + length a.free_list ≡ length returned + length s.0.free_list)
  unfolding drop_reference
  drop_reference_returns b v k = ground (
    arith,
    count-append b a.free_list (block ∷ []),
    count-append b returned (block ∷ []),
    length-append a.free_list (block ∷ []),
    length-append returned (block ∷ []),
  )

-- What the whole loop does, from the allocator and the returned blocks `s` to `t`.
pub record Dropped (blocks : List ℕ) (s t : Allocator × List ℕ) : Type 0 where
  pub valid : IsValid t.0
  pub same_pool : t.0.num_blocks ≡ s.0.num_blocks
  pub held : (b : ℕ) → rc t.0 b + count b blocks ≡ rc s.0 b
  pub moved : (b : ℕ) → count b t.1 + count b s.0.free_list ≡ count b s.1 + count b t.0.free_list
  pub grown : length t.1 + length s.0.free_list ≡ length s.1 + length t.0.free_list

Dropped-cons :
    (x : ℕ) (xs : List ℕ) (a : Allocator) (returned : List ℕ) (t : Allocator × List ℕ)
    → IsValid a
    → x < a.num_blocks
    → 0 < rc a x
    → Dropped xs (drop_reference x (a, returned)) t
    → Dropped (x ∷ xs) (a, returned) t
Dropped-cons x xs a returned t v h k d = record {
  valid = d.valid;
  same_pool = omega (arith, num_blocks-drop_reference x a returned, d.same_pool);
  held = λ b. ground (arith, d.held b, rc-drop_reference x a returned b v h);
  moved = λ b. omega (arith, d.moved b, drop_reference_returns x a returned b v k);
  grown = omega (arith, d.grown, drop_reference_returns x a returned x v k);
}

pub drop_references-Dropped :
    (blocks : List ℕ) (a : Allocator) (returned : List ℕ)
    → IsValid a
    → ((b : ℕ) → 0 < count b blocks → (b < a.num_blocks) × (count b blocks ≤ rc a b))
    → Dropped blocks (a, returned) (drop_references blocks (a, returned))
unfolding drop_references
drop_references-Dropped [] a returned v h = record {
  valid = v;
  same_pool = refl;
  held = λ b. omega arith;
  moved = λ b. omega arith;
  grown = omega arith;
}
drop_references-Dropped (x ∷ xs) a returned v h =
    let s = drop_reference x (a, returned) in
    let hx : (x < a.num_blocks) × (0 < rc a x) = ground (arith, h x) in
    Dropped-cons x xs a returned _ v hx.0 hx.1 (
      drop_references-Dropped xs s.0 s.1 (drop_reference-IsValid x a returned v hx.0 hx.1) (λ b k.
        ground (
          arith,
          h b,
          h x,
          rc-drop_reference x a returned b v hx.0,
          num_blocks-drop_reference x a returned,
        )))
