-- ===== src/KvCache/Allocator/Validity.antt =====
-- What a well-formed allocator is, and what its validation loop decides.
use llm_infer.Prelude.{
  ℕ, ◌<◌, ◌≡◌, refl, ◌&&◌, none, List, [], ◌∷◌, arith, ltb, ◌==◌, length, tally, count,
  member-count, owned,
}
use llm_infer.KvCache.Allocator.{Allocator, rc, Action, validate}

-- A block stands in the free list once if it is a block of the pool that nobody holds, else never.
pub record IsValid (a : Allocator) : Type 0 where
  pub sized : length a.refcounts ≡ a.num_blocks
  pub exact : (b : ℕ) → count b a.free_list ≡ tally (ltb b a.num_blocks && rc a b == 0)

-- The refcounts are the numbers of references that the given tables hold.
pub record Accounts (a : Allocator) (tables : List (List ℕ)) : Type 0 where
  pub valid : IsValid a
  pub held : (b : ℕ) → rc a b ≡ owned b tables

-- All in the pool and held, and no block twice: what `retain` and `free` accept.
abbrev pub Acceptable : Allocator → List ℕ → Type 0
Acceptable a blocks =
    (b : ℕ) → 0 < count b blocks → (count b blocks ≡ 1) × (b < a.num_blocks) × (0 < rc a b)

-- The validation passes on `blocks` exactly if each of them is in the pool, held, seen nowhere else.
abbrev Unseen : Allocator → List ℕ → List ℕ → Type 0
Unseen a seen blocks =
    (b : ℕ)
    → 0 < count b blocks
    → (count b blocks ≡ 1) × (b < a.num_blocks) × (0 < rc a b) × (count b seen ≡ 0)

validate_sound :
    (action : Action) (a : Allocator) (seen blocks : List ℕ) (b : ℕ)
    → validate action a seen blocks ≡ none
    → 0 < count b blocks
    → (count b blocks ≡ 1) × (b < a.num_blocks) × (0 < rc a b) × (count b seen ≡ 0)
unfolding validate
validate_sound action a seen [] b h k = absurd (omega arith)
validate_sound action a seen (x ∷ xs) b h k =
    ground (arith, member-count x seen, validate_sound action a (x ∷ seen) xs b)

validate_complete :
    (action : Action) (a : Allocator) (seen blocks : List ℕ)
    → Unseen a seen blocks
    → validate action a seen blocks ≡ none
unfolding validate
validate_complete action a seen [] h = refl
validate_complete action a seen (x ∷ xs) h = ground (
  arith,
  h x,
  member-count x seen,
  validate_complete action a (x ∷ seen) xs (λ b k. ground (arith, h b, h x)),
)

module _ (action : Action) (a : Allocator) (blocks : List ℕ) where
  pub validate-Acceptable : validate action a [] blocks ≡ none → Acceptable a blocks
  validate-Acceptable h b k = let v = validate_sound action a [] blocks b h k in (v.0, v.1, v.2)

  pub Acceptable-validate : Acceptable a blocks → validate action a [] blocks ≡ none
  Acceptable-validate h =
      validate_complete action a [] blocks (λ b k. ((h b k).0, (h b k).1, (h b k).2, refl))
