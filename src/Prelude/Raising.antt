-- ===== src/Prelude/Raising.antt =====
-- Python's exceptions over a mutable object: a raise keeps the changes made before it.
use mathlib.Core.Path.{◌≡◌, refl}
use mathlib.Core.Logic.{◌⊎◌, inl, inr}

-- The sites that raise. `out_of_blocks` is OutOfBlocksError, and `overflow` the RuntimeError of a
-- number that has no place in a tensor of 32-bit integers; all others are ValueError, but
-- `out_of_rounds` is no exception of the code: it says that a model's loop had too little fuel.
pub data Error : Type 0 where
  out_of_blocks bad_count bad_position out_of_range double_free dead_block duplicate_block : Error
  bad_config misaligned empty_donation shared_write batch_mismatch too_large no_budget : Error
  index_error already_finished not_running missing_free_count duplicate_request unsupported
        bad_state out_of_rounds overflow :
      Error

pub data Outcome {ℓ κ} (S : Type ℓ) (A : Type κ) : Type (ℓ ⊔ κ) where
  ok : A → S → Outcome S A
  raise : Error → S → Outcome S A

module _ {ℓ κ} {S : Type ℓ} {A : Type κ} where
  -- The object after a call, whether it returned or raised.
  abbrev pub final : Outcome S A → S
  final (ok a s) = s
  final (raise e s) = s

module _ {ℓ κ ι} {S : Type ℓ} {A : Type κ} {B : Type ι} where
  infixl 5 ◌>>=◌
  abbrev pub ◌>>=◌ : Outcome S A → (A → S → Outcome S B) → Outcome S B
  ok a s >>= f = f a s
  raise e s >>= f = raise e s

module _ {ℓ κ} {S : Type ℓ} {A : Type κ} where
  pub Outcome-cases :
      (o : Outcome S A)
      → ((a : A) × (s : S) × (o ≡ ok a s)) ⊎ ((e : Error) × (s : S) × (o ≡ raise e s))
  Outcome-cases (ok a s) = inl (a, s, refl)
  Outcome-cases (raise e s) = inr (e, s, refl)
