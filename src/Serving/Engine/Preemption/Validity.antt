-- ===== src/Serving/Engine/Preemption/Validity.antt =====
-- What a valid engine is, and its running requests without one of them.
use text.Mathlib.Text.{◌==◌ as str_eq}
use text.Mathlib.TextEquality.{eq_iff}
use llm_infer.Prelude.{
  ℕ, ◌+◌, ◌≡◌, refl, String, true, false, Option, none, some, List, [], ◌∷◌, ◌++◌, All, arith,
  count, owned,
}
use llm_infer.KvCache.Pool.Budget.{Books}
use llm_infer.KvCache.BlockTable.{BlockTable}
use llm_infer.KvCache.BlockTable.Ownership.{TableIsValid}
use llm_infer.Serving.Request.{Request}
use llm_infer.Scheduler.{remove}
use llm_infer.Scheduler.Books.{Balanced, Unique, fresh, ids}
use llm_infer.Serving.Engine.{Engine}

abbrev pub blocks_held : Option BlockTable → List ℕ
blocks_held none = []
blocks_held (some t) = t.blocks

abbrev pub tables_of : List Request → List (List ℕ)
tables_of [] = []
tables_of (r ∷ rs) = blocks_held r.block_table ∷ tables_of rs

abbrev pub TableOk : Option BlockTable → Type 0
TableOk none = Unit {0}
TableOk (some t) = TableIsValid t

abbrev pub Live : Request → Type 0
Live r = (r.finished ≡ false) × TableOk r.block_table

-- Between operations: the scheduler's budgets agree, the running requests have different ids, are
-- not finished and have valid tables or none, the refcounts are those of these tables, and a request
-- that waits has no table. With preemption there is no prefix cache.
pub record EngineIsValid (e : Engine) : Type 0 where
  pub balanced : Balanced e.scheduler
  pub unique : Unique (ids e.scheduler.running)
  pub running_live : All Live e.scheduler.running
  pub queued : All (λ r. r.block_table ≡ none) e.scheduler.waiting
  pub uncached : e.pool.prefix_cache ≡ none
  pub books : Books e.pool (tables_of e.scheduler.running)

pub owned-tables :
    (b : ℕ) (before : List Request) (v : Request) (after : List Request)
    → owned b (tables_of (before ++ v ∷ after))
      ≡ count b (blocks_held v.block_table) + owned b (tables_of (before ++ after))
owned-tables b [] v after = refl
owned-tables b (r ∷ before) v after = omega (arith, owned-tables b before v after)

pub All-without {κ} :
    (P : Request → Type κ) (before : List Request) (v : Request) (after : List Request)
    → All P (before ++ v ∷ after)
    → P v × All P (before ++ after)
All-without P [] v after (p, ps) = (p, ps)
All-without P (r ∷ before) v after (p, ps) =
    let (q, qs) = All-without P before v after ps in (q, (p, qs))

pub fresh-without :
    (id : String) (before : List Request) (v : Request) (after : List Request)
    → fresh id (ids (before ++ v ∷ after)) ≡ true
    → (str_eq v.request_id id ≡ false) × (fresh id (ids (before ++ after)) ≡ true)
fresh-without id [] v after h = (ground arith, ground arith)
fresh-without id (r ∷ before) v after h =
    let (other, rest) = fresh-without id before v after (ground arith) in
    (other, ground (arith, rest))

pub Unique-without :
    (before : List Request) (v : Request) (after : List Request)
    → Unique (ids (before ++ v ∷ after))
    → Unique (ids (before ++ after))
Unique-without [] v after (new, u) = u
Unique-without (r ∷ before) v after (new, u) =
    ((fresh-without r.request_id before v after new).1, Unique-without before v after u)

str_eq_refl : (x : String) → str_eq x x ≡ true
str_eq_refl x = ground (arith, eq_iff x x)

pub known_at :
    (before : List Request) (v : Request) (after : List Request)
    → fresh v.request_id (ids (before ++ v ∷ after)) ≡ false
known_at [] v after = rw (str_eq_refl v.request_id) refl
known_at (r ∷ before) v after = ground (arith, known_at before v after)

pub remove_at :
    (before : List Request) (v : Request) (after : List Request)
    → Unique (ids (before ++ v ∷ after))
    → remove v.request_id (before ++ v ∷ after) ≡ some (before ++ after)
unfolding remove
remove_at [] v after u = rw (str_eq_refl v.request_id) refl
remove_at (r ∷ before) v after (new, u) =
    let other : str_eq r.request_id v.request_id ≡ false = ground (
      arith,
      eq_iff r.request_id v.request_id,
      eq_iff v.request_id r.request_id,
      (fresh-without r.request_id before v after new).0,
    ) in
    rw (other, remove_at before v after u) refl
