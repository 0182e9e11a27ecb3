-- ===== src/Serving/Engine/Preemption.antt =====
-- llm_infer/serving/engine_preemption.py, and `_make_decode_room` of engine_decode.py: running requests
-- are evicted until a request, or a decode batch, can grow.
pub mod Validity
pub mod Victims
pub mod Growth
pub mod Room
pub mod Batch
pub mod Survivors
use llm_infer.Prelude.{
  ℕ, zero, suc, ◌+◌, String, Bool, true, false, ◌&&◌, Option, none, some, List, [], ◌∷◌, ltb,
  length, if◌then◌else◌, out_of_blocks, out_of_rounds, Outcome, ok, raise,
}
use llm_infer.KvCache.Allocator.{num_free}
use llm_infer.KvCache.BlockTable.{ceil_div}
use llm_infer.KvCache.Paged.{append_cost}
use llm_infer.Serving.Request.{Request, reset_for_recompute}
use llm_infer.Scheduler.{requeue, preemption_victim}
use llm_infer.Serving.Engine.{Engine, find_request, store_request, free_block_table}

unfoldable pub blocks_to_grow : Request → ℕ → Engine → Outcome Engine ℕ
unfolding append_cost
blocks_to_grow r new_tokens e = elim r.block_table [
  | none ↦ ok (ceil_div new_tokens e.scheduler.block_size) e
  | some t ↦ elim (append_cost t new_tokens e.pool.allocator) [
    | ok need _ ↦ ok need e
    | raise err _ ↦ raise err e
  ]
]

-- The table of a victim that has one is freed.
unfoldable pub free_victim : Request → Engine → Outcome Engine Request
unfolding free_block_table
free_victim victim e = elim victim.block_table [
  | none ↦ ok victim e
  | some t ↦ elim (free_block_table t e) [
    | ok t' e' ↦ ok (record victim { block_table = some t' }) e'
    | raise err e' ↦ raise err e'
  ]
]

unfoldable pub preempt : Request → Engine → Outcome Engine (Unit {0})
unfolding free_victim reset_for_recompute requeue
preempt victim e =
    elim (free_victim victim (record e { preemption_count = suc e.preemption_count })) [
      | raise err e' ↦ raise err e'
      | ok freed e' ↦ elim (reset_for_recompute freed) [
        | raise err _ ↦ raise err (store_request freed e')
        | ok _ reset ↦ elim (requeue reset e'.scheduler) [
          | ok _ s ↦ ok tt (record e' { scheduler = s })
          | raise err s ↦ raise err (store_request reset (record e' { scheduler = s }))
        ]
      ]
    ]

-- The loop of `_ensure_pool_room`, for at most `rounds` rounds.
unfoldable pub free_until : ℕ → ℕ → Option String → Engine → Outcome Engine (Unit {0})
unfolding preempt
free_until zero need exclude e = raise out_of_rounds e
free_until (suc rounds) need exclude e = elim (ltb (num_free e.pool.allocator) need) [
  | false ↦ ok tt e
  | true ↦ elim (preemption_victim exclude e.scheduler) [
    | none ↦ raise out_of_blocks e
    | some victim ↦ elim (preempt victim e) [
      | ok _ e' ↦ free_until rounds need exclude e'
      | raise err e' ↦ raise err e'
    ]
  ]
]

-- Each round takes a request from the running ones, so one round more than these is enough.
unfoldable pub ensure_pool_room : Request → ℕ → Engine → Outcome Engine (Unit {0})
unfolding blocks_to_grow free_until
ensure_pool_room r new_tokens e = elim (blocks_to_grow r new_tokens e) [
  | ok need e' ↦ free_until (suc (length e'.scheduler.running)) need (some r.request_id) e'
  | raise err e' ↦ raise err e'
]

-- `r.prefilled and r.block_table is not None`
abbrev pub decode_ready : Request → Bool
decode_ready r = r.prefilled && (elim r.block_table [ some t ↦ true | none ↦ false ])

-- The requests behind the references that are still ready.
unfoldable pub survivors : List String → Engine → List Request
unfolding find_request
survivors [] e = []
survivors (id ∷ ids) e = elim (find_request id e) [
  | none ↦ survivors ids e
  | some r ↦ let rest = survivors ids e in if decode_ready r then r ∷ rest else rest
]

-- The sum of what the survivors need, each for its own budget.
unfoldable pub demand : (Request → ℕ) → List Request → Engine → Outcome Engine ℕ
unfolding blocks_to_grow
demand budget [] e = ok 0 e
demand budget (r ∷ rs) e = elim (blocks_to_grow r (budget r) e) [
  | raise err e' ↦ raise err e'
  | ok need e' ↦ elim (demand budget rs e') [
    | raise err e'' ↦ raise err e''
    | ok needs e'' ↦ ok (need + needs) e''
  ]
]

abbrev names_of : List Request → List String
names_of [] = []
names_of (r ∷ rs) = r.request_id ∷ names_of rs

-- The loop of `_make_decode_room`, for at most `rounds` rounds.
unfoldable pub room_for : ℕ → (Request → ℕ) → List String → Engine → Outcome Engine (List Request)
unfolding demand survivors preempt
room_for zero budget ids e = raise out_of_rounds e
room_for (suc rounds) budget ids e = elim (demand budget (survivors ids e) e) [
  | raise err e' ↦ raise err e'
  | ok needs e' ↦ elim (ltb (num_free e'.pool.allocator) needs) [
    | false ↦ ok (survivors ids e') e'
    | true ↦ elim (preemption_victim none e'.scheduler) [
      | none ↦ raise out_of_blocks e'
      | some victim ↦ elim (preempt victim e') [
        | ok _ e'' ↦ room_for rounds budget (names_of (survivors ids e')) e''
        | raise err e'' ↦ raise err e''
      ]
    ]
  ]
]

-- `budget` is `_decode_budget`, and `ids` the ids of the batch.
unfoldable pub make_decode_room :
    (Request → ℕ) → List String → Engine → Outcome Engine (List Request)
unfolding room_for
make_decode_room budget ids e = room_for (suc (length e.scheduler.running)) budget ids e
