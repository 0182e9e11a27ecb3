-- ===== src/Serving/Engine/Preemption/Batch.antt =====
-- `_make_decode_room`: it ends, and what is left of the batch fits.
use text.Mathlib.Text.{◌==◌ as str_eq}
use llm_infer.Prelude.{
  ℕ, zero, suc, ◌≤◌, ◌<◌, ◌≡◌, refl, ap, sym, subst, ◌∙◌, inl, inr, ◌⊎◌, String, true, false,
  Bool-cases, Option-cases, none, some, List, [], ◌∷◌, ◌++◌, All, All-Elem, Elem, arith, ltb,
  ltb→lt, not-ltb→le, length, length-append, ok,
}
use llm_infer.KvCache.Allocator.{num_free}
use llm_infer.Serving.Request.{Request}
use llm_infer.Scheduler.{preemption_victim}
use llm_infer.Scheduler.Victims.{AllIneligible, preemption_victim-Victim}
use llm_infer.Serving.Engine.{Engine, find, find_request}
use llm_infer.Serving.Engine.Preemption.{
  preempt, decode_ready, survivors, demand, names_of, room_for, make_decode_room,
}
use llm_infer.Serving.Engine.Preemption.Survivors.{
  survivors_complete, names_of-Elem, Costs, demand-Costs,
}
use llm_infer.Serving.Engine.Preemption.Validity.{EngineIsValid, Live}
use llm_infer.Serving.Engine.Preemption.Victims.{preempt-Preempted}

find-Elem : (id : String) (rs : List Request) (r : Request) → find id rs ≡ some r → Elem r rs
unfolding find
find-Elem id [] r h = absurd (ground arith)
find-Elem id (q ∷ rs) r h = elim (Bool-cases (str_eq q.request_id id)) [
  | inl here ↦ inl (ground arith)
  | inr there ↦ inr (find-Elem id rs r (ground arith))
]

find_request-Elem :
    (id : String) (e : Engine) (r : Request)
    → find_request id e ≡ some r
    → Elem r e.scheduler.running ⊎ Elem r e.scheduler.waiting
unfolding find_request
find_request-Elem id e r h = elim (Option-cases (find id e.scheduler.running)) [
  | inl nowhere ↦ inr (find-Elem id e.scheduler.waiting r (ground arith))
  | inr (q, here) ↦ inl (find-Elem id e.scheduler.running r (ground arith))
]

no_table : (r : Request) → r.block_table ≡ none → decode_ready r ≡ false
no_table r h = elim (Bool-cases r.prefilled) [
  | inl ready ↦ rw (ready, h) refl
  | inr fresh ↦ rw (fresh) refl
]

-- A survivor runs.
survivors-running :
    (ids : List String) (e : Engine)
    → EngineIsValid e
    → All (λ r. Elem r e.scheduler.running × (decode_ready r ≡ true)) (survivors ids e)
unfolding survivors
survivors-running [] e h = tt
survivors-running (id ∷ ids) e h =
    let rest = survivors-running ids e h in
    elim (Option-cases (find_request id e)) [
      | inl nowhere ↦ rw (nowhere, survivors) rest
      | inr (r, here) ↦ elim (Bool-cases (decode_ready r)) [
        | inr fresh ↦ rw (here, survivors, fresh) rest
        | inl ready ↦
            let runs : Elem r e.scheduler.running = elim (find_request-Elem id e r here) [
              | inl i ↦ i
              | inr i ↦
                  let bare =
                    All-Elem (λ (q : Request). q.block_table ≡ none) e.scheduler.waiting h.queued
                      i in
                  let none_ready = no_table r bare in absurd (cc)
            ] in
            rw (here, survivors, ready) ((runs, ready), rest)
      ]
    ]

-- With nobody to evict, nobody runs.
nobody_runs : (rs : List Request) → All Live rs → AllIneligible none rs → rs ≡ []
nobody_runs [] l o = refl
nobody_runs (r ∷ rs) ((going, _), l) (no_r, o) = absurd (ground arith)

no_demand :
    (budget : Request → ℕ) (rs : List Request) (e : Engine) (needs : ℕ)
    → All (λ r. Elem r e.scheduler.running × (decode_ready r ≡ true)) rs
    → e.scheduler.running ≡ []
    → Costs budget e rs needs
    → needs ≡ 0
no_demand budget [] e needs all empty costs = costs
no_demand budget (r ∷ rs) e needs ((i, _), all) empty costs = absurd (subst (Elem r) empty i)

still_there :
    (before after : List Request) (v r : Request)
    → Elem r (before ++ after)
    → Elem r (before ++ v ∷ after)
still_there [] after v r i = inr i
still_there (q ∷ before) after v r (inl same) = inl same
still_there (q ∷ before) after v r (inr i) = inr (still_there before after v r i)

-- What is left of the batch is all of it that still runs and is ready, and it can grow.
pub record Fits (budget : Request → ℕ) (names : List String) (e e' : Engine) (batch : List Request)
    : Type 0 where
  pub valid : EngineIsValid e'
  pub stay : (r : Request) → Elem r e'.scheduler.running → Elem r e.scheduler.running
  pub complete :
      (r : Request)
      → Elem r e'.scheduler.running
      → decode_ready r ≡ true
      → Elem r.request_id names
      → Elem r batch
  pub ready : All (λ r. Elem r e'.scheduler.running × (decode_ready r ≡ true)) batch
  pub needs : ℕ
  pub costs : Costs budget e' batch needs
  pub room : needs ≤ num_free e'.pool.allocator

room_for_stops :
    (rounds : ℕ) (budget : Request → ℕ) (ids : List String) (e : Engine) (needs : ℕ)
    → demand budget (survivors ids e) e ≡ ok needs e
    → ltb (num_free e.pool.allocator) needs ≡ false
    → room_for (suc rounds) budget ids e ≡ ok (survivors ids e) e
unfolding room_for
room_for_stops rounds budget ids e needs counted full = rw (counted, room_for, full) refl

room_for_step :
    (rounds : ℕ) (budget : Request → ℕ) (ids : List String) (e e' : Engine) (needs : ℕ)
    (v : Request)
    → demand budget (survivors ids e) e ≡ ok needs e
    → ltb (num_free e.pool.allocator) needs ≡ true
    → preemption_victim none e.scheduler ≡ some v
    → preempt v e ≡ ok tt e'
    → room_for (suc rounds) budget ids e ≡ room_for rounds budget (names_of (survivors ids e)) e'
unfolding room_for
room_for_step rounds budget ids e e' needs v counted short is run =
    rw (counted, room_for, short, is, run) refl

room_for-Fits :
    (rounds : ℕ) (budget : Request → ℕ) (ids : List String) (e : Engine)
    → EngineIsValid e
    → length e.scheduler.running < rounds
    → (e' : Engine) × (batch : List Request) × (room_for rounds budget ids e ≡ ok batch e')
      × Fits budget ids e e' batch
room_for-Fits zero budget ids e h enough = absurd (omega arith)
room_for-Fits (suc rounds) budget ids e h enough =
    let all = survivors-running ids e h in
    let (needs, counted, costs) = demand-Costs budget (survivors ids e) e h all in
    elim (Bool-cases (ltb (num_free e.pool.allocator) needs)) [
      | inr full ↦ (
        e,
        survivors ids e,
        room_for_stops rounds budget ids e needs counted full,
        record {
          valid = h;
          ready = all;
          needs = needs;
          stay = λ r i. i;
          complete = λ r i ready named. survivors_complete ids e r h i ready named;
          costs = costs;
          room = not-ltb→le _ _ full;
        },
      )
      | inl short ↦ elim (preemption_victim-Victim none e.scheduler) [
        | inl (nobody, may_not) ↦
            let empty = nobody_runs e.scheduler.running h.running_live may_not in
            let nothing = no_demand budget (survivors ids e) e needs all empty costs in
            absurd (omega (arith, nothing, ltb→lt _ _ short))
        | inr (v, before, after, is_v, split, _, _) ↦
            let (e₁, run, p) = preempt-Preempted e v before after h split in
            let earlier : (r : Request) → Elem r e₁.scheduler.running → Elem r e.scheduler.running =
              λ r i.
                subst (Elem r) (sym split)
                  (still_there before after v r (subst (Elem r) p.running i)) in
            let (e', batch, rest, done) =
              room_for-Fits rounds budget (names_of (survivors ids e)) e₁ p.valid (
                omega (
                  arith,
                  enough,
                  ap length p.running,
                  ap length split,
                  length-append before after,
                  length-append before (v ∷ after),
                )) in
            (
              e',
              batch,
              room_for_step rounds budget ids e e₁ needs v counted short is_v run ∙ rest,
              record {
                valid = done.valid;
                ready = done.ready;
                needs = done.needs;
                costs = done.costs;
                room = done.room;
                stay = λ r i. earlier r (done.stay r i);
                complete = λ r i ready named. done.complete r i ready (
                    names_of-Elem (survivors ids e) r
                      (survivors_complete ids e r h (earlier r (done.stay r i)) ready named));
              },
            )
      ]
    ]

-- For a valid engine and whatever budgets and batch, `_make_decode_room` ends without an error. The
-- engine is valid then, and only requests that ran before run. The requests it returns run, are
-- prefilled and have a table; every request of the batch that still runs, is prefilled and has a
-- table is among them; and the appends of their budgets together, each as `append_cost` counts it
-- on the pool as it is then, cost no more blocks than are free.
pub make_decode_room-Fits :
    (budget : Request → ℕ) (ids : List String) (e : Engine)
    → EngineIsValid e
    → (e' : Engine) × (batch : List Request) × (make_decode_room budget ids e ≡ ok batch e')
      × Fits budget ids e e' batch
unfolding make_decode_room
make_decode_room-Fits budget ids e h =
    room_for-Fits (suc (length e.scheduler.running)) budget ids e h (omega arith)
