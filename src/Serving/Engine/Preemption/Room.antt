-- ===== src/Serving/Engine/Preemption/Room.antt =====
-- The loops that evict until there is room: they end, and never run out of victims.
use text.Mathlib.Text.{◌==◌ as str_eq}
use text.Mathlib.TextEquality.{eq_iff}
use llm_infer.Prelude.{
  ℕ, zero, suc, ◌+◌, ◌≤◌, ◌<◌, ◌≡◌, refl, ap, sym, subst, ◌∙◌, inl, inr, String, true, Bool-cases,
  Option, some, List, [], ◌∷◌, ◌++◌, All, Elem, arith, ltb, ltb→lt, not-ltb→le, length,
  length-append, ok,
}
use llm_infer.KvCache.Allocator.{num_free}
use llm_infer.KvCache.Allocator.Validity.{Accounts}
use llm_infer.KvCache.PrefixCache.Validity.{blocks_of}
use llm_infer.KvCache.Pool.Budget.{cached, free_or_live}
use llm_infer.Serving.Budget.{lengths, live_blocks-le}
use llm_infer.Serving.Request.{Request}
use llm_infer.Scheduler.{eligible, preemption_victim}
use llm_infer.Scheduler.Books.{Unique, ids}
use llm_infer.Scheduler.Victims.{AllIneligible, preemption_victim-Victim}
use llm_infer.Serving.Engine.{Engine}
use llm_infer.Serving.Engine.Preemption.{blocks_to_grow, preempt, free_until, ensure_pool_room}
use llm_infer.Serving.Engine.Preemption.Validity.{EngineIsValid, Live, blocks_held, tables_of}
use llm_infer.Serving.Engine.Preemption.Victims.{preempt-Preempted}

-- What the tables of the running requests do not hold is free.
pub free_beside_tables :
    (e : Engine)
    → EngineIsValid e
    → e.pool.allocator.num_blocks
      ≤ num_free e.pool.allocator + lengths (tables_of e.scheduler.running)
free_beside_tables e h =
    let ac : Accounts e.pool.allocator (tables_of e.scheduler.running) =
      subst (λ c. Accounts e.pool.allocator (blocks_of (cached c) ++ tables_of e.scheduler.running))
        h.uncached h.books.accounts in
    omega (
      arith,
      free_or_live e.pool.allocator (tables_of e.scheduler.running) ac,
      live_blocks-le e.pool.allocator.num_blocks (tables_of e.scheduler.running),
    )

-- When nobody else may be evicted, nobody else runs.
alone :
    (r : Request) (rs : List Request)
    → All Live rs
    → AllIneligible (some r.request_id) rs
    → Unique (ids rs)
    → Elem r rs
    → tables_of rs ≡ blocks_held r.block_table ∷ []
alone r [] l o u i = absurd i
alone r (w ∷ []) l o u (inl same) = ap (λ (q : Request). blocks_held q.block_table ∷ []) same
alone r (w ∷ []) l o u (inr i) = absurd i
alone r (w ∷ q ∷ rs) ((going, _), ((going', _), _)) (no_w, (no_q, _)) (new, _) i =
    let w_is : str_eq w.request_id r.request_id ≡ true = ground (arith) in
    let q_is : str_eq q.request_id r.request_id ≡ true = ground (arith) in
    absurd (
      ground (
        arith,
        eq_iff w.request_id r.request_id,
        eq_iff q.request_id r.request_id,
        eq_iff q.request_id w.request_id,
      ))

still_there :
    (r v : Request) (before after : List Request)
    → eligible (some r.request_id) v ≡ true
    → Elem r (before ++ v ∷ after)
    → Elem r (before ++ after)
still_there r v [] after may (inl same) =
    let is : str_eq v.request_id r.request_id ≡ true =
      (eq_iff v.request_id r.request_id).1 (ap (λ (q : Request). q.request_id) same) in
    absurd (ground (arith))
still_there r v [] after may (inr i) = i
still_there r v (w ∷ before) after may (inl same) = inl same
still_there r v (w ∷ before) after may (inr i) = inr (still_there r v before after may i)

free_until_step :
    (rounds need : ℕ) (exclude : Option String) (e e' : Engine) (v : Request)
    → ltb (num_free e.pool.allocator) need ≡ true
    → preemption_victim exclude e.scheduler ≡ some v
    → preempt v e ≡ ok tt e'
    → free_until (suc rounds) need exclude e ≡ free_until rounds need exclude e'
unfolding free_until
free_until_step rounds need exclude e e' v short is run = rw (short, free_until, is, run) refl

module _ (r : Request) (need : ℕ) where
  -- There is room, and the request still runs, untouched.
  pub record Roomy (e e' : Engine) : Type 0 where
    pub valid : EngineIsValid e'
    pub room : need ≤ num_free e'.pool.allocator
    pub running : Elem r e'.scheduler.running

  free_until-Roomy :
      (rounds : ℕ) (e : Engine)
      → EngineIsValid e
      → Elem r e.scheduler.running
      → need + length (blocks_held r.block_table) ≤ e.pool.allocator.num_blocks
      → length e.scheduler.running < rounds
      → (e' : Engine) × (free_until rounds need (some r.request_id) e ≡ ok tt e') × Roomy e e'
  unfolding free_until
  free_until-Roomy zero e h i fits enough = absurd (omega arith)
  free_until-Roomy (suc rounds) e h i fits enough =
      elim (Bool-cases (ltb (num_free e.pool.allocator) need)) [
        | inr full ↦ (
          e,
          rw (full, free_until) refl,
          record { valid = h; room = not-ltb→le _ _ full; running = i },
        )
        | inl short ↦ elim (preemption_victim-Victim (some r.request_id) e.scheduler) [
          | inl (nobody, all) ↦
              let one = alone r e.scheduler.running h.running_live all h.unique i in
              absurd (omega (arith, free_beside_tables e h, ltb→lt _ _ short, fits, ap lengths one))
          | inr (v, before, after, is_v, split, may, _) ↦
              let (e₁, run, p) = preempt-Preempted e v before after h split in
              let i₁ : Elem r e₁.scheduler.running =
                subst (Elem r) (sym p.running)
                  (still_there r v before after may (subst (Elem r) split i)) in
              let (e', rest, done) =
                free_until-Roomy rounds e₁ p.valid i₁ (omega (arith, fits, p.sized)) (
                  omega (
                    arith,
                    enough,
                    ap length p.running,
                    ap length split,
                    length-append before after,
                    length-append before (v ∷ after),
                  )) in
              (
                e',
                free_until_step rounds need (some r.request_id) e e₁ v short is_v run ∙ rest,
                record { valid = done.valid; room = done.room; running = done.running },
              )
        ]
      ]

-- For a valid engine and a running request that needs, as `_blocks_to_grow` counts it, a number of
-- blocks that fits in the whole pool together with its own, `_ensure_pool_room` ends without an
-- error: so many blocks are free, the engine is valid, and the request still runs, untouched.
pub ensure_pool_room-Roomy :
    (e : Engine) (r : Request) (n need : ℕ)
    → EngineIsValid e
    → Elem r e.scheduler.running
    → blocks_to_grow r n e ≡ ok need e
    → need + length (blocks_held r.block_table) ≤ e.pool.allocator.num_blocks
    → (e' : Engine) × (ensure_pool_room r n e ≡ ok tt e') × Roomy r need e e'
unfolding ensure_pool_room
ensure_pool_room-Roomy e r n need h i grows fits =
    let (e', run, roomy) =
      free_until-Roomy r need (suc (length e.scheduler.running)) e h i fits (omega arith) in
    (e', rw (grows, ensure_pool_room) run, roomy)
