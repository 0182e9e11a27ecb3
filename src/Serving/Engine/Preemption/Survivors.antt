-- ===== src/Serving/Engine/Preemption/Survivors.antt =====
-- The requests that a batch still has, and the blocks that they need.
use text.Mathlib.Text.{◌==◌ as str_eq}
use text.Mathlib.TextEquality.{eq_iff}
use llm_infer.Prelude.{
  ℕ, ◌+◌, ◌≡◌, refl, ap, sym, subst, ◌∙◌, inl, inr, String, true, false, Bool-cases, Option-cases,
  some, List, [], ◌∷◌, All, Elem, arith, ok,
}
use llm_infer.KvCache.BlockTable.{BlockTable}
use llm_infer.KvCache.Paged.{append_cost}
use llm_infer.Serving.Request.{Request}
use llm_infer.Scheduler.Books.{Unique, fresh, ids, str_eq_swap}
use llm_infer.Serving.Engine.{Engine, find, find_request}
use llm_infer.Serving.Engine.Preemption.{blocks_to_grow, decode_ready, survivors, demand, names_of}
use llm_infer.Serving.Engine.Preemption.Growth.{append_cost-ok, held-InPool, InPool}
use llm_infer.Serving.Engine.Preemption.Validity.{EngineIsValid, blocks_held}

fresh_other :
    (id : String) (rs : List Request) (r : Request)
    → fresh id (ids rs) ≡ true
    → Elem r rs
    → str_eq id r.request_id ≡ false
fresh_other id [] r new i = absurd i
fresh_other id (q ∷ rs) r new (inl same) =
    let other : str_eq q.request_id id ≡ false = ground arith in
    ap (λ (x : Request). str_eq id x.request_id) (sym same) ∙ str_eq_swap q.request_id id other
fresh_other id (q ∷ rs) r new (inr i) = fresh_other id rs r (ground arith) i

find-running :
    (rs : List Request) (r : Request) → Unique (ids rs) → Elem r rs → find r.request_id rs ≡ some r
unfolding find
find-running [] r u i = absurd i
find-running (q ∷ rs) r u (inl same) =
    subst (λ (x : Request). find x.request_id (q ∷ rs) ≡ some x) same
      (rw ((eq_iff q.request_id q.request_id).1 refl) refl)
find-running (q ∷ rs) r (new, u) (inr i) =
    rw (fresh_other q.request_id rs r new i) (find-running rs r u i)

-- A ready request behind one of the references survives.
survivors-Elem :
    (names : List String) (e : Engine) (r : Request)
    → Elem r.request_id names
    → find_request r.request_id e ≡ some r
    → decode_ready r ≡ true
    → Elem r (survivors names e)
unfolding survivors
survivors-Elem [] e r named here ready = absurd named
survivors-Elem (id ∷ names) e r (inl same) here ready =
    let found : find_request id e ≡ some r = ap (λ n. find_request n e) same ∙ here in
    rw (found, survivors, ready) (inl refl)
survivors-Elem (id ∷ names) e r (inr named) here ready =
    let rest = survivors-Elem names e r named here ready in
    elim (Option-cases (find_request id e)) [
      | inl nowhere ↦ rw (nowhere, survivors) rest
      | inr (q, there) ↦ elim (Bool-cases (decode_ready q)) [
        | inl stays ↦ rw (there, survivors, stays) (inr rest)
        | inr goes ↦ rw (there, survivors, goes) rest
      ]
    ]

pub survivors_complete :
    (names : List String) (e : Engine) (r : Request)
    → EngineIsValid e
    → Elem r e.scheduler.running
    → decode_ready r ≡ true
    → Elem r.request_id names
    → Elem r (survivors names e)
unfolding find_request
survivors_complete names e r h runs ready named =
    let here : find_request r.request_id e ≡ some r =
      rw (find-running e.scheduler.running r h.unique runs, find_request) refl in
    survivors-Elem names e r named here ready

pub names_of-Elem : (rs : List Request) (r : Request) → Elem r rs → Elem r.request_id (names_of rs)
names_of-Elem [] r i = absurd i
names_of-Elem (q ∷ rs) r (inl same) = inl (ap (λ (x : Request). x.request_id) same)
names_of-Elem (q ∷ rs) r (inr i) = inr (names_of-Elem rs r i)

-- What the appends of the requests cost together, each for its own budget.
abbrev pub Costs : (Request → ℕ) → Engine → List Request → ℕ → Type 0
Costs budget e [] n = n ≡ 0
Costs budget e (r ∷ rs) n =
    (t : BlockTable) × (need more : ℕ) × (r.block_table ≡ some t)
    × (append_cost t (budget r) e.pool.allocator ≡ ok need e.pool.allocator)
    × (n ≡ need + more)
    × Costs budget e rs more

ready_table : (r : Request) → decode_ready r ≡ true → (t : BlockTable) × (r.block_table ≡ some t)
ready_table r ready = elim (Option-cases r.block_table) [
  | inr found ↦ found
  | inl bare ↦ elim (Bool-cases r.prefilled) [
    | inl done ↦ let none_ready : decode_ready r ≡ false = rw (done, bare) refl in absurd (cc)
    | inr fresh ↦ let none_ready : decode_ready r ≡ false = rw (fresh) refl in absurd (cc)
  ]
]

grows_lem :
    (r : Request) (t : BlockTable) (n need : ℕ) (e : Engine)
    → r.block_table ≡ some t
    → append_cost t n e.pool.allocator ≡ ok need e.pool.allocator
    → blocks_to_grow r n e ≡ ok need e
unfolding blocks_to_grow
grows_lem r t n need e table run = simp (table, run, blocks_to_grow)

pub demand-Costs :
    (budget : Request → ℕ) (rs : List Request) (e : Engine)
    → EngineIsValid e
    → All (λ r. Elem r e.scheduler.running × (decode_ready r ≡ true)) rs
    → (needs : ℕ) × (demand budget rs e ≡ ok needs e) × Costs budget e rs needs
unfolding demand
demand-Costs budget [] e h all = (0, refl, refl)
demand-Costs budget (r ∷ rs) e h ((i, ready), all) =
    let (t, table) = ready_table r ready in
    let (need, cost) =
      append_cost-ok t (budget r) e.pool.allocator
        (subst (λ o. InPool e.pool.allocator (blocks_held o)) table (held-InPool e r h i)) in
    let (needs, rest, costs) = demand-Costs budget rs e h all in
    let grows = grows_lem r t (budget r) need e table cost in
    (need + needs, rw (grows, demand, rest) refl, (t, need, needs, table, cost, refl, costs))
