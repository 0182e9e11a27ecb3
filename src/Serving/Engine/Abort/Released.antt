-- ===== src/Serving/Engine/Abort/Released.antt =====
-- Aborting a running request gives back all that it holds.
use text.Mathlib.Text.{◌==◌ as str_eq}
use text.Mathlib.TextEquality.{eq_iff}
use llm_infer.Prelude.{
  ◌≤◌, ◌≡◌, refl, ap, sym, subst, ◌∙◌, true, false, none, some, some_cancel, List, [], ◌∷◌, ◌++◌,
  All, arith, owned, ok,
}
use llm_infer.KvCache.Allocator.{num_free}
use llm_infer.KvCache.Pool.Budget.{Books}
use llm_infer.KvCache.Pool.Sharing.{Books-same}
use llm_infer.Serving.Request.{Request}
use llm_infer.Scheduler.{Scheduler, remove, release}
use llm_infer.Scheduler.Books.{Unique, fresh, ids, release-Balanced}
use llm_infer.Serving.Engine.{Engine, find, names_member}
use llm_infer.Serving.Engine.Preemption.{free_victim}
use llm_infer.Serving.Engine.Preemption.Validity.{
  blocks_held, tables_of, Live, EngineIsValid, owned-tables, All-without, Unique-without,
  fresh-without, known_at, remove_at,
}
use llm_infer.Serving.Engine.Preemption.Victims.{free_victim-Freed}
use llm_infer.Serving.Engine.Abort.{drop_running, abort}
use llm_infer.Serving.Windows.{without}

pub record Aborted (e e' : Engine) (v : Request) (before after : List Request) : Type 0 where
  pub valid : EngineIsValid e'
  pub running : e'.scheduler.running ≡ before ++ after
  pub waiting : e'.scheduler.waiting ≡ e.scheduler.waiting
  pub registered : e'.registered ≡ without v.request_id e.registered
  pub grows : num_free e.pool.allocator ≤ num_free e'.pool.allocator
  pub sized : e'.pool.allocator.num_blocks ≡ e.pool.allocator.num_blocks

find_at :
    (before : List Request) (v : Request) (after : List Request)
    → Unique (ids (before ++ v ∷ after))
    → find v.request_id (before ++ v ∷ after) ≡ some v
unfolding find
find_at [] v after u = ground (arith, eq_iff v.request_id v.request_id)
find_at (r ∷ before) v after (new, u) =
    let other : str_eq r.request_id v.request_id ≡ false = ground (
      arith,
      eq_iff r.request_id v.request_id,
      eq_iff v.request_id r.request_id,
      (fresh-without r.request_id before v after new).0,
    ) in
    rw (other, find_at before v after u) refl

abort_lem :
    (e e' : Engine) (v freed : Request) (s : Scheduler)
    → names_member v.request_id e.registered ≡ true
    → find v.request_id e.scheduler.waiting ≡ none
    → find v.request_id e.scheduler.running ≡ some v
    → free_victim v (record e { registered = without v.request_id e.registered }) ≡ ok freed e'
    → release freed e'.scheduler ≡ ok tt s
    → abort v.request_id e ≡ ok true (record e' { scheduler = s })
unfolding abort drop_running
abort_lem e e' v freed s known away here free_it let_go =
    simp (known, away, here, free_it, let_go, abort, drop_running)

-- Once deferred windows are drained, aborting a running request of a valid engine in preemption or
-- reserve mode without a prefix cache, whose id is registered and does not wait, never raises and
-- keeps the engine valid: the request is no longer registered, the others run in the same order,
-- the queue stays, its budget and its blocks are given back, so that no fewer blocks are free, and
-- the pool has its size.
pub abort-Aborted :
    (e : Engine) (v : Request) (before after : List Request)
    → EngineIsValid e
    → e.scheduler.running ≡ before ++ v ∷ after
    → names_member v.request_id e.registered ≡ true
    → find v.request_id e.scheduler.waiting ≡ none
    → (e' : Engine) × (abort v.request_id e ≡ ok true e') × Aborted e e' v before after
abort-Aborted e v before after h split known away =
    let left : Engine = record e { registered = without v.request_id e.registered } in
    let unique = subst (λ rs. Unique (ids rs)) split h.unique in
    let here : find v.request_id e.scheduler.running ≡ some v =
      ap (find v.request_id) split ∙ find_at before v after unique in
    let runs : fresh v.request_id (ids e.scheduler.running) ≡ false =
      subst (λ rs. fresh v.request_id (ids rs) ≡ false) (sym split) (known_at before v after) in
    let (live_v, live) = All-without Live before v after (subst (All Live) split h.running_live) in
    let own : Books e.pool (blocks_held v.block_table ∷ tables_of (before ++ after)) =
      Books-same (tables_of e.scheduler.running) _
        (λ b. ap (λ rs. owned b (tables_of rs)) split ∙ owned-tables b before v after) h.books in
    let (t', p', freed, f) =
      free_victim-Freed v v.block_table left (tables_of (before ++ after)) live_v.1 own in
    let (s', budget, let_go, balanced, removed, _, _, same) =
      release-Balanced e.scheduler (record v { block_table = t' }) h.balanced runs in
    let rest : s'.running ≡ before ++ after =
      some_cancel
        (sym removed ∙ ap (remove v.request_id) split ∙ remove_at before v after unique) in
    (
      record left { pool = p'; scheduler = s' },
      abort_lem e (record left { pool = p' }) v (record v { block_table = t' }) s' known away here
          freed let_go,
      record {
        valid = record {
          balanced = balanced;
          unique = subst (λ rs. Unique (ids rs)) (sym rest) (Unique-without before v after unique);
          running_live = subst (All Live) (sym rest) live;
          queued = subst (All (λ r. r.block_table ≡ none)) (sym same) h.queued;
          uncached = f.cache ∙ h.uncached;
          books = subst (λ rs. Books p' (tables_of rs)) (sym rest) f.books;
        };
        running = rest;
        waiting = same;
        registered = refl;
        grows = f.grows;
        sized = f.sized;
      },
    )
