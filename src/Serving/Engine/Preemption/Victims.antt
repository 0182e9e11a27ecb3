-- ===== src/Serving/Engine/Preemption/Victims.antt =====
-- Evicting one running request, on the engine's accounts.
use llm_infer.Prelude.{
  ℕ, suc, ◌≤◌, ◌≡◌, refl, ap, sym, subst, ◌∙◌, String, false, Option, none, some, some_cancel, List,
  [], ◌∷◌, ◌++◌, All, arith, count, owned, Outcome, ok, raise,
}
use llm_infer.KvCache.Allocator.{Allocator, num_free, free}
use llm_infer.KvCache.Pool.{Pool}
use llm_infer.KvCache.Pool.Budget.{Books}
use llm_infer.KvCache.Pool.Sharing.{Books-same, free-Books}
use llm_infer.KvCache.BlockTable.{BlockTable, free_blocks}
use llm_infer.Serving.Request.{Request, reset_for_recompute}
use llm_infer.Scheduler.{Scheduler, remove, requeue}
use llm_infer.Scheduler.Books.{Unique, fresh, ids, release-Balanced, requeue_lem}
use llm_infer.Serving.Engine.{Engine, free_block_table}
use llm_infer.Serving.Engine.Preemption.{free_victim, preempt}
use llm_infer.Serving.Engine.Preemption.Validity.{
  blocks_held, tables_of, TableOk, Live, EngineIsValid, owned-tables, All-without, Unique-without,
  known_at, remove_at,
}

-- What the eviction leaves of the request.
abbrev pub evicted : Request → Request
evicted r = record r { block_table = none; prompt_cached_tokens = 0; prefilled = false }

-- What an allocator call leaves in the prefix cache.
same_cache :
    {A : Type 0} (o : Outcome Allocator A) (p p' : Pool) (x : A)
    → elim o [
      | ok y a ↦ ok y (record p { allocator = a })
      | raise e a ↦ raise e (record p { allocator = a })
    ]
      ≡ ok x p'
    → p'.prefix_cache ≡ p.prefix_cache
same_cache (ok y a) p p' x h = ground arith
same_cache (raise e a) p p' x h = absurd (ground arith)

-- What freeing the blocks of one table leaves.
pub record Freed (p p' : Pool) (others : List (List ℕ)) : Type 0 where
  pub books : Books p' others
  pub grows : num_free p.allocator ≤ num_free p'.allocator
  pub sized : p'.allocator.num_blocks ≡ p.allocator.num_blocks
  pub cache : p'.prefix_cache ≡ p.prefix_cache

free_blocks-Freed :
    (p : Pool) (others : List (List ℕ)) (blocks : List ℕ) (owner : Option String)
    → ((b : ℕ) → count b blocks ≤ 1)
    → Books p (blocks ∷ others)
    → (p' : Pool) × (free_blocks blocks owner p ≡ ok tt p') × Freed p p' others
free_blocks-Freed p others [] owner d b =
    let b' = Books-same ([] ∷ others) others (λ x. omega arith) b in
    (p, refl, record { books = b'; grows = omega arith; sized = refl; cache = refl })
free_blocks-Freed p others (x ∷ xs) owner d b =
    let (p', run, books, grows, sized, _) = free-Books p (x ∷ xs) others b d owner in
    (
      p',
      run,
      record {
        books = books;
        grows = grows;
        sized = sized;
        cache = same_cache (free (x ∷ xs) owner p.allocator) p p' tt run;
      },
    )

free_block_table_lem :
    (t : BlockTable) (e : Engine) (p' : Pool)
    → free_blocks t.blocks t.owner e.pool ≡ ok tt p'
    → free_block_table t e ≡ ok (record t { blocks = []; filled = 0 }) (record e { pool = p' })
unfolding free_block_table llm_infer.KvCache.BlockTable.release
free_block_table_lem t e p' h = rw (h, free_block_table) refl

pub free_victim-Freed :
    (v : Request) (o : Option BlockTable) (e : Engine) (others : List (List ℕ))
    → TableOk o
    → Books e.pool (blocks_held o ∷ others)
    → (t' : Option BlockTable) × (p' : Pool) × (free_victim (record v { block_table = o }) e
        ≡ ok (record v { block_table = t' }) (record e { pool = p' }))
      × Freed e.pool p' others
unfolding free_victim
free_victim-Freed v none e others table books = (
  none,
  e.pool,
  refl,
  record {
    books = Books-same ([] ∷ others) others (λ x. omega arith) books;
    grows = omega arith;
    sized = refl;
    cache = refl;
  },
)
free_victim-Freed v (some t) e others table books =
    let (p', run, f) = free_blocks-Freed e.pool others t.blocks t.owner table.distinct books in
    (
      some (record t { blocks = []; filled = 0 }),
      p',
      rw (free_block_table_lem t e p' run, free_victim) refl,
      f,
    )

-- One eviction.
pub record Preempted (e e' : Engine) (v : Request) (before after : List Request) : Type 0 where
  pub valid : EngineIsValid e'
  pub running : e'.scheduler.running ≡ before ++ after
  pub waiting : e'.scheduler.waiting ≡ evicted v ∷ e.scheduler.waiting
  pub counted : e'.preemption_count ≡ suc e.preemption_count
  pub grows : num_free e.pool.allocator ≤ num_free e'.pool.allocator
  pub sized : e'.pool.allocator.num_blocks ≡ e.pool.allocator.num_blocks

reset_lem :
    (r : Request) (t : Option BlockTable)
    → r.finished ≡ false
    → reset_for_recompute (record r { block_table = t }) ≡ ok tt (evicted r)
unfolding reset_for_recompute
reset_lem r t going = rw (going) refl

preempt_lem :
    (v freed reset : Request) (e e' : Engine) (s : Scheduler)
    → free_victim v (record e { preemption_count = suc e.preemption_count }) ≡ ok freed e'
    → reset_for_recompute freed ≡ ok tt reset
    → requeue reset e'.scheduler ≡ ok tt s
    → preempt v e ≡ ok tt (record e' { scheduler = s })
unfolding preempt
preempt_lem v freed reset e e' s a b c = simp (a, b, c, preempt)

-- Preempting a running request of a valid engine never raises and keeps the engine valid: the
-- request leaves the running ones, whose order stays, and stands first in the queue with its
-- tokens, without table and unprefilled; the preemption is counted, and no fewer blocks are free.
pub preempt-Preempted :
    (e : Engine) (v : Request) (before after : List Request)
    → EngineIsValid e
    → e.scheduler.running ≡ before ++ v ∷ after
    → (e' : Engine) × (preempt v e ≡ ok tt e') × Preempted e e' v before after
preempt-Preempted e v before after h split =
    let s = e.scheduler in
    let known : fresh v.request_id (ids s.running) ≡ false =
      subst (λ rs. fresh v.request_id (ids rs) ≡ false) (sym split) (known_at before v after) in
    let (s', budget, released, balanced, removed, _, _, same) =
      release-Balanced s (evicted v) h.balanced known in
    let left : s'.running ≡ before ++ after = some_cancel (
      sym removed
      ∙ ap (remove v.request_id) split
      ∙ remove_at before v after (subst (λ rs. Unique (ids rs)) split h.unique)) in
    let (live_v, live) = All-without Live before v after (subst (All Live) split h.running_live) in
    let own : Books e.pool (blocks_held v.block_table ∷ tables_of (before ++ after)) =
      Books-same (tables_of s.running) _
        (λ b. ap (λ rs. owned b (tables_of rs)) split ∙ owned-tables b before v after) h.books in
    let counted : Engine = record e { preemption_count = suc e.preemption_count } in
    let (t', p', freed, f) =
      free_victim-Freed v v.block_table counted (tables_of (before ++ after)) live_v.1 own in
    (
      record counted { pool = p'; scheduler = record s' { waiting = evicted v ∷ s'.waiting } },
      preempt_lem v (record v { block_table = t' }) (evicted v) e (record counted { pool = p' }) _
          freed (reset_lem v t' live_v.0) (requeue_lem s s' (evicted v) released),
      record {
        valid = record {
          balanced = record { charged = balanced.charged; keyed = balanced.keyed };
          unique =
              subst (λ rs. Unique (ids rs)) (sym left)
                (Unique-without before v after (subst (λ rs. Unique (ids rs)) split h.unique));
          running_live = subst (All Live) (sym left) live;
          queued = (refl, subst (All (λ r. r.block_table ≡ none)) (sym same) h.queued);
          uncached = f.cache ∙ h.uncached;
          books = subst (λ rs. Books p' (tables_of rs)) (sym left) f.books;
        };
        running = left;
        waiting = ap (◌∷◌ (evicted v)) same;
        counted = refl;
        grows = f.grows;
        sized = f.sized;
      },
    )
