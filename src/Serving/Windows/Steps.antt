-- ===== src/Serving/Windows/Steps.antt =====
-- A deferred decode step keeps the tokens on the device greedy.
use llm_infer.Prelude.{
  ℕ, ◌+◌, ◌≡◌, refl, ap, sym, subst, ◌∙◌, inl, inr, String, true, Bool-cases, Option-cases, none,
  some, List, [], ◌∷◌, ◌++◌, arith, ok,
}
use llm_infer.Serving.Request.{Request}
use llm_infer.Serving.Request.Recording.{served}
use llm_infer.Serving.Engine.{find}
use llm_infer.Serving.Windows.{Windows, drain_decode_window}
use llm_infer.Serving.Windows.Batches.{names_eq, unfinished, drained, settle_batch}
use llm_infer.Serving.Windows.Columns.{GreedyColumns}
use llm_infer.Serving.Windows.Draining.{ids_of, matrix_of, served-add}
use llm_infer.Serving.Windows.Exactness.{window_of, Deferred, drain_decode_window-Drained}
use llm_infer.Scheduler.Books.{Unique, fresh}

-- The tokens on the device stay greedy, and each request has been served for some more tokens.
pub record Kept (model : List ℕ → ℕ) (w w' : Windows) : Type 0 where
  pub deferred : Deferred model w'
  pub advanced :
      (id : String) (r : Request)
      → find id w.requests ≡ some r
      → (k : ℕ) × (find id w'.requests ≡ some (served model k r))

pub Kept-refl : (model : List ℕ → ℕ) (w : Windows) → Deferred model w → Kept model w w
unfolding served
Kept-refl model w h = record { deferred = h; advanced = λ id r here. (0, here) }

pub Kept-trans :
    (model : List ℕ → ℕ) (w w₁ w₂ : Windows) → Kept model w w₁ → Kept model w₁ w₂ → Kept model w w₂
Kept-trans model w w₁ w₂ a b = record {
  deferred = b.deferred;
  advanced = λ id r here.
      let (n, mid) = a.advanced id r here in
      let (m, end) = b.advanced id (served model n r) mid in
      (n + m, end ∙ ap some (sym (served-add model n m r)));
}

Deferred-idle :
    (model : List ℕ → ℕ) (w : Windows)
    → Unique w.running
    → w.decode_window ≡ none
    → w.pending_flush ≡ none
    → Deferred model w
Deferred-idle model w u no_window nothing = record {
  unique = u;
  staged_unique = subst (λ o. Unique (ids_of o)) (sym nothing) tt;
  staged_greedy =
      subst (λ o. GreedyColumns model 0 (ids_of o) (matrix_of o) w.requests) (sym nothing)
        (λ j id r at here. absurd (ground arith));
  open_unique = subst (λ d. Unique (ids_of (window_of d))) (sym no_window) tt;
  open_greedy =
      subst
        (λ d.
          GreedyColumns model 0 (ids_of (window_of d))
            (matrix_of w.pending_flush ++ matrix_of (window_of d)) w.requests)
        (sym no_window) (λ j id r at here. absurd (ground arith));
  same_batch = λ staged opened is at.
      let gone : none ≡ some opened = ap window_of (sym no_window) ∙ at in absurd (cc);
}

drain_decode_window-Kept :
    (model : List ℕ → ℕ) (w : Windows)
    → Deferred model w
    → (w' : Windows) × (drain_decode_window w ≡ ok tt w')
      × Kept model w w'
      × (w'.decode_window ≡ none)
      × (w'.pending_flush ≡ none)
drain_decode_window-Kept model w h =
    let (w', run, d) = drain_decode_window-Drained model w h in
    (
      w',
      run,
      record {
        deferred = Deferred-idle model w' d.unique_running d.no_window d.nothing_staged;
        advanced = λ id r here. (_, d.recorded id r here);
      },
      d.no_window,
      d.nothing_staged,
    )

fresh-unfinished :
    (id : String) (ids : List String) (w : Windows)
    → fresh id ids ≡ true
    → fresh id (unfinished ids w) ≡ true
unfolding unfinished
fresh-unfinished id [] w h = refl
fresh-unfinished id (key ∷ ids) w h =
    let rest = fresh-unfinished id ids w (ground arith) in
    elim (Option-cases (find key w.requests)) [
      | inl nowhere ↦ rw (nowhere, unfinished) rest
      | inr (r, here) ↦ elim (Bool-cases r.finished) [
        | inl done ↦ rw (here, unfinished, done) rest
        | inr going ↦ rw (here, unfinished, going) (ground (arith, rest))
      ]
    ]

Unique-unfinished : (ids : List String) (w : Windows) → Unique ids → Unique (unfinished ids w)
unfolding unfinished
Unique-unfinished [] w u = tt
Unique-unfinished (key ∷ ids) w (new, u) =
    let rest = Unique-unfinished ids w u in
    elim (Option-cases (find key w.requests)) [
      | inl nowhere ↦ rw (nowhere, unfinished) rest
      | inr (r, here) ↦ elim (Bool-cases r.finished) [
        | inl done ↦ rw (here, unfinished, done) rest
        | inr going ↦ rw (here, unfinished, going) (fresh-unfinished key ids w new, rest)
      ]
    ]

-- The batch and the state after a part of the step.
pub record Ready (model : List ℕ → ℕ) (w w' : Windows) (ids : List String) : Type 0 where
  pub kept : Kept model w w'
  pub unique : Unique ids

pub drained-Ready :
    (model : List ℕ → ℕ) (ids : List String) (w : Windows)
    → Unique ids
    → Deferred model w
    → (ids' : List String) × (w' : Windows) × (drained ids w ≡ ok ids' w')
      × Ready model w w' ids'
      × (w'.decode_window ≡ none)
      × (w'.pending_flush ≡ none)
drained-Ready model ids w u h =
    let (w', run, kept, no_window, nothing) = drain_decode_window-Kept model w h in
    (
      unfinished ids w',
      w',
      simp (run, drained),
      record { kept = kept; unique = Unique-unfinished ids w' u },
      no_window,
      nothing,
    )

pub settle_batch-Ready :
    (model : List ℕ → ℕ) (ids : List String) (w : Windows)
    → Unique ids
    → Deferred model w
    → (ids' : List String) × (w' : Windows) × (settle_batch ids w ≡ ok ids' w')
      × Ready model w w' ids'
unfolding settle_batch
settle_batch-Ready model ids w u h = elim (Option-cases w.decode_window) [
  | inl no_window ↦
      (ids, w, simp (no_window, settle_batch), record { kept = Kept-refl model w h; unique = u })
  | inr (window, is) ↦ elim (Bool-cases (names_eq window.request_ids ids)) [
    | inl same ↦
        (ids, w, simp (is, same, settle_batch), record { kept = Kept-refl model w h; unique = u })
    | inr other ↦
        let (ids', w', run, ready, _, _) = drained-Ready model ids w u h in
        (ids', w', simp (is, other, run, settle_batch), ready)
  ]
]
