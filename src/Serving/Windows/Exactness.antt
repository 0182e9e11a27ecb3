-- ===== src/Serving/Windows/Exactness.antt =====
-- What the deferred windows record is what the per-step loop records.
use llm_infer.Prelude.{
  ℕ, ◌+◌, ◌≡◌, refl, ap, sym, subst, ◌∙◌, inl, inr, String, Bool, true, false, not, ◌&&◌, ◌||◌,
  Bool-cases, Option-cases, Option, none, some, some_cancel, List, [], ◌∷◌, ◌++◌, arith,
  if◌then◌else◌, length, ok,
}
use llm_infer.Serving.Request.{Request}
use llm_infer.Serving.Request.Recording.{served, served-finished}
use llm_infer.Serving.Engine.{find, names_member}
use llm_infer.Serving.Windows.{
  DecodeWindow, PendingWindowFlush, Windows, stage_window_flush, flush_decode_window,
  drain_decode_window,
}
use llm_infer.Serving.Windows.Columns.{Served, GreedyColumns}
use llm_infer.Serving.Windows.Draining.{
  idle-Phase, ids_of, matrix_of, Phase, consume_some-Phase, later-GreedyColumns, served-add,
}
use llm_infer.Scheduler.Books.{Unique, fresh}

-- What an open window would stage, if anything.
abbrev pub open_of : Option DecodeWindow → Option PendingWindowFlush
open_of none = none
open_of (some window) = elim window.pending [
  | [] ↦ none
  | row ∷ rows ↦ some (record { request_ids = window.request_ids; matrix = row ∷ rows })
]

-- The window as it stands, whether it holds tokens or not.
abbrev pub window_of : Option DecodeWindow → Option PendingWindowFlush
window_of none = none
window_of (some window) = some (stage_window_flush window)

-- The tokens on the device are the model's greedy ones, each request's after what is recorded of it.
pub record Deferred (model : List ℕ → ℕ) (w : Windows) : Type 0 where
  pub unique : Unique w.running
  pub staged_unique : Unique (ids_of w.pending_flush)
  pub staged_greedy :
      GreedyColumns model 0 (ids_of w.pending_flush) (matrix_of w.pending_flush) w.requests
  pub open_unique : Unique (ids_of (window_of w.decode_window))
  pub open_greedy :
      GreedyColumns model 0
        (ids_of (window_of w.decode_window))
        (matrix_of w.pending_flush ++ matrix_of (window_of w.decode_window))
        w.requests
  pub same_batch :
      (staged opened : PendingWindowFlush)
      → w.pending_flush ≡ some staged
      → window_of w.decode_window ≡ some opened
      → staged.request_ids ≡ opened.request_ids

-- How many tokens of a request one staged window holds.
abbrev pub rows_for : String → Option PendingWindowFlush → ℕ
rows_for id o = if fresh id (ids_of o) then 0 else length (matrix_of o)

abbrev pub in_batch : String → Option PendingWindowFlush → Bool
in_batch id o = not (fresh id (ids_of o))

-- Every request has been served for its tokens on the device, and none of the batch that is finished
-- still runs.
pub record Drained (model : List ℕ → ℕ) (first second : Option PendingWindowFlush) (w w' : Windows)
    : Type 0 where
  pub unique_running : Unique w'.running
  pub no_window : w'.decode_window ≡ none
  pub nothing_staged : w'.pending_flush ≡ none
  pub recorded :
      (id : String) (r : Request)
      → find id w.requests ≡ some r
      → find id w'.requests ≡ some (served model (rows_for id first + rows_for id second) r)
  pub released :
      (id : String) (r : Request)
      → find id w'.requests ≡ some r
      → names_member id w'.running ≡ (
          if (in_batch id first || in_batch id second) && r.finished
          then false
          else names_member id w.running)

pub Phase-served :
    (model : List ℕ → ℕ) (o : Option PendingWindowFlush) (w w' : Windows) (id : String)
    (r : Request)
    → Phase model o w w'
    → find id w.requests ≡ some r
    → find id w'.requests ≡ some (served model (rows_for id o) r)
unfolding served
Phase-served model o w w' id r p here = elim (Bool-cases (fresh id (ids_of o))) [
  | inl new ↦ rw (new) (p.served_all.others id new ∙ here)
  | inr known ↦ rw (known) (p.served_all.members id r here known)
]

Phase-back :
    (model : List ℕ → ℕ) (o : Option PendingWindowFlush) (w w' : Windows) (id : String)
    (q : Request)
    → Phase model o w w'
    → find id w'.requests ≡ some q
    → (r : Request) × (find id w.requests ≡ some r) × (served model (rows_for id o) r ≡ q)
Phase-back model o w w' id q p found = elim (Option-cases (find id w.requests)) [
  | inl nowhere ↦ let gone = p.served_all.missing id nowhere in absurd (cc)
  | inr (r, here) ↦ (r, here, some_cancel (sym (Phase-served model o w w' id r p here) ∙ found))
]

two_phases :
    (model : List ℕ → ℕ) (first second : Option PendingWindowFlush) (w w₁ w₂ w' : Windows)
    → Phase model first w w₁
    → w₂.requests ≡ w₁.requests
    → w₂.running ≡ w₁.running
    → Phase model second w₂ w'
    → w'.decode_window ≡ none
    → w'.pending_flush ≡ none
    → Drained model first second w w'
unfolding served
two_phases model first second w w₁ w₂ w' p same_requests same_running q window flush = record {
  unique_running = q.unique;
  no_window = window;
  nothing_staged = flush;
  recorded = λ id r here.
      let mid = Phase-served model first w w₁ id r p here in
      Phase-served model second w₂ w' id (served model (rows_for id first) r) q
        (ap (find id) same_requests ∙ mid)
      ∙ ap some (sym (served-add model (rows_for id first) (rows_for id second) r));
  released = λ id r found.
      let (r₁, at₂, is) = Phase-back model second w₂ w' id r q found in
      let at₁ : find id w₁.requests ≡ some r₁ = ap (find id) (sym same_requests) ∙ at₂ in
      let later = q.running id r found in
      let now = p.running id r₁ at₁ in
      let carried = ap (names_member id) same_running in
      elim (Bool-cases r₁.finished) [
        | inl done ↦
            let ends : r.finished ≡ true =
              ap (λ (u : Request). u.finished)
                (sym is ∙ served-finished model (rows_for id second) r₁ done)
              ∙ done in
            ground (arith, later, now, carried, ends, done)
        | inr going ↦ elim (Bool-cases (fresh id (ids_of second))) [
          | inr known ↦ ground (arith, later, now, carried, going, known)
          | inl new ↦
              let no_rows : rows_for id second ≡ 0 = rw (new) refl in
              let same : r₁ ≡ r = ap (λ n. served model n r₁) (sym no_rows) ∙ is in
              let goes_on : r.finished ≡ false =
                ap (λ (u : Request). u.finished) (sym same) ∙ going in
              ground (arith, later, now, carried, going, goes_on, new)
        ]
      ];
}

module _ (model : List ℕ → ℕ) (rs : List Request) (names : List String)
    (outputs : List (String × List ℕ)) where
  abbrev pub deferring : Option DecodeWindow → Option PendingWindowFlush → Windows
  deferring d p = record {
    requests = rs;
    running = names;
    finished_outputs = outputs;
    decode_window = d;
    pending_flush = p;
  }

  -- Without a token on an open window, a drain is one consumption.
  drain_staged :
      (d : Option DecodeWindow) (p : Option PendingWindowFlush)
      → flush_decode_window (deferring d p) ≡ ok tt (deferring none p)
      → Unique names
      → Unique (ids_of p)
      → GreedyColumns model 0 (ids_of p) (matrix_of p) rs
      → (w' : Windows) × (drain_decode_window (deferring d p) ≡ ok tt w')
        × Drained model p none (deferring d p) w'
  unfolding drain_decode_window
  drain_staged d p flushed u v g =
      let (w', run, phase, window, flush) =
        consume_some-Phase model p (deferring none none) u v g in
      let own : Phase model p (deferring d p) w' = record {
        served_all = phase.served_all;
        unique = phase.unique;
        running = phase.running;
      } in
      (
        w',
        rw (flushed, drain_decode_window) run,
        two_phases model p none (deferring d p) w' w' w' own refl refl
            (idle-Phase model w' phase.unique) window flush,
      )

  -- What is left of the first tokens and is greedy, on the second batch.
  pub second_batch :
      (p : Option PendingWindowFlush) (opened : PendingWindowFlush) (rs' : List Request)
      → ((staged : PendingWindowFlush) → p ≡ some staged → staged.request_ids ≡ opened.request_ids)
      → GreedyColumns model 0 opened.request_ids (matrix_of p ++ opened.matrix) rs
      → Served model (length (matrix_of p)) (ids_of p) rs rs'
      → GreedyColumns model 0 opened.request_ids opened.matrix rs'
  second_batch none opened rs' same g s =
      λ j id r at here. g j id r at (sym (s.others id refl) ∙ here)
  second_batch (some staged) opened rs' same g s =
      later-GreedyColumns model opened.request_ids staged.matrix opened.matrix rs rs' g
        (subst (λ ids. Served model (length staged.matrix) ids rs rs') (same staged refl) s)

  drain_open :
      (ids : List String) (budget : ℕ) (row : List ℕ) (more : List (List ℕ))
      (p : Option PendingWindowFlush)
      → let window : DecodeWindow = record {
        request_ids = ids;
        budget = budget;
        pending = row ∷ more;
      } in
        Deferred model (deferring (some window) p)
        → (w' : Windows) × (drain_decode_window (deferring (some window) p) ≡ ok tt w')
          × Drained model p (open_of (some window)) (deferring (some window) p) w'
  unfolding drain_decode_window flush_decode_window
  drain_open ids budget row more p h =
      let opened : PendingWindowFlush = record { request_ids = ids; matrix = row ∷ more } in
      let (w₁, run₁, first, window₁, flush₁) =
        consume_some-Phase model p (deferring none (some opened)) h.unique h.staged_unique
          h.staged_greedy in
      let w₂ : Windows = record w₁ { pending_flush = none } in
      let (w', run₂, second, window, flush) =
        consume_some-Phase model (some opened) w₂ first.unique h.open_unique (
          second_batch p opened w₁.requests (λ staged is. h.same_batch staged opened is refl)
            h.open_greedy first.served_all) in
      let own : Phase model p
          (deferring (some (record { request_ids = ids; budget = budget; pending = row ∷ more })) p)
          w₁ =
        record { served_all = first.served_all; unique = first.unique; running = first.running } in
      (
        w',
        rw (run₁, drain_decode_window, flush₁) run₂,
        two_phases model p (some opened) _ w₁ w₂ w' own refl refl second (window ∙ window₁) flush,
      )

  drain_rows :
      (ids : List String) (budget : ℕ) (rows : List (List ℕ)) (p : Option PendingWindowFlush)
      → let d : Option DecodeWindow =
          some (record { request_ids = ids; budget = budget; pending = rows }) in
        Deferred model (deferring d p)
        → (w' : Windows) × (drain_decode_window (deferring d p) ≡ ok tt w')
          × Drained model p (open_of d) (deferring d p) w'
  unfolding flush_decode_window
  drain_rows ids budget [] p h =
      drain_staged (some (record { request_ids = ids; budget = budget; pending = [] })) p refl
        h.unique h.staged_unique h.staged_greedy
  drain_rows ids budget (row ∷ more) p h = drain_open ids budget row more p h

  drain_any :
      (d : Option DecodeWindow) (p : Option PendingWindowFlush)
      → Deferred model (deferring d p)
      → (w' : Windows) × (drain_decode_window (deferring d p) ≡ ok tt w')
        × Drained model p (open_of d) (deferring d p) w'
  unfolding flush_decode_window
  drain_any none p h = drain_staged none p refl h.unique h.staged_unique h.staged_greedy
  drain_any (some window) p h = drain_rows window.request_ids window.budget window.pending p h

-- On an engine without a prefix cache, and with exact blocks and budgets, so that the release of a
-- finished request does not raise and is here its removal from the running ones with its output,
-- draining deferred windows whose tokens on the device are the model's greedy ones never raises:
-- nothing is open or staged then, each request is the request served alone for just its tokens on
-- the device, and of the batches that had tokens no finished request still runs, while all others
-- run as before.
pub drain_decode_window-Drained :
    (model : List ℕ → ℕ) (w : Windows)
    → Deferred model w
    → (w' : Windows) × (drain_decode_window w ≡ ok tt w')
      × Drained model w.pending_flush (open_of w.decode_window) w w'
drain_decode_window-Drained model w h =
    drain_any model w.requests w.running w.finished_outputs w.decode_window w.pending_flush h
