-- ===== src/Serving/Windows/Rounds.antt =====
-- A forward on an open window, and the whole deferred step.
use mathlib.Core.List.{append_assoc}
use llm_infer.Prelude.{
  ℕ, ◌+◌, ◌≡◌, refl, ap, sym, subst, ◌∙◌, inl, inr, String, false, Bool-cases, Option-cases, Option,
  none, some, some_cancel, List, [], ◌∷◌, ◌++◌, arith, leb, bad_state, length, get_or, get_elem?,
  ok, raise, final,
}
use llm_infer.Serving.Request.{Request}
use llm_infer.Serving.Recorder.Greedy.{IsGreedy, IsGreedy-snoc}
use llm_infer.Serving.Engine.{find}
use llm_infer.Serving.Windows.{
  DecodeWindow, PendingWindowFlush, Windows, column, stage_window_flush, flush_decode_window,
}
use llm_infer.Serving.Windows.Batches.{last_tokens_of, window_round}
use llm_infer.Serving.Windows.Feeding.{LastTokens}
use llm_infer.Serving.Windows.Columns.{GreedyColumns, context}
use llm_infer.Serving.Windows.Draining.{ids_of, matrix_of, consume_some-Phase, column-append}
use llm_infer.Serving.Windows.Exactness.{
  window_of, rows_for, Deferred, deferring, Phase-served, second_batch,
}
use llm_infer.Serving.Windows.Steps.{Kept, Kept-refl, Kept-trans}
use llm_infer.Scheduler.Books.{Unique}

module _ (model : List ℕ → ℕ) (rs : List Request) (names : List String)
    (outputs : List (String × List ℕ)) where
  flush_open-Kept :
      (ids : List String) (budget : ℕ) (row : List ℕ) (more : List (List ℕ))
      (p : Option PendingWindowFlush)
      → let w =
          deferring model rs names outputs
            (some (record { request_ids = ids; budget = budget; pending = row ∷ more }))
            p in
        Deferred model w → (w' : Windows) × (flush_decode_window w ≡ ok tt w') × Kept model w w'
  unfolding flush_decode_window
  flush_open-Kept ids budget row more p h =
      let staged : PendingWindowFlush = record { request_ids = ids; matrix = row ∷ more } in
      let (w', run, phase, window, flush) =
        consume_some-Phase model p (deferring model rs names outputs none (some staged)) h.unique
          h.staged_unique h.staged_greedy in
      let greedy : GreedyColumns model 0 ids (row ∷ more) w'.requests =
        second_batch model rs names outputs p staged w'.requests
          (λ other is. h.same_batch other staged is refl) h.open_greedy phase.served_all in
      (
        w',
        run,
        record {
          deferred = record {
            unique = phase.unique;
            staged_unique = subst (λ o. Unique (ids_of o)) (sym flush) h.open_unique;
            staged_greedy =
                subst (λ o. GreedyColumns model 0 (ids_of o) (matrix_of o) w'.requests) (sym flush)
                  greedy;
            open_unique = subst (λ d. Unique (ids_of (window_of d))) (sym window) tt;
            open_greedy =
                subst
                  (λ d.
                    GreedyColumns model 0 (ids_of (window_of d))
                      (matrix_of w'.pending_flush ++ matrix_of (window_of d)) w'.requests)
                  (sym window) (λ j id r at here. absurd (ground arith));
            same_batch = λ other opened is at.
                let gone : none ≡ some opened = ap window_of (sym window) ∙ at in absurd (cc);
          };
          advanced = λ id r here. (
            rows_for id p,
            Phase-served model p (deferring model rs names outputs none (some staged)) w' id r phase
                here,
          );
        },
      )

  shut-Kept :
      (d : Option DecodeWindow) (p : Option PendingWindowFlush)
      → Deferred model (deferring model rs names outputs d p)
      → Kept model (deferring model rs names outputs d p) (deferring model rs names outputs none p)
  unfolding llm_infer.Serving.Request.Recording.served
  shut-Kept d p h = record {
    deferred = record {
      unique = h.unique;
      staged_unique = h.staged_unique;
      staged_greedy = h.staged_greedy;
      open_unique = tt;
      open_greedy = λ j id r at here. absurd (ground arith);
      same_batch = λ staged opened is at. absurd (ground arith);
    };
    advanced = λ id r here. (0, here);
  }

  flush_any-Kept :
      (ids : List String) (budget : ℕ) (rows : List (List ℕ)) (p : Option PendingWindowFlush)
      → let w =
          deferring model rs names outputs
            (some (record { request_ids = ids; budget = budget; pending = rows }))
            p in
        Deferred model w → (w' : Windows) × (flush_decode_window w ≡ ok tt w') × Kept model w w'
  unfolding flush_decode_window
  flush_any-Kept ids budget [] p h =
      (deferring model rs names outputs none p, refl, shut-Kept _ p h)
  flush_any-Kept ids budget (row ∷ more) p h = flush_open-Kept ids budget row more p h

-- The forward gives each request of the batch that is not finished the model's next token, after
-- what is recorded of it and what is on the device.
abbrev pub GreedyRow : (List ℕ → ℕ) → Windows → DecodeWindow → List ℕ → Type 0
GreedyRow model w window row =
    (j : ℕ) (id : String) (r : Request)
    → get_elem? window.request_ids j ≡ some id
    → find id w.requests ≡ some r
    → r.finished ≡ false
    → get_or row j 0 ≡ model (context r ++ column j (matrix_of w.pending_flush ++ window.pending))

abbrev pub grown_window : Windows → DecodeWindow → List ℕ → Windows
grown_window w window row = record w {
  decode_window = some (record window { pending = window.pending ++ row ∷ [] });
}

grown-Deferred :
    (model : List ℕ → ℕ) (w : Windows) (window : DecodeWindow) (row : List ℕ)
    → w.decode_window ≡ some window
    → Deferred model w
    → GreedyRow model w window row
    → Deferred model (grown_window w window row)
grown-Deferred model w window row is h g = record {
  unique = h.unique;
  staged_unique = h.staged_unique;
  staged_greedy = h.staged_greedy;
  open_unique = subst (λ d. Unique (ids_of (window_of d))) is h.open_unique;
  open_greedy = λ j id r at here going.
      let e : 0 + j ≡ j = omega arith in
      let old : IsGreedy model (context r)
          (column j (matrix_of w.pending_flush ++ window.pending)) =
        subst
          (λ n. IsGreedy model (context r) (column n (matrix_of w.pending_flush ++ window.pending)))
          e
          (subst
            (λ d.
              GreedyColumns model 0 (ids_of (window_of d))
                (matrix_of w.pending_flush ++ matrix_of (window_of d)) w.requests)
            is h.open_greedy j id r at here going) in
      let longer =
        IsGreedy-snoc model (context r) _ (get_or row j 0) old (g j id r at here going) in
      subst
        (λ n.
          IsGreedy model (context r)
            (column n (matrix_of w.pending_flush ++ (window.pending ++ row ∷ []))))
        (sym e)
        (subst (λ m. IsGreedy model (context r) (column j m))
          (append_assoc (matrix_of w.pending_flush) window.pending (row ∷ []))
          (subst (IsGreedy model (context r))
            (sym (column-append j (matrix_of w.pending_flush ++ window.pending) (row ∷ [])))
            longer));
  same_batch = λ staged opened at was.
      h.same_batch staged (stage_window_flush window) at (ap window_of is)
      ∙ ap (λ (p : PendingWindowFlush). p.request_ids) (some_cancel was);
}

pub window_round-Kept :
    (model : List ℕ → ℕ) (forward : Windows → List ℕ → List ℕ) (window : DecodeWindow) (w : Windows)
    → w.decode_window ≡ some window
    → Deferred model w
    → ((last : List ℕ)
        → last_tokens_of window w ≡ some last
        → GreedyRow model w window (forward w last))
    → Kept model w (final (window_round forward window w))
unfolding window_round
window_round-Kept model forward window w is h greedy =
    elim (Option-cases (last_tokens_of window w)) [
      | inl no_token ↦
          let stops : window_round forward window w ≡ raise bad_state w =
            simp (no_token, window_round) in
          subst (Kept model w) (ap final (sym stops)) (Kept-refl model w h)
      | inr (last, fed) ↦
          let w' = grown_window w window (forward w last) in
          let grown : Deferred model w' =
            grown-Deferred model w window (forward w last) is h (greedy last fed) in
          let goes : Kept model w w' = record {
            deferred = grown;
            advanced = (Kept-refl model w h).advanced;
          } in
          elim (Bool-cases (leb window.budget (length (window.pending ++ forward w last ∷ [])))) [
            | inr room ↦
                let run : window_round forward window w ≡ ok tt w' =
                  simp (fed, room, window_round) in
                subst (Kept model w) (ap final (sym run)) goes
            | inl full ↦
                let (v, flushed, kept) =
                  flush_any-Kept model w.requests w.running w.finished_outputs window.request_ids
                    window.budget (window.pending ++ forward w last ∷ []) w.pending_flush grown in
                let run : window_round forward window w ≡ ok tt v =
                  simp (fed, full, flushed, window_round) in
                subst (Kept model w) (ap final (sym run)) (Kept-trans model w w' v goes kept)
          ]
    ]

-- Where the tokens on the device are greedy and the forward reads each request's last token, it gives
-- the model's next ones.
abbrev pub Faithful : (List ℕ → ℕ) → (Windows → List ℕ → List ℕ) → Type 0
Faithful model forward =
    (w : Windows) (window : DecodeWindow) (last : List ℕ)
    → Deferred model w
    → w.decode_window ≡ some window
    → LastTokens w window last
    → GreedyRow model w window (forward w last)
