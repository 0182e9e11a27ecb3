-- ===== src/Serving/Server/AsyncEngine/Reachable.antt =====
-- Handlers, consumers and the loop thread, interleaved in any order, and what holds of every stream
-- in every state they reach.
use mathlib.Core.List.{append_assoc}
use llm_infer.Prelude.{
  ℕ, ◌≤◌, ◌≡◌, refl, ap, sym, ◌∙◌, inl, inr, String, true, Bool-cases, none, some, List, [], ◌∷◌,
  ◌++◌, arith, Outcome-cases, final, ok, Error,
}
use llm_infer.Serving.Request.{Request}
use llm_infer.Serving.Server.AsyncEngine.{
  EngineOps, AsyncEngine, enqueue, update, stream_of, drop_stream, submit, cancel,
  drain_submissions, abort_from, apply_aborts, serve, contained,
}
use llm_infer.Serving.Server.AsyncEngine.Streams.{close-Books, end-Held}
use llm_infer.Serving.Server.AsyncEngine.Entries.{
  times, drop_stream-Dropped, stream_of_at, drop_stream_at,
}
use llm_infer.Serving.Server.AsyncEngine.Loops.{places, names, Ledger, Kept, dispatch-Ledger}

module _ (o : EngineOps) where
  open o use {State, abort, step, has_work}

  pub abort_from-Kept :
      (kept items : List (String × ℕ)) (a : AsyncEngine State)
      → a.streams ≡ kept ++ items
      → Ledger [] a
      → Kept o a (final (abort_from o items a))
  unfolding abort_from
  abort_from-Kept kept [] a split l = record { ledger = l; fatal = refl }
  abort_from-Kept kept ((id, h) ∷ items) a split l = elim (Bool-cases (a.cells h).aborted) [
    | inr stays ↦
        rw (stays, abort_from)
          (abort_from-Kept (kept ++ (id, h) ∷ []) items a
            (split ∙ sym (append_assoc kept ((id, h) ∷ []) items)) l)
    | inl goes ↦
        rw (goes, abort_from)
          (elim (Outcome-cases (abort id a.engine)) [
            | inr (err, e, raised) ↦
                rw (raised, abort_from)
                  (record { ledger = record { books = l.books; once = l.once }; fatal = refl })
            | inl (b, e, aborted) ↦
                rw (aborted, abort_from)
                  (let once : times id (kept ++ (id, h) ∷ items) ≤ 1 =
                      omega (arith, l.once id, ap (times id) split) in
                    let here : stream_of id a.streams ≡ some h =
                      ap (stream_of id) split ∙ stream_of_at id h kept items once in
                    let d = drop_stream-Dropped id h a.streams here in
                    let rest =
                      abort_from-Kept kept items
                        (record a {
                          engine = e;
                          cells = enqueue h none a.cells;
                          streams = drop_stream id a.streams;
                        })
                        (ap (drop_stream id) split ∙ drop_stream_at id h kept items once)
                        (record {
                          books =
                              close-Books a.next _ _ a.cells h _ (λ k. omega (arith, d.places k))
                                (end-Held (a.cells h)) l.books;
                          once = λ name. omega (arith, d.names name, l.once name);
                        }) in
                    record { ledger = rest.ledger; fatal = rest.fatal })
          ])
  ]

  pub serve-Kept : (a : AsyncEngine State) → Ledger [] a → Kept o a (final (serve o a))
  unfolding serve
  serve-Kept a l = elim (Bool-cases (has_work a.engine)) [
    | inr idle ↦ rw (idle, serve) (record { ledger = l; fatal = refl })
    | inl busy ↦
        rw (busy, serve)
          (elim (Outcome-cases (step a.engine)) [
            | inl (result, e, done) ↦
                rw (done, serve)
                  (let (ledger, fatal) =
                      dispatch-Ledger result (record a { engine = e })
                        (record { books = l.books; once = l.once }) in
                    record { ledger = ledger; fatal = fatal })
            | inr (err, e, raised) ↦
                rw (raised, serve)
                  (record { ledger = record { books = l.books; once = l.once }; fatal = refl })
          ])
  ]

  -- The consumer's event loop is closed.
  abbrev pub close_loop : ℕ → AsyncEngine State → AsyncEngine State
  close_loop h a = record a { cells = update h (record (a.cells h) { loop_closed = true }) a.cells }

  -- Handlers submit requests whose ids no queued or active stream has, as `next_request_id` makes them;
  -- consumers cancel and go; the loop thread runs the parts of its rounds, here in any order,
  -- until one raises.
  pub data Step (a : AsyncEngine State) : AsyncEngine State → Type 0 where
    submits :
        (r : Request) {h : ℕ} {a' : AsyncEngine State}
        → names [] a r.request_id ≡ 0
        → submit r a ≡ ok h a'
        → Step a a'
    cancels : (h : ℕ) → Step a (cancel h a)
    closes : (h : ℕ) → Step a (close_loop h a)
    drains : a.fatal ≡ none → Step a (drain_submissions o a)
    aborts : a.fatal ≡ none → Step a (contained o (apply_aborts o a))
    serves : a.fatal ≡ none → Step a (contained o (serve o a))

  pub data Reach (start : AsyncEngine State) : AsyncEngine State → Type 0 where
    here : Reach start start
    later : {a a' : AsyncEngine State} → Reach start a → Step a a' → Reach start a'

  -- The account, and that a dead engine has nobody waiting.
  pub record Accounted (a : AsyncEngine State) : Type 0 where
    pub ledger : Ledger [] a
    pub dead : (err : Error) → a.fatal ≡ some err → (k : ℕ) → places [] a k ≡ 0
