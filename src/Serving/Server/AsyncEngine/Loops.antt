-- ===== src/Serving/Server/AsyncEngine/Loops.antt =====
-- Each loop of the engine's thread keeps account of the streams: which are open, and from where they
-- are reached.
use llm_infer.Prelude.{
  ℕ, ◌+◌, ◌≤◌, ◌≡◌, refl, ap, inl, inr, String, Option-cases, List, [], ◌∷◌, arith, count,
  count-append, Outcome-cases, Error,
}
use llm_infer.Serving.Request.{Request}
use llm_infer.Serving.Engine.{names_member}
use llm_infer.Serving.Engine.Results.{StepResult}
use llm_infer.Serving.Server.AsyncEngine.{
  EngineOps, Stream, AsyncEngine, fail, stream_of, put_stream, fail_each, burst_of, send_bursts,
  end_streams, dispatch, fail_all, drain_from,
}
use llm_infer.Serving.Server.AsyncEngine.Streams.{
  Books, Books-same, close-Books, burst-Books, end-Held, failed-Held,
}
use llm_infer.Serving.Server.AsyncEngine.Entries.{
  handles, entries, times, times-append, handles-append, put_stream_new, drop_stream-Dropped,
  count_self, str_eq_once,
}

module _ {E : Type 0} where
  -- The places of a handle and of a name, with the submissions that a loop still holds.
  abbrev pub places : List (Request × ℕ) → AsyncEngine E → ℕ → ℕ
  places pending a k =
      count k (handles pending) + count k (handles a.submissions) + count k (handles a.streams)

  abbrev pub names : List (Request × ℕ) → AsyncEngine E → String → ℕ
  names pending a id =
      times id (entries pending) + times id (entries a.submissions) + times id a.streams

  pub record Ledger (pending : List (Request × ℕ)) (a : AsyncEngine E) : Type 0 where
    pub books : Books a.next (places pending a) a.cells
    pub once : (id : String) → names pending a id ≤ 1

fail_each-Books {ℓ} :
    {K : Type ℓ} (err : Error) (xs : List (K × ℕ)) (m : ℕ → ℕ) (next : ℕ) (cells : ℕ → Stream)
    → Books next (λ k. count k (handles xs) + m k) cells
    → Books next m (fail_each err xs cells)
unfolding fail_each
fail_each-Books err [] m next cells b = Books-same next _ m cells (λ k. omega arith) b
fail_each-Books err ((key, h) ∷ xs) m next cells b =
    fail_each-Books err xs m next (fail h err cells)
      (close-Books next _ _ cells h _ (λ k. omega arith) (failed-Held err (cells h)) b)

send_bursts-Books :
    (finished : List String) (tokens : List (String × List ℕ)) (streams : List (String × ℕ))
    (next : ℕ) (m : ℕ → ℕ) (cells : ℕ → Stream)
    → Books next (λ k. m k + count k (handles streams)) cells
    → Books next (λ k. m k + count k (handles streams)) (send_bursts finished tokens streams cells)
unfolding send_bursts
send_bursts-Books finished [] streams next m cells b = b
send_bursts-Books finished ((id, ts) ∷ tokens) streams next m cells b =
    elim (Option-cases (stream_of id streams)) [
      | inl gone ↦ rw (gone, send_bursts) (send_bursts-Books finished tokens streams next m cells b)
      | inr (h, here) ↦
          rw (here, send_bursts)
            (send_bursts-Books finished tokens streams next m _ (
              burst-Books next _ cells h (burst_of (cells h) (names_member id finished) ts)
                (let d = drop_stream-Dropped id h streams here in
                  omega (arith, d.places h, count_self h))
                b))
    ]

module _ {E : Type 0} where
  end_streams-Ledger :
      (finished : List String) (a : AsyncEngine E)
      → Ledger [] a
      → Ledger [] (end_streams finished a)
  unfolding end_streams
  end_streams-Ledger [] a l = l
  end_streams-Ledger (id ∷ finished) a l = elim (Option-cases (stream_of id a.streams)) [
    | inl gone ↦ rw (gone, end_streams) (end_streams-Ledger finished a l)
    | inr (h, here) ↦
        rw (here, end_streams)
          (let d = drop_stream-Dropped id h a.streams here in
            end_streams-Ledger finished _ (record {
              books =
                  close-Books a.next _ _ a.cells h _ (λ k. omega (arith, d.places k))
                    (end-Held (a.cells h)) l.books;
              once = λ name. omega (arith, d.names name, l.once name);
            }))
  ]

  end_streams-fatal :
      (finished : List String) (a : AsyncEngine E) → (end_streams finished a).fatal ≡ a.fatal
  unfolding end_streams
  end_streams-fatal [] a = refl
  end_streams-fatal (id ∷ finished) a = elim (Option-cases (stream_of id a.streams)) [
    | inl gone ↦ rw (gone, end_streams) (end_streams-fatal finished a)
    | inr (h, here) ↦ rw (here, end_streams) (end_streams-fatal finished _)
  ]

  pub dispatch-Ledger :
      (result : StepResult) (a : AsyncEngine E)
      → Ledger [] a
      → Ledger [] (dispatch result a) × ((dispatch result a).fatal ≡ a.fatal)
  unfolding dispatch
  dispatch-Ledger result a l =
      let sent : AsyncEngine E = record a {
        cells = send_bursts result.finished result.tokens a.streams a.cells;
      } in
      (
        end_streams-Ledger result.finished sent (record {
          books =
              send_bursts-Books result.finished result.tokens a.streams a.next
                (λ k. 0 + count k (handles a.submissions)) a.cells l.books;
          once = l.once;
        }),
        end_streams-fatal result.finished sent,
      )

  pub fail_all-Ledger : (err : Error) (a : AsyncEngine E) → Ledger [] a → Ledger [] (fail_all err a)
  unfolding fail_all
  fail_all-Ledger err a l = record {
    books =
        fail_each-Books err a.submissions (λ _. 0) a.next (fail_each err a.streams a.cells)
          (fail_each-Books err a.streams (λ k. count k (handles a.submissions) + 0) a.next a.cells
            (Books-same a.next _ _ a.cells (λ k. omega arith) l.books));
    once = λ id. omega arith;
  }

module _ (o : EngineOps) where
  open o use {State, add_request, abort, step, has_work}

  -- What a loop keeps, beside the account.
  pub record Kept (a : AsyncEngine State) (a' : AsyncEngine State) : Type 0 where
    pub ledger : Ledger [] a'
    pub fatal : a'.fatal ≡ a.fatal

  pub drain_from-Kept :
      (pending : List (Request × ℕ)) (a : AsyncEngine State)
      → Ledger pending a
      → Kept a (drain_from o pending a)
  unfolding drain_from
  drain_from-Kept [] a l = record { ledger = l; fatal = refl }
  drain_from-Kept ((r, h) ∷ pending) a l = elim (Outcome-cases (add_request r a.engine)) [
    | inl (_, e, accepted) ↦
        rw (accepted, drain_from)
          (let new : times r.request_id a.streams ≡ 0 =
              omega (arith, l.once r.request_id, str_eq_once r.request_id) in
            let put = put_stream_new r.request_id h a.streams new in
            let rest =
              drain_from-Kept pending
                (record a { engine = e; streams = put_stream r.request_id h a.streams })
                (record {
                  books =
                      Books-same a.next _ _ a.cells
                        (λ k. omega (
                          arith,
                          ap (λ s. count k (handles s)) put,
                          ap (count k) (handles-append a.streams ((r.request_id, h) ∷ [])),
                          count-append k (handles a.streams) (h ∷ []),
                        ))
                        l.books;
                  once = λ id. omega (
                    arith,
                    ap (times id) put,
                    times-append id a.streams ((r.request_id, h) ∷ []),
                    l.once id,
                  );
                }) in
            record { ledger = rest.ledger; fatal = rest.fatal })
    | inr (err, e, refused) ↦
        rw (refused, drain_from)
          (let rest =
              drain_from-Kept pending (record a { engine = e; cells = fail h err a.cells })
                (record {
                  books =
                      close-Books a.next _ _ a.cells h _ (λ k. omega arith)
                        (failed-Held err (a.cells h)) l.books;
                  once = λ id. omega (arith, l.once id);
                }) in
            record { ledger = rest.ledger; fatal = rest.fatal })
  ]
