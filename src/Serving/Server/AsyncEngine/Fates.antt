-- ===== src/Serving/Server/AsyncEngine/Fates.antt =====
-- What becomes of every accepted stream.
use llm_infer.Prelude.{
  ℕ, ◌+◌, ◌<◌, ◌≡◌, refl, sym, subst, ◌∙◌, ◌⊎◌, inl, inr, true, Option-cases, none, some, [], arith,
  count, Outcome, final, ok, raise, Error,
}
use llm_infer.Serving.Server.AsyncEngine.{
  EngineOps, Stream, AsyncEngine, cancel, fail_all, drain_submissions, apply_aborts, contained,
}
use llm_infer.Serving.Server.AsyncEngine.Streams.{
  Books-same, Held, IsOpen, IsEnded, IsSilent, quiet-Books,
}
use llm_infer.Serving.Server.AsyncEngine.Entries.{handles}
use llm_infer.Serving.Server.AsyncEngine.Loops.{places, Kept, drain_from-Kept, fail_all-Ledger}
use llm_infer.Serving.Server.AsyncEngine.Reachable.{
  abort_from-Kept, serve-Kept, Step, submits, cancels, closes, drains, aborts, serves, Reach, here,
  later, Accounted,
}
use llm_infer.Serving.Server.AsyncEngine.Submitting.{submit_inv, submitted-Ledger}

closed_stream : (s : Stream) (n : ℕ) → Held s n → Held (record s { loop_closed = true }) n
closed_stream s n (inl h) = inl h
closed_stream s n (inr (gone, inl ended)) = inr (gone, inl ended)
closed_stream s n (inr (gone, inr (_, clear))) = inr (gone, inr (refl, clear))

module _ (o : EngineOps) where
  open o use {State}

  dead_of : (a : AsyncEngine State) → a.fatal ≡ none → (err : Error) → a.fatal ≡ some err → ⊥
  dead_of a alive err dead = absurd (cc)

  contained-Accounted :
      (a : AsyncEngine State) (out : Outcome (AsyncEngine State) (Unit {0}))
      → a.fatal ≡ none
      → Kept o a (final out)
      → Accounted o (contained o out)
  unfolding contained fail_all
  contained-Accounted a (ok _ a') alive k = record {
    ledger = k.ledger;
    dead = λ err e h. absurd (dead_of a' (k.fatal ∙ alive) err e);
  }
  contained-Accounted a (raise err a') alive k = record {
    ledger = fail_all-Ledger err a' k.ledger;
    dead = λ _ e h. omega arith;
  }

  Step-Accounted : {a a' : AsyncEngine State} → Step o a a' → Accounted o a → Accounted o a'
  unfolding drain_submissions apply_aborts cancel
  Step-Accounted {a} {a'} (submits r {h} new made) acc =
      let (alive, is) = submit_inv r a a' h made in
      subst (Accounted o) (sym is) (record {
        ledger = submitted-Ledger r a new acc.ledger;
        dead = λ err e k. absurd (dead_of a alive err e);
      })
  Step-Accounted {a} (cancels h) acc = record {
    ledger = record {
      books =
          quiet-Books a.next (places [] a) a.cells h (record (a.cells h) { aborted = true })
            (λ held. held) acc.ledger.books;
      once = acc.ledger.once;
    };
    dead = acc.dead;
  }
  Step-Accounted {a} (closes h) acc = record {
    ledger = record {
      books =
          quiet-Books a.next (places [] a) a.cells h (record (a.cells h) { loop_closed = true })
            (closed_stream (a.cells h) _) acc.ledger.books;
      once = acc.ledger.once;
    };
    dead = acc.dead;
  }
  Step-Accounted {a} (drains alive) acc =
      let k =
        drain_from-Kept o a.submissions (record a { submissions = [] })
          (record {
            books = Books-same a.next (places [] a) _ a.cells (λ h. omega arith) acc.ledger.books;
            once = λ id. omega (arith, acc.ledger.once id);
          }) in
      record {
        ledger = k.ledger;
        dead = λ err e h. absurd (dead_of (drain_submissions o a) (k.fatal ∙ alive) err e);
      }
  Step-Accounted {a} (aborts alive) acc =
      contained-Accounted a _ alive (abort_from-Kept o [] a.streams a refl acc.ledger)
  Step-Accounted {a} (serves alive) acc = contained-Accounted a _ alive (serve-Kept o a acc.ledger)

  -- Before the first request.
  abbrev pub started : State → (ℕ → Stream) → AsyncEngine State
  started e cells = record {
    engine = e;
    submissions = [];
    streams = [];
    cells = cells;
    next = 0;
    fatal = none;
  }

  pub started-Accounted : (e : State) (cells : ℕ → Stream) → Accounted o (started e cells)
  started-Accounted e cells = record {
    ledger = record {
      books = record { each = λ h lt. absurd (omega arith); beyond = λ h le. refl };
      once = λ id. omega arith;
    };
    dead = λ err e h. refl;
  }

  pub Reach-Accounted : {s a : AsyncEngine State} → Accounted o s → Reach o s a → Accounted o a
  Reach-Accounted h here = h
  Reach-Accounted h (later r st) = Step-Accounted st (Reach-Accounted h r)

  -- Where the stream is reached from: the queue of submissions and the dictionary of active streams.
  abbrev pub reached_from : AsyncEngine State → ℕ → ℕ
  reached_from a h = count h (handles a.submissions) + count h (handles a.streams)

  abbrev pub Fate : AsyncEngine State → ℕ → Type 0
  Fate a h =
      ((a.fatal ≡ none) × (reached_from a h ≡ 1) × IsOpen (a.cells h))
      ⊎ ((reached_from a h ≡ 0) × (IsEnded (a.cells h) ⊎ IsSilent (a.cells h)))

  Held-Fate :
      (a : AsyncEngine State) (h : ℕ) → Accounted o a → Held (a.cells h) (places [] a h) → Fate a h
  Held-Fate a h acc (inr (gone, closed)) = inr (omega arith, closed)
  Held-Fate a h acc (inl (one, open_still)) = elim (Option-cases a.fatal) [
    | inl alive ↦ inl (alive, omega arith, open_still)
    | inr (err, dead) ↦ absurd (omega (arith, acc.dead err dead h))
  ]

  -- In every state that handlers, consumers and the loop thread reach, in any order of their steps
  -- and with any engine, each accepted stream is in one of two cases. Either the loop has not died,
  -- exactly one place, the submissions or the active streams, refers to the stream, and it has no
  -- end and no error yet. Or no place refers to it, and its queue has exactly one end, the last
  -- item, or none because the consumer's event loop was closed. A handler submits only ids that no
  -- queued or active stream has.
  pub Reach-Fate :
      (e : State) (cells : ℕ → Stream) (a : AsyncEngine State) (h : ℕ)
      → Reach o (started e cells) a
      → h < a.next
      → Fate a h
  Reach-Fate e cells a h r lt =
      let acc = Reach-Accounted (started-Accounted e cells) r in
      Held-Fate a h acc (acc.ledger.books.each h lt)
