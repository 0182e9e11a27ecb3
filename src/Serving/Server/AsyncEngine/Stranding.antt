-- ===== src/Serving/Server/AsyncEngine/Stranding.antt =====
-- The loop after an abort that left no work: what is stashed is not delivered.
use text.Mathlib.TextEquality.{eq_iff}
use llm_infer.Prelude.{
  ℕ, suc, ◌+◌, ◌≡◌, refl, ap, ◌∙◌, String, true, false, none, some, List, [], ◌∷◌, All, arith, ltb,
  length, ◌==◌, Outcome, ok,
}
use llm_infer.Serving.Request.{Request}
use llm_infer.Serving.Engine.{names_member}
use llm_infer.Serving.Engine.Results.{StepResult}
use llm_infer.Serving.Engine.Session.{
  Session, still_registered, stashed, has_window, drain_for_abort, drop_request, abort, has_work,
}
use llm_infer.Serving.Windows.{Windows, without, drain_decode_window}
use llm_infer.Serving.Server.AsyncEngine.{
  EngineOps, Stream, AsyncEngine, update, enqueue, drop_stream, abort_from, apply_aborts, serve,
  contained, then_serve, run_round,
}
use llm_infer.Serving.Server.AsyncEngine.Streams.{update_ne}
use llm_infer.Serving.Server.AsyncEngine.Rounds.{
  abort_from_first, abort_from_none, no_submissions, rounds, rounds_idle,
}

member_self : (id : String) → names_member id (id ∷ []) ≡ true
member_self id = ground (arith, eq_iff id id)

without_self : (id : String) → without id (id ∷ []) ≡ []
unfolding without
without_self id = ground (arith, eq_iff id id)

drop_stream_first :
    (id : String) (h : ℕ) (others : List (String × ℕ)) → drop_stream id ((id, h) ∷ others) ≡ others
unfolding drop_stream
drop_stream_first id h others = ground (arith, eq_iff id id)

abbrev Others : ℕ → (ℕ → Stream) → List (String × ℕ) → Type 0
Others h cells others =
    All (λ (e : String × ℕ). ((cells e.1).aborted ≡ false) × ((h == e.1) ≡ false)) others

untouched :
    (h : ℕ) (cells : ℕ → Stream) (s : Stream) (others : List (String × ℕ))
    → Others h cells others
    → All (λ (e : String × ℕ). update h s cells e.1 ≡ cells e.1) others
untouched h cells s [] rest = tt
untouched h cells s ((id, k) ∷ others) ((stays, other), rest) =
    (update_ne h k s cells other, untouched h cells s others rest)

attended_after :
    (h : ℕ) (cells : ℕ → Stream) (s : Stream) (others : List (String × ℕ))
    → Others h cells others
    → All (λ (e : String × ℕ). (update h s cells e.1).aborted ≡ false) others
attended_after h cells s [] rest = tt
attended_after h cells s ((id, k) ∷ others) ((stays, other), rest) = (
  ap (λ (t : Stream). t.aborted) (update_ne h k s cells other) ∙ stays,
  attended_after h cells s others rest,
)

idle_of :
    (waiting running : List String)
    → waiting ≡ []
    → running ≡ []
    → ltb 0 (length waiting + length running) ≡ false
idle_of waiting running p q = rw (p, q) refl

abort_lem :
    (id : String) (s : Session) (w : Windows)
    → has_window s.windows ≡ true
    → drain_decode_window (record (s.windows) { finished_outputs = stashed s.stashed_flush })
      ≡ ok tt w
    → w.running ≡ id ∷ []
    → s.waiting ≡ []
    → names_member id (still_registered s.windows.running w.running s.registered) ≡ true
    → (s' : Session) × (abort id s ≡ ok true s')
      × (s'.stashed_flush ≡ some w.finished_outputs)
      × (has_work s' ≡ false)
unfolding abort drain_for_abort drop_request
abort_lem id s w has drained last none_waiting known =
    let after : Session = record s {
      windows = w;
      registered = still_registered s.windows.running w.running s.registered;
      stashed_flush = some w.finished_outputs;
    } in
    let first : drain_for_abort s ≡ ok tt after = simp (has, drained, drain_for_abort) in
    let mine : names_member id w.running ≡ true = ap (names_member id) last ∙ member_self id in
    let away : names_member id s.waiting ≡ false = ap (names_member id) none_waiting in
    (
      record after {
        registered = without id after.registered;
        windows = record w { running = without id w.running };
      },
      simp (first, known, away, mine, abort, drop_request),
      refl,
      idle_of s.waiting (without id w.running) none_waiting
          (ap (without id) last ∙ without_self id),
    )

module _ (add_request : Request → Session → Outcome Session (Unit {0}))
    (step : Session → Outcome Session StepResult) where
  abbrev pub session_ops : EngineOps
  session_ops = record {
    State = Session;
    add_request = add_request;
    abort = abort;
    step = step;
    has_work = has_work;
  }

  -- On an engine without a prefix cache, where a drain does not raise, the loop takes up an aborted
  -- stream that is the oldest one while the engine has deferred tokens, nothing is submitted or
  -- waits, and once these are drained only the aborted request still runs; no other active stream
  -- is aborted. Then after one round, and after any number of further ones without a submission,
  -- the outputs of the requests that the drain finished are still stashed, the engine has no work,
  -- and the streams of all other requests are still active with nothing put on their queues. This
  -- is for any `add_request` and any `step`.
  pub rounds-stranded :
      (n : ℕ) (id : String) (h : ℕ) (others : List (String × ℕ)) (a : AsyncEngine Session)
      (w : Windows)
      → a.submissions ≡ []
      → a.streams ≡ (id, h) ∷ others
      → (a.cells h).aborted ≡ true
      → All (λ (e : String × ℕ). ((a.cells e.1).aborted ≡ false) × ((h == e.1) ≡ false)) others
      → has_window a.engine.windows ≡ true
      → drain_decode_window
          (record (a.engine.windows) { finished_outputs = stashed a.engine.stashed_flush })
        ≡ ok tt w
      → w.running ≡ id ∷ []
      → a.engine.waiting ≡ []
      → names_member id (still_registered a.engine.windows.running w.running a.engine.registered)
        ≡ true
      → (b : AsyncEngine Session) × (rounds session_ops (suc n) a ≡ b)
        × (b.engine.stashed_flush ≡ some w.finished_outputs)
        × (has_work b.engine ≡ false)
        × (b.streams ≡ others)
        × All (λ (e : String × ℕ). b.cells e.1 ≡ a.cells e.1) others
  unfolding rounds run_round apply_aborts contained
  rounds-stranded n id h others a w none_yet split goes rest has drained last none_waiting known =
      let (e, aborted, stash, idle) = abort_lem id a.engine w has drained last none_waiting known in
      let b : AsyncEngine Session = record a {
        engine = e;
        cells = enqueue h none a.cells;
        streams = others;
      } in
      let dropped : drop_stream id a.streams ≡ others =
        ap (drop_stream id) split ∙ drop_stream_first id h others in
      let swept : apply_aborts session_ops a ≡ ok tt b =
        ap (λ items. abort_from session_ops items a) split
        ∙ abort_from_first session_ops id h others a e true goes aborted
        ∙ ap
            (λ s.
              abort_from session_ops others
                (record a { engine = e; cells = enqueue h none a.cells; streams = s }))
            dropped
        ∙ abort_from_none session_ops others b (attended_after h a.cells _ others rest) in
      let served : serve session_ops b ≡ ok tt b = rw (idle, serve) refl in
      let once : run_round session_ops a ≡ b =
        ap (λ c. contained session_ops (then_serve session_ops (apply_aborts session_ops c)))
          (no_submissions session_ops a none_yet)
        ∙ ap (λ out. contained session_ops (then_serve session_ops out)) swept
        ∙ ap (contained session_ops) served in
      (
        b,
        ap (rounds session_ops n) once
            ∙ rounds_idle session_ops n b none_yet (attended_after h a.cells _ others rest) idle,
        stash,
        idle,
        refl,
        untouched h a.cells _ others rest,
      )
