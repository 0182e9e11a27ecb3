-- ===== src/Serving/Server/AsyncEngine/Rounds.antt =====
-- Rounds of the loop in which nothing is to do.
use llm_infer.Prelude.{
  ℕ, zero, suc, ◌≡◌, refl, ap, sym, subst, ◌∙◌, String, Bool, true, false, none, List, [], ◌∷◌, All,
  ok,
}
use llm_infer.Serving.Server.AsyncEngine.{
  EngineOps, Stream, AsyncEngine, enqueue, drop_stream, drain_from, drain_submissions, abort_from,
  apply_aborts, serve, contained, then_serve, run_round,
}

module _ (o : EngineOps) where
  open o use {State}

  pub abort_from_first :
      (id : String) (h : ℕ) (items : List (String × ℕ)) (a : AsyncEngine State) (e : State)
      (b : Bool)
      → (a.cells h).aborted ≡ true
      → o.abort id a.engine ≡ ok b e
      → abort_from o ((id, h) ∷ items) a
        ≡ abort_from o items (record a {
          engine = e;
          cells = enqueue h none a.cells;
          streams = drop_stream id a.streams;
        })
  unfolding abort_from
  abort_from_first id h items a e b goes aborted = simp (goes, aborted, abort_from)

  unfoldable pub rounds : ℕ → AsyncEngine State → AsyncEngine State
  rounds zero a = a
  rounds (suc n) a = rounds n (run_round o a)

  abbrev pub Attended : (ℕ → Stream) → List (String × ℕ) → Type 0
  Attended cells items = All (λ (e : String × ℕ). (cells e.1).aborted ≡ false) items

  pub abort_from_none :
      (items : List (String × ℕ)) (a : AsyncEngine State)
      → Attended a.cells items
      → abort_from o items a ≡ ok tt a
  unfolding abort_from
  abort_from_none [] a h = refl
  abort_from_none ((id, k) ∷ items) a (stays, rest) =
      rw (stays, abort_from) (abort_from_none items a rest)

  pub no_submissions : (a : AsyncEngine State) → a.submissions ≡ [] → drain_submissions o a ≡ a
  unfolding drain_submissions drain_from
  no_submissions a none_yet =
      subst (λ s. drain_from o s (record a { submissions = [] }) ≡ a) (sym none_yet)
        (ap (λ s. let b : AsyncEngine State = record a { submissions = s } in b) (sym none_yet))

  round_idle :
      (a : AsyncEngine State)
      → a.submissions ≡ []
      → Attended a.cells a.streams
      → o.has_work a.engine ≡ false
      → run_round o a ≡ a
  unfolding run_round apply_aborts serve contained
  round_idle a none_yet attended idle =
      let served : serve o a ≡ ok tt a = rw (idle, serve) refl in
      ap (λ b. contained o (then_serve o (apply_aborts o b))) (no_submissions a none_yet)
      ∙ ap (λ out. contained o (then_serve o out)) (abort_from_none a.streams a attended)
      ∙ ap (contained o) served

  pub rounds_idle :
      (n : ℕ) (a : AsyncEngine State)
      → a.submissions ≡ []
      → Attended a.cells a.streams
      → o.has_work a.engine ≡ false
      → rounds n a ≡ a
  unfolding rounds
  rounds_idle zero a s h i = refl
  rounds_idle (suc n) a s h i = ap (rounds n) (round_idle a s h i) ∙ rounds_idle n a s h i
