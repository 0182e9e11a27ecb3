-- ===== src/Serving/Server/AsyncEngine/Submitting.antt =====
-- A submitted stream is open and reached from the submissions.
use text.Mathlib.Text.{◌==◌ as str_eq}
use text.Mathlib.TextEquality.{eq_iff}
use llm_infer.Prelude.{
  ℕ, suc, ◌+◌, ◌≡◌, refl, ap, sym, subst, ◌∙◌, inl, inr, Bool-cases, Option-cases, none, [], ◌∷◌,
  ◌++◌, arith, tally, count, count-append, ◌==◌, Outcome, ok, raise, bad_state,
}
use llm_infer.Serving.Request.{Request}
use llm_infer.Serving.Server.AsyncEngine.{Stream, AsyncEngine, update, new_stream, submit}
use llm_infer.Serving.Server.AsyncEngine.Streams.{Books, Held, update_self, update_ne}
use llm_infer.Serving.Server.AsyncEngine.Entries.{
  handles, entries, times, times-append, handles-append, entries-append,
}
use llm_infer.Serving.Server.AsyncEngine.Loops.{names, Ledger}

submitted-Books :
    (r : Request) (next : ℕ) (n n' : ℕ → ℕ) (cells : ℕ → Stream)
    → ((k : ℕ) → n' k ≡ n k + tally (next == k))
    → Books next n cells
    → Books (suc next) n' (update next (new_stream r) cells)
submitted-Books r next n n' cells e b = record {
  each = λ k lt. elim (Bool-cases (next == k)) [
    | inl same ↦
        let is : next ≡ k = ground arith in
        subst (λ j. Held (update next (new_stream r) cells j) (n' j)) is
          (subst (λ s. Held s (n' next)) (sym (update_self next (new_stream r) cells))
            (inl (ground (arith, e next, b.beyond next), (refl, refl))))
    | inr other ↦
        subst (λ s. Held s (n' k)) (sym (update_ne next k (new_stream r) cells other))
          (subst (Held (cells k)) (ground (arith, e k)) (b.each k (ground arith)))
  ];
  beyond = λ k le. ground (arith, e k, b.beyond k);
}

module _ {E : Type 0} where
  abbrev pub submitted : Request → AsyncEngine E → AsyncEngine E
  submitted r a = record a {
    submissions = a.submissions ++ (r, a.next) ∷ [];
    cells = update a.next (new_stream r) a.cells;
    next = suc a.next;
  }

  ok_cancel :
      (x y : AsyncEngine E) (h k : ℕ)
      → ◌≡◌ {A = Outcome (AsyncEngine E) ℕ} (ok h x) (ok k y)
      → y ≡ x
  ok_cancel x y h k e = cc

  pub submit_inv :
      (r : Request) (a a' : AsyncEngine E) (h : ℕ)
      → submit r a ≡ ok h a'
      → (a.fatal ≡ none) × (a' ≡ submitted r a)
  unfolding submit
  submit_inv r a a' h e = elim (Option-cases a.fatal) [
    | inl alive ↦
        let is : submit r a ≡ ok a.next (submitted r a) = simp (alive, submit) in
        (alive, ok_cancel _ _ _ _ (sym is ∙ e))
    | inr (err, dead) ↦ let is : submit r a ≡ raise bad_state a = simp (dead, submit) in absurd (cc)
  ]

  pub submitted-Ledger :
      (r : Request) (a : AsyncEngine E)
      → names [] a r.request_id ≡ 0
      → Ledger [] a
      → Ledger [] (submitted r a)
  submitted-Ledger r a new l = record {
    books =
        submitted-Books r a.next _ _ a.cells
          (λ k. omega (
            arith,
            ap (count k) (handles-append a.submissions ((r, a.next) ∷ [])),
            count-append k (handles a.submissions) (a.next ∷ []),
          ))
          l.books;
    once = λ id.
        let more : names [] (submitted r a) id ≡ names [] a id + tally (str_eq r.request_id id) =
          omega (
            arith,
            ap (times id) (entries-append a.submissions ((r, a.next) ∷ [])),
            times-append id (entries a.submissions) ((r.request_id, a.next) ∷ []),
          ) in
        elim (Bool-cases (str_eq r.request_id id)) [
          | inl same ↦
              let is : r.request_id ≡ id = (eq_iff r.request_id id).0 same in
              let none_yet : names [] a id ≡ 0 = subst (λ x. names [] a x ≡ 0) is new in
              ground (arith, more)
          | inr other ↦ ground (arith, more, l.once id)
        ];
  }
