-- ===== src/Serving/Windows/Feeding.antt =====
-- What the next forward of an open window reads: the last token of each request.
use text.Mathlib.TextEquality.{eq_iff}
use mathlib.Core.List.{append-nil, append_assoc}
use llm_infer.Prelude.{
  ℕ, zero, suc, ◌≡◌, refl, ap, sym, subst, ◌∙◌, inl, inr, String, true, false, Option-cases, Option,
  none, some, some_cancel, List, [], ◌∷◌, ◌++◌, arith, get_or, get_elem?,
}
use llm_infer.Serving.Request.{Request, last_of, last_token}
use llm_infer.Serving.Engine.{find}
use llm_infer.Serving.Windows.{
  DecodeWindow, PendingWindowFlush, Windows, column, stage_window_flush,
}
use llm_infer.Serving.Windows.Batches.{
  names_eq, last_row, recorded_tokens, staged_tokens, last_tokens_of,
}
use llm_infer.Serving.Windows.Columns.{context}
use llm_infer.Serving.Windows.Draining.{matrix_of, column-append}
use llm_infer.Serving.Windows.Exactness.{window_of, Deferred}

abbrev pub EndsWith : List ℕ → ℕ → Type 0
EndsWith ts t = (before : List ℕ) × (ts ≡ before ++ t ∷ [])

-- For each unfinished request of the window's batch its last token, recorded or on the device.
abbrev pub LastTokens : Windows → DecodeWindow → List ℕ → Type 0
LastTokens w window last =
    (j : ℕ) (id : String) (r : Request)
    → get_elem? window.request_ids j ≡ some id
    → find id w.requests ≡ some r
    → r.finished ≡ false
    → EndsWith (context r ++ column j (matrix_of w.pending_flush ++ window.pending))
        (get_or last j 0)

last_row-EndsWith :
    (ts : List ℕ) (j : ℕ) (earlier matrix : List (List ℕ)) (row : List ℕ)
    → last_row matrix ≡ some row
    → EndsWith (ts ++ column j (earlier ++ matrix)) (get_or row j 0)
last_row-EndsWith ts j earlier [] row h = absurd (ground arith)
last_row-EndsWith ts j earlier (r ∷ []) row h = (
  ts ++ column j earlier,
  ap (λ c. ts ++ c) (column-append j earlier (r ∷ []))
      ∙ sym (append_assoc ts (column j earlier) (get_or r j 0 ∷ []))
      ∙ ap (λ (q : List ℕ). (ts ++ column j earlier) ++ get_or q j 0 ∷ []) (some_cancel h),
)
last_row-EndsWith ts j earlier (r ∷ next ∷ rows) row h =
    let (before, is) = last_row-EndsWith ts j (earlier ++ r ∷ []) (next ∷ rows) row h in
    (before, ap (λ m. ts ++ column j m) (sym (append_assoc earlier (r ∷ []) (next ∷ rows))) ∙ is)

last_of-EndsWith : (ts : List ℕ) (t : ℕ) → last_of ts ≡ some t → EndsWith ts t
last_of-EndsWith [] t h = absurd (ground arith)
last_of-EndsWith (x ∷ []) t h = ([], ap (λ y. y ∷ []) (some_cancel h))
last_of-EndsWith (x ∷ y ∷ ts) t h =
    let (before, is) = last_of-EndsWith (y ∷ ts) t h in (x ∷ before, ap (◌∷◌ x) is)

-- What is recorded of a batch, from its first request on.
recorded_first :
    (key : String) (ids : List String) (w : Windows) (last : List ℕ)
    → recorded_tokens (key ∷ ids) w ≡ some last
    → (q : Request) × (t : ℕ) × (ts : List ℕ) × (find key w.requests ≡ some q)
      × (last_token q ≡ some t)
      × (recorded_tokens ids w ≡ some ts)
      × (last ≡ t ∷ ts)
unfolding recorded_tokens
recorded_first key ids w last h = elim (Option-cases (find key w.requests)) [
  | inl nowhere ↦
      let nothing : recorded_tokens (key ∷ ids) w ≡ none = rw (nowhere, recorded_tokens) refl in
      absurd (cc)
  | inr (q, there) ↦ elim (Option-cases (last_token q)) [
    | inl no_token ↦
        let nothing : recorded_tokens (key ∷ ids) w ≡ none =
          rw (there, recorded_tokens, no_token) refl in
        absurd (cc)
    | inr (t, token) ↦ elim (Option-cases (recorded_tokens ids w)) [
      | inl no_tokens ↦
          let nothing : recorded_tokens (key ∷ ids) w ≡ none =
            rw (there, recorded_tokens, token, no_tokens) refl in
          absurd (cc)
      | inr (ts, tokens) ↦
          let all : recorded_tokens (key ∷ ids) w ≡ some (t ∷ ts) =
            rw (there, recorded_tokens, token, tokens) refl in
          (q, t, ts, there, token, tokens, some_cancel (sym h ∙ all))
    ]
  ]
]

recorded_tokens-at :
    (ids : List String) (w : Windows) (last : List ℕ) (j : ℕ) (id : String) (r : Request)
    → recorded_tokens ids w ≡ some last
    → get_elem? ids j ≡ some id
    → find id w.requests ≡ some r
    → last_token r ≡ some (get_or last j 0)
recorded_tokens-at [] w last j id r h at here = absurd (ground arith)
recorded_tokens-at (key ∷ ids) w last zero id r h at here =
    let (q, t, ts, there, token, _, is) = recorded_first key ids w last h in
    let same : q ≡ r =
      some_cancel (sym there ∙ ap (λ k. find k w.requests) (some_cancel at) ∙ here) in
    ap last_token (sym same) ∙ token ∙ ap (λ (l : List ℕ). some (get_or l 0 0)) (sym is)
recorded_tokens-at (key ∷ ids) w last (suc j) id r h at here =
    let (q, t, ts, there, token, tokens, is) = recorded_first key ids w last h in
    recorded_tokens-at ids w ts j id r tokens at here
    ∙ ap (λ (l : List ℕ). some (get_or l (suc j) 0)) (sym is)

recorded-LastTokens :
    (ids : List String) (w : Windows) (last : List ℕ) (j : ℕ) (id : String) (r : Request)
    → recorded_tokens ids w ≡ some last
    → get_elem? ids j ≡ some id
    → find id w.requests ≡ some r
    → EndsWith (context r) (get_or last j 0)
recorded-LastTokens ids w last j id r h at here =
    let (before, is) =
      last_of-EndsWith r.generated (get_or last j 0)
        (recorded_tokens-at ids w last j id r h at here) in
    (
      r.prompt_ids ++ before,
      ap (λ g. r.prompt_ids ++ g) is
          ∙ sym (append_assoc r.prompt_ids before (get_or last j 0 ∷ [])),
    )

names_eq_refl : (xs : List String) → names_eq xs xs ≡ true
names_eq_refl [] = refl
names_eq_refl (x ∷ xs) = ground (arith, (eq_iff x x).1 refl, names_eq_refl xs)

-- A window that is still empty, behind what is staged.
staged-LastTokens :
    (o : Option PendingWindowFlush) (ids : List String) (w : Windows) (last : List ℕ) (j : ℕ)
    (id : String) (r : Request)
    → w.pending_flush ≡ o
    → ((p : PendingWindowFlush) → o ≡ some p → p.request_ids ≡ ids)
    → staged_tokens ids w ≡ some last
    → get_elem? ids j ≡ some id
    → find id w.requests ≡ some r
    → EndsWith (context r ++ column j (matrix_of o ++ [])) (get_or last j 0)
staged-LastTokens none ids w last j id r is same h at here =
    let recorded : recorded_tokens ids w ≡ some last = sym (rw (is) refl) ∙ h in
    subst (λ c. EndsWith c (get_or last j 0)) (sym (append-nil (context r)))
      (recorded-LastTokens ids w last j id r recorded at here)
staged-LastTokens (some p) ids w last j id r is same h at here =
    let own : names_eq p.request_ids ids ≡ true =
      subst (λ k. names_eq p.request_ids k ≡ true) (same p refl) (names_eq_refl p.request_ids) in
    let row : last_row p.matrix ≡ some last = sym (rw (is, own) refl) ∙ h in
    subst (λ m. EndsWith (context r ++ column j m) (get_or last j 0)) (sym (append-nil p.matrix))
      (last_row-EndsWith (context r) j [] p.matrix last row)

fed-LastTokens :
    (ids : List String) (budget : ℕ) (pending : List (List ℕ)) (w : Windows) (last : List ℕ)
    → let window : DecodeWindow = record {
      request_ids = ids;
      budget = budget;
      pending = pending;
    } in
      ((p : PendingWindowFlush) → w.pending_flush ≡ some p → p.request_ids ≡ ids)
      → last_tokens_of window w ≡ some last
      → LastTokens w window last
fed-LastTokens ids budget [] w last same fed j id r at here going =
    staged-LastTokens w.pending_flush ids w last j id r refl same fed at here
fed-LastTokens ids budget (row ∷ rows) w last same fed j id r at here going =
    last_row-EndsWith (context r) j (matrix_of w.pending_flush) (row ∷ rows) last fed

-- The step feeds the last tokens.
pub last_tokens_of-LastTokens :
    (model : List ℕ → ℕ) (w : Windows) (window : DecodeWindow) (last : List ℕ)
    → w.decode_window ≡ some window
    → Deferred model w
    → last_tokens_of window w ≡ some last
    → LastTokens w window last
last_tokens_of-LastTokens model w window last is h fed =
    fed-LastTokens window.request_ids window.budget window.pending w last
      (λ p at. h.same_batch p (stage_window_flush window) at (ap window_of is)) fed
