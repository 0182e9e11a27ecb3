-- ===== src/Serving/Windows/Opening.antt =====
-- Opening a window keeps the tokens on the device greedy.
use text.Mathlib.TextEquality.{eq_iff}
use mathlib.Core.List.{append-nil}
use llm_infer.Prelude.{
  ℕ, ◌≡◌, refl, ap, sym, subst, ◌∙◌, inl, inr, String, true, Bool-cases, Option-cases, none, some,
  some_cancel, List, [], ◌∷◌, ◌++◌, arith, length, ok,
}
use llm_infer.Serving.Windows.{PendingWindowFlush, Windows}
use llm_infer.Serving.Windows.Batches.{names_eq, pipelined, opened, open_on, open_window}
use llm_infer.Serving.Windows.Columns.{GreedyColumns}
use llm_infer.Serving.Windows.Draining.{ids_of, matrix_of}
use llm_infer.Serving.Windows.Exactness.{Deferred}
use llm_infer.Serving.Windows.Steps.{Kept, Kept-refl, Kept-trans, Ready, drained-Ready}
use llm_infer.Scheduler.Books.{Unique}

names_eq→eq : (xs ys : List String) → names_eq xs ys ≡ true → xs ≡ ys
names_eq→eq [] [] h = refl
names_eq→eq [] (y ∷ ys) h = absurd (cc)
names_eq→eq (x ∷ xs) [] h = absurd (cc)
names_eq→eq (x ∷ xs) (y ∷ ys) h =
    let is : x ≡ y = ground (arith, eq_iff x y) in
    let rest = names_eq→eq xs ys (ground (arith)) in ap (λ z. z ∷ xs) is ∙ ap (◌∷◌ y) rest

-- A window opened on the batch of what is staged, if anything is.
opened-Deferred :
    (model : List ℕ → ℕ) (size steps : ℕ) (ids : List String) (w : Windows)
    → Unique ids
    → Deferred model w
    → ((staged : PendingWindowFlush) → w.pending_flush ≡ some staged → staged.request_ids ≡ ids)
    → Deferred model (opened size steps ids w)
opened-Deferred model size steps ids w u h same = record {
  unique = h.unique;
  staged_unique = h.staged_unique;
  staged_greedy = h.staged_greedy;
  open_unique = u;
  open_greedy = elim (Option-cases w.pending_flush) [
    | inl nothing ↦
        subst (λ o. GreedyColumns model 0 ids (matrix_of o ++ []) w.requests) (sym nothing)
          (λ j id r at here going. tt)
    | inr (staged, is) ↦
        subst (λ m. GreedyColumns model 0 ids m w.requests)
          (sym (append-nil (matrix_of w.pending_flush)))
          (subst (λ names. GreedyColumns model 0 names (matrix_of w.pending_flush) w.requests)
            (ap ids_of is ∙ same staged is) h.staged_greedy)
  ];
  same_batch = λ staged window is at.
      same staged is ∙ ap (λ (p : PendingWindowFlush). p.request_ids) (some_cancel at);
}

opened-Kept :
    (model : List ℕ → ℕ) (size steps : ℕ) (ids : List String) (w : Windows)
    → Unique ids
    → Deferred model w
    → ((staged : PendingWindowFlush) → w.pending_flush ≡ some staged → staged.request_ids ≡ ids)
    → Kept model w (opened size steps ids w)
opened-Kept model size steps ids w u h same = record {
  deferred = opened-Deferred model size steps ids w u h same;
  advanced = (Kept-refl model w h).advanced;
}

open_on-Kept :
    (model : List ℕ → ℕ) (size : ℕ) (ids : List String) (w : Windows)
    → Unique ids
    → Deferred model w
    → w.pending_flush ≡ none
    → Kept model w (open_on size ids w)
open_on-Kept model size [] w u h nothing = Kept-refl model w h
open_on-Kept model size (id ∷ ids) w u h nothing =
    opened-Kept model size 0 (id ∷ ids) w u h (λ staged is. absurd (cc))

pub open_window-Ready :
    (model : List ℕ → ℕ) (size : ℕ) (ids : List String) (w : Windows)
    → Unique ids
    → Deferred model w
    → (ids' : List String) × (w' : Windows) × (open_window size ids w ≡ ok ids' w')
      × Ready model w w' ids'
unfolding open_window
open_window-Ready model size ids w u h = elim (Option-cases w.decode_window) [
  | inr (window, is) ↦
      (ids, w, simp (is, open_window), record { kept = Kept-refl model w h; unique = u })
  | inl no_window ↦ elim (Option-cases w.pending_flush) [
    | inl nothing ↦ (
      ids,
      open_on size ids w,
      simp (no_window, nothing, open_window),
      record { kept = open_on-Kept model size ids w u h nothing; unique = u },
    )
    | inr (staged, is) ↦ elim (Bool-cases (pipelined staged ids w)) [
      | inl behind ↦ (
        ids,
        opened size (length staged.matrix) ids w,
        simp (no_window, is, behind, open_window),
        record {
          kept = opened-Kept model size (length staged.matrix) ids w u h (λ other at.
              ap (λ (p : PendingWindowFlush). p.request_ids) (some_cancel (sym at ∙ is))
              ∙ names_eq→eq staged.request_ids ids (ground (arith, behind)));
          unique = u;
        },
      )
      | inr apart ↦
          let (ids', w', run, ready, _, nothing) = drained-Ready model ids w u h in
          (
            ids',
            open_on size ids' w',
            simp (no_window, is, apart, run, open_window),
            record {
              kept =
                  Kept-trans model w w' (open_on size ids' w') ready.kept
                    (open_on-Kept model size ids' w' ready.unique ready.kept.deferred nothing);
              unique = ready.unique;
            },
          )
    ]
  ]
]
