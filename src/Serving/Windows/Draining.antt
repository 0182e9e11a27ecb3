-- ===== src/Serving/Windows/Draining.antt =====
-- A drain: the staged window and the open one, one after the other.
use text.Mathlib.TextEquality.{eq_iff}
use llm_infer.Prelude.{
  ℕ, zero, suc, ◌+◌, ◌≡◌, refl, ap, sym, subst, ◌∙◌, inl, inr, String, true, false, not, ◌&&◌,
  Bool-cases, Option-cases, Option, none, some, some_cancel, List, [], ◌∷◌, ◌++◌, arith,
  if◌then◌else◌, length, get_or, get_elem?, ok,
}
use llm_infer.Serving.Request.{Request}
use llm_infer.Serving.Request.Recording.{served, served-finished}
use llm_infer.Serving.Recorder.Greedy.{
  IsGreedy, IsGreedy-prefix, IsGreedy-rest, served-context, served_step, next_state,
}
use llm_infer.Serving.Engine.{find, names_member}
use llm_infer.Serving.Windows.{
  PendingWindowFlush, Windows, column, release_finished, consume_window_flush, consume_some,
}
use llm_infer.Serving.Windows.Columns.{
  Served, GreedyColumns, GreedyFor, context, record_columns-Served, length-column,
}
use llm_infer.Serving.Windows.Consumption.{release_finished-Released}
use llm_infer.Scheduler.Books.{Unique, fresh}

abbrev pub ids_of : Option PendingWindowFlush → List String
ids_of none = []
ids_of (some p) = p.request_ids

abbrev pub matrix_of : Option PendingWindowFlush → List (List ℕ)
matrix_of none = []
matrix_of (some p) = p.matrix

-- One consumption: the batch is served, and its finished requests run no longer.
pub record Phase (model : List ℕ → ℕ) (o : Option PendingWindowFlush) (w w' : Windows)
    : Type 0 where
  pub served_all : Served model (length (matrix_of o)) (ids_of o) w.requests w'.requests
  pub unique : Unique w'.running
  pub running :
      (id : String) (r : Request)
      → find id w'.requests ≡ some r
      → names_member id w'.running
        ≡ (if not (fresh id (ids_of o)) && r.finished then false else names_member id w.running)

pub idle-Phase : (model : List ℕ → ℕ) (w : Windows) → Unique w.running → Phase model none w w
idle-Phase model w u = record {
  served_all = record {
    members = λ id r here known. absurd (cc);
    others = λ id new. refl;
    missing = λ id gone. gone;
  };
  unique = u;
  running = λ id r here. refl;
}

pub consume_some-Phase :
    (model : List ℕ → ℕ) (o : Option PendingWindowFlush) (w : Windows)
    → Unique w.running
    → Unique (ids_of o)
    → GreedyColumns model 0 (ids_of o) (matrix_of o) w.requests
    → (w' : Windows) × (consume_some o w ≡ ok tt w')
      × Phase model o w w'
      × (w'.decode_window ≡ w.decode_window)
      × (w'.pending_flush ≡ w.pending_flush)
unfolding consume_window_flush
consume_some-Phase model none w u v g = (w, refl, idle-Phase model w u, refl, refl)
consume_some-Phase model (some p) w u v g =
    let (rs, run, s) = record_columns-Served model 0 p.request_ids p.matrix w.requests v g in
    let w₁ : Windows = record w { requests = rs } in
    let out = release_finished-Released p.request_ids w₁ u in
    let w' = release_finished p.request_ids w₁ in
    (
      w',
      rw (run, consume_window_flush) refl,
      record {
        served_all =
            subst (λ q. Served model (length p.matrix) p.request_ids w.requests q)
              (sym out.requests) s;
        unique = out.unique;
        running = λ id r here. out.running id r (ap (find id) (sym out.requests) ∙ here);
      },
      out.window,
      out.flush,
    )

pub column-append :
    (i : ℕ) (xs ys : List (List ℕ)) → column i (xs ++ ys) ≡ column i xs ++ column i ys
column-append i [] ys = refl
column-append i (x ∷ xs) ys = ap (◌∷◌ (get_or x i 0)) (column-append i xs ys)

fresh-known :
    (ids : List String) (j : ℕ) (id : String) → get_elem? ids j ≡ some id → fresh id ids ≡ false
fresh-known [] j id h = absurd (ground arith)
fresh-known (key ∷ ids) zero id h = ground (arith, eq_iff key id)
fresh-known (key ∷ ids) (suc j) id h = ground (arith, fresh-known ids j id)

-- What is greedy for a request after its first tokens is greedy when these are recorded.
later-GreedyFor :
    (model : List ℕ → ℕ) (j : ℕ) (xs ys : List (List ℕ)) (r : Request)
    → GreedyFor model (column j (xs ++ ys)) r
    → GreedyFor model (column j ys) (served model (length xs) r)
later-GreedyFor model j xs ys r g going = elim (Bool-cases r.finished) [
  | inl done ↦
      let same = served-finished model (length xs) r done in
      let over : true ≡ false = sym done ∙ ap (λ (u : Request). u.finished) (sym same) ∙ going in
      absurd (cc)
  | inr still ↦
      let all : IsGreedy model (context r) (column j xs ++ column j ys) =
        subst (IsGreedy model (context r)) (column-append j xs ys) (g still) in
      let size : length (column j xs) ≡ length xs = length-column j xs in
      let first = IsGreedy-prefix model (context r) (column j xs) (column j ys) all in
      let grown : context (served model (length xs) r) ≡ context r ++ column j xs =
        ap (λ n. context (served model n r)) (sym size)
        ∙ served-context model (column j xs) r first
            (ap (λ n. (served model n r).finished) size ∙ going) in
      subst (λ c. IsGreedy model c (column j ys)) (sym grown)
        (IsGreedy-rest model (context r) (column j xs) (column j ys) all)
]

pub later-GreedyColumns :
    (model : List ℕ → ℕ) (ids : List String) (xs ys : List (List ℕ)) (rs rs' : List Request)
    → GreedyColumns model 0 ids (xs ++ ys) rs
    → Served model (length xs) ids rs rs'
    → GreedyColumns model 0 ids ys rs'
later-GreedyColumns model ids xs ys rs rs' g s j id q at found = elim (Option-cases (find id rs)) [
  | inl nowhere ↦ let gone = s.missing id nowhere in absurd (cc)
  | inr (r, here) ↦
      let is : served model (length xs) r ≡ q =
        some_cancel (sym (s.members id r here (fresh-known ids j id at)) ∙ found) in
      subst (GreedyFor model (column (0 + j) ys)) is
        (later-GreedyFor model (0 + j) xs ys r (g j id r at here))
]

pub served-add :
    (model : List ℕ → ℕ) (n m : ℕ) (r : Request)
    → served model (n + m) r ≡ served model m (served model n r)
unfolding served
served-add model zero m r = let e : zero + m ≡ m = omega arith in rw (e) refl
served-add model (suc n) m r =
    let e : suc n + m ≡ suc (n + m) = omega arith in
    elim (Bool-cases r.finished) [
      | inl done ↦
          served-finished model (suc n + m) r done
          ∙ sym (served-finished model m r done)
          ∙ ap (served model m) (sym (served-finished model (suc n) r done))
      | inr going ↦
          ap (λ k. served model k r) e
          ∙ served_step model (n + m) r going
          ∙ served-add model n m (next_state r (model (r.prompt_ids ++ r.generated)))
          ∙ ap (served model m) (sym (served_step model n r going))
    ]
