-- ===== src/Serving/Windows/Columns.antt =====
-- Recording the columns of a staged window serves each request of the batch.
use text.Mathlib.Text.{◌==◌ as str_eq}
use text.Mathlib.TextEquality.{eq_iff}
use llm_infer.Prelude.{
  ℕ, zero, suc, ◌+◌, ◌≡◌, refl, ap, sym, subst, ◌∙◌, inl, inr, String, true, false, Bool-cases,
  Option-cases, none, some, some_cancel, List, [], ◌∷◌, ◌++◌, arith, if◌then◌else◌, length,
  get_elem?, ok,
}
use llm_infer.Serving.Request.{Request}
use llm_infer.Serving.Request.Recording.{served, served-finished}
use llm_infer.Serving.Recorder.{record_tokens}
use llm_infer.Serving.Recorder.Greedy.{
  IsGreedy, next_state, served_step, record_tokens-served, record_tokens-finished,
}
use llm_infer.Serving.Engine.{find, replace}
use llm_infer.Serving.Windows.{column, record_columns}
use llm_infer.Scheduler.Books.{Unique, fresh}

abbrev pub context : Request → List ℕ
context r = r.prompt_ids ++ r.generated

-- The tokens are greedy for a request that is not finished.
abbrev pub GreedyFor : (List ℕ → ℕ) → List ℕ → Request → Type 0
GreedyFor model ts r = r.finished ≡ false → IsGreedy model (context r) ts

pub length-column : (i : ℕ) (matrix : List (List ℕ)) → length (column i matrix) ≡ length matrix
length-column i [] = refl
length-column i (row ∷ rows) = ap suc (length-column i rows)

served-request_id :
    (model : List ℕ → ℕ) (n : ℕ) (r : Request) → (served model n r).request_id ≡ r.request_id
unfolding served
served-request_id model zero r = refl
served-request_id model (suc n) r = elim (Bool-cases r.finished) [
  | inl done ↦ ap (λ (u : Request). u.request_id) (served-finished model (suc n) r done)
  | inr going ↦
      ap (λ (u : Request). u.request_id) (served_step model n r going)
      ∙ served-request_id model n (next_state r (model (r.prompt_ids ++ r.generated)))
]

record_column :
    (model : List ℕ → ℕ) (i : ℕ) (matrix : List (List ℕ)) (r : Request)
    → GreedyFor model (column i matrix) r
    → record_tokens (column i matrix) r ≡ ok tt (served model (length matrix) r)
record_column model i matrix r g = elim (Bool-cases r.finished) [
  | inl done ↦
      record_tokens-finished (column i matrix) r done
      ∙ ap (ok tt) (sym (served-finished model (length matrix) r done))
  | inr going ↦
      record_tokens-served model (column i matrix) r (g going)
      ∙ ap (λ n. ok tt (served model n r)) (length-column i matrix)
]

pub find-request_id :
    (id : String) (rs : List Request) (r : Request) → find id rs ≡ some r → r.request_id ≡ id
unfolding find
find-request_id id [] r h = absurd (ground arith)
find-request_id id (q ∷ rs) r h = elim (Bool-cases (str_eq q.request_id id)) [
  | inl here ↦
      let is : q ≡ r = ground arith in
      ap (λ (u : Request). u.request_id) (sym is) ∙ (eq_iff q.request_id id).0 here
  | inr there ↦ find-request_id id rs r (ground arith)
]

find-replace :
    (id : String) (r : Request) (rs : List Request) (u : Request)
    → find r.request_id rs ≡ some u
    → find id (replace r rs) ≡ (if str_eq r.request_id id then some r else find id rs)
unfolding find replace
find-replace id r [] u h = absurd (ground arith)
find-replace id r (q ∷ rs) u h = elim (Bool-cases (str_eq q.request_id r.request_id)) [
  | inl here ↦ ground (arith, eq_iff q.request_id r.request_id)
  | inr there ↦
      let rest = find-replace id r rs u (ground arith) in
      ground (
        arith,
        rest,
        eq_iff q.request_id id,
        eq_iff r.request_id id,
        eq_iff q.request_id r.request_id,
      )
]

pub fresh-at :
    (id : String) (ids : List String) (j : ℕ) (other : String)
    → fresh id ids ≡ true
    → get_elem? ids j ≡ some other
    → str_eq id other ≡ false
fresh-at id [] j other new h = absurd (ground arith)
fresh-at id (key ∷ ids) zero other new h =
    let is : key ≡ other = some_cancel h in ground (arith, eq_iff id other, eq_iff key id)
fresh-at id (key ∷ ids) (suc j) other new h = fresh-at id ids j other (ground arith) h

-- Each request of the batch has been served for `n` tokens, and no other has changed.
pub record Served (model : List ℕ → ℕ) (n : ℕ) (ids : List String) (rs rs' : List Request)
    : Type 0 where
  pub members :
      (id : String) (r : Request)
      → find id rs ≡ some r
      → fresh id ids ≡ false
      → find id rs' ≡ some (served model n r)
  pub others : (id : String) → fresh id ids ≡ true → find id rs' ≡ find id rs
  pub missing : (id : String) → find id rs ≡ none → find id rs' ≡ none

-- The columns from `i` on are greedy for the requests of the batch.
abbrev pub GreedyColumns : (List ℕ → ℕ) → ℕ → List String → List (List ℕ) → List Request → Type 0
GreedyColumns model i ids matrix rs =
    (j : ℕ) (id : String) (r : Request)
    → get_elem? ids j ≡ some id
    → find id rs ≡ some r
    → GreedyFor model (column (i + j) matrix) r

Served-skip :
    (model : List ℕ → ℕ) (n : ℕ) (id : String) (ids : List String) (rs rs' : List Request)
    → find id rs ≡ none
    → Served model n ids rs rs'
    → Served model n (id ∷ ids) rs rs'
Served-skip model n id ids rs rs' nowhere s = record {
  members = λ key r here known. elim (Bool-cases (str_eq id key)) [
    | inl same ↦
        let is : id ≡ key = (eq_iff id key).0 same in
        let gone : find key rs ≡ none = subst (λ k. find k rs ≡ none) is nowhere in absurd (cc)
    | inr other ↦ s.members key r here (ground arith)
  ];
  others = λ key new. s.others key (ground arith);
  missing = s.missing;
}

Served-cons :
    (model : List ℕ → ℕ) (n : ℕ) (id : String) (ids : List String) (rs rs' : List Request)
    (r : Request)
    → find id rs ≡ some r
    → fresh id ids ≡ true
    → Served model n ids (replace (served model n r) rs) rs'
    → Served model n (id ∷ ids) rs rs'
Served-cons model n id ids rs rs' r here new s =
    let r' = served model n r in
    let name : r'.request_id ≡ id = served-request_id model n r ∙ find-request_id id rs r here in
    let at : (key : String)
        → find key (replace r' rs) ≡ (if str_eq id key then some r' else find key rs) =
      λ key.
        find-replace key r' rs r (ap (λ k. find k rs) name ∙ here)
        ∙ ap (λ k. if str_eq k key then some r' else find key rs) name in
    record {
      members = λ key u found known. elim (Bool-cases (str_eq id key)) [
        | inl same ↦
            let is : id ≡ key = (eq_iff id key).0 same in
            let this : r ≡ u = some_cancel (sym here ∙ ap (λ k. find k rs) is ∙ found) in
            s.others key (subst (λ k. fresh k ids ≡ true) is new)
            ∙ at key
            ∙ (rw (same) refl)
            ∙ ap (λ q. some (served model n q)) this
        | inr other ↦ s.members key u (at key ∙ (rw (other) found)) (ground arith)
      ];
      others = λ key fresh_key.
          let other : str_eq id key ≡ false = ground arith in
          s.others key (ground arith) ∙ at key ∙ (rw (other) refl);
      missing = λ key gone. elim (Bool-cases (str_eq id key)) [
        | inl same ↦
            let is : id ≡ key = (eq_iff id key).0 same in
            let found : find key rs ≡ some r = ap (λ k. find k rs) (sym is) ∙ here in absurd (cc)
        | inr other ↦ s.missing key (at key ∙ (rw (other) gone))
      ];
    }

pub record_columns-Served :
    (model : List ℕ → ℕ) (i : ℕ) (ids : List String) (matrix : List (List ℕ)) (rs : List Request)
    → Unique ids
    → GreedyColumns model i ids matrix rs
    → (rs' : List Request) × (record_columns i ids matrix rs ≡ ok tt rs')
      × Served model (length matrix) ids rs rs'
unfolding record_columns
record_columns-Served model i [] matrix rs u g = (
  rs,
  refl,
  record {
    members = λ id r here known. absurd (cc);
    others = λ id new. refl;
    missing = λ id gone. gone;
  },
)
record_columns-Served model i (id ∷ ids) matrix rs (new, u) g = elim (Option-cases (find id rs)) [
  | inl nowhere ↦
      let (rs', run, s) =
        record_columns-Served model (suc i) ids matrix rs u
          (λ j key r at here. shifted j r (g (suc j) key r at here)) in
      (
        rs',
        rw (nowhere, record_columns) run,
        Served-skip model (length matrix) id ids rs rs' nowhere s,
      )
  | inr (r, here) ↦
      let r' = served model (length matrix) r in
      let (rs', run, s) =
        record_columns-Served model (suc i) ids matrix (replace r' rs) u (λ j key q at found.
          shifted j q (g (suc j) key q at (unchanged r here j key q at found))) in
      let first : GreedyFor model (column i matrix) r = shifted_first r (g zero id r refl here) in
      (
        rs',
        rw (here, record_columns, record_column model i matrix r first) run,
        Served-cons model (length matrix) id ids rs rs' r here new s,
      )
]
  where
    shifted :
        (j : ℕ) (r : Request)
        → GreedyFor model (column (i + suc j) matrix) r
        → GreedyFor model (column (suc i + j) matrix) r
    shifted j r h =
        let e : i + suc j ≡ suc i + j = omega arith in
        subst (λ n. GreedyFor model (column n matrix) r) e h

    shifted_first :
        (r : Request)
        → GreedyFor model (column (i + 0) matrix) r
        → GreedyFor model (column i matrix) r
    shifted_first r h =
        let e : i + 0 ≡ i = omega arith in subst (λ n. GreedyFor model (column n matrix) r) e h

    unchanged :
        (r : Request)
        → find id rs ≡ some r
        → (j : ℕ) (key : String) (q : Request) → get_elem? ids j ≡ some key
        → find key (replace (served model (length matrix) r) rs) ≡ some q
        → find key rs ≡ some q
    unchanged r here j key q at found =
        let r' = served model (length matrix) r in
        let name : r'.request_id ≡ id =
          served-request_id model (length matrix) r ∙ find-request_id id rs r here in
        let other : str_eq r'.request_id key ≡ false =
          ap (λ k. str_eq k key) name ∙ fresh-at id ids j key new at in
        let is : find key (replace r' rs) ≡ find key rs =
          find-replace key r' rs r (ap (λ k. find k rs) name ∙ here) ∙ (rw (other) refl) in
        sym is ∙ found
