-- ===== src/Serving/Windows/Consumption.antt =====
-- Consuming one staged window.
use text.Mathlib.Text.{◌==◌ as str_eq}
use text.Mathlib.TextEquality.{eq_iff}
use llm_infer.Prelude.{
  ◌≡◌, refl, ap, sym, ◌∙◌, inl, inr, String, true, false, not, ◌&&◌, Bool-cases, Option-cases, none,
  some, some_cancel, List, [], ◌∷◌, arith, if◌then◌else◌,
}
use llm_infer.Serving.Request.{Request}
use llm_infer.Serving.Engine.{find, names_member}
use llm_infer.Serving.Windows.{Windows, without, release_one, release_finished}
use llm_infer.Scheduler.Books.{Unique, fresh}

fresh-member : (id : String) (ks : List String) → fresh id ks ≡ not (names_member id ks)
fresh-member id [] = refl
fresh-member id (key ∷ ks) = ground (arith, fresh-member id ks)

-- Whether an id is in a list from which another one was removed.
member-without :
    (id key : String) (ks : List String)
    → Unique ks
    → names_member key (without id ks) ≡ (if str_eq id key then false else names_member key ks)
unfolding without
member-without id key [] u = ground arith
member-without id key (k ∷ ks) (new, u) = elim (Bool-cases (str_eq k id)) [
  | inl here ↦ ground (
    arith,
    eq_iff k id,
    eq_iff id key,
    eq_iff k key,
    fresh-member k ks,
    fresh-member id ks,
    fresh-member key ks,
  )
  | inr there ↦ ground (arith, member-without id key ks u, eq_iff k id, eq_iff id key, eq_iff k key)
]

fresh-without :
    (id key : String) (ks : List String) → fresh key ks ≡ true → fresh key (without id ks) ≡ true
unfolding without
fresh-without id key [] h = refl
fresh-without id key (k ∷ ks) h = ground (arith, fresh-without id key ks)

Unique-without : (id : String) (ks : List String) → Unique ks → Unique (without id ks)
unfolding without
Unique-without id [] u = tt
Unique-without id (k ∷ ks) (new, u) = elim (Bool-cases (str_eq k id)) [
  | inl here ↦ rw (here, without) u
  | inr there ↦ rw (there, without) (fresh-without id k ks new, Unique-without id ks u)
]

-- The finished ones of the batch run no longer; all else runs as before.
pub record Released (ids : List String) (w w' : Windows) : Type 0 where
  pub unique : Unique w'.running
  pub requests : w'.requests ≡ w.requests
  pub window : w'.decode_window ≡ w.decode_window
  pub flush : w'.pending_flush ≡ w.pending_flush
  pub running :
      (id : String) (r : Request)
      → find id w.requests ≡ some r
      → names_member id w'.running
        ≡ (if not (fresh id ids) && r.finished then false else names_member id w.running)

-- A round of the release.
record ReleasedOne (id : String) (r : Request) (w w' : Windows) : Type 0 where
  unique : Unique w'.running
  requests : w'.requests ≡ w.requests
  window : w'.decode_window ≡ w.decode_window
  flush : w'.pending_flush ≡ w.pending_flush
  running :
      (key : String)
      → names_member key w'.running
        ≡ (if str_eq id key && r.finished then false else names_member key w.running)

release_one-ReleasedOne :
    (id : String) (r : Request) (w : Windows)
    → Unique w.running
    → ReleasedOne id r w (release_one id r w)
unfolding release_one
release_one-ReleasedOne id r w u = elim (Bool-cases (r.finished && names_member id w.running)) [
  | inl both ↦
      rw (both, release_one)
        record {
          unique = Unique-without id w.running u;
          requests = refl;
          window = refl;
          flush = refl;
          running = λ key. ground (arith, member-without id key w.running u);
        }
  | inr no_release ↦
      rw (no_release, release_one)
        record {
          unique = u;
          requests = refl;
          window = refl;
          flush = refl;
          running = λ key. elim (Bool-cases (str_eq id key)) [
            | inl same ↦
                let is : names_member id w.running ≡ names_member key w.running =
                  ap (λ k. names_member k w.running) ((eq_iff id key).0 same) in
                ground (arith, is)
            | inr other ↦ ground arith
          ];
        }
]

-- Releasing the first of the batch, and then the others.
Released-cons :
    (id : String) (ids : List String) (r : Request) (w w₁ w' : Windows)
    → find id w.requests ≡ some r
    → ReleasedOne id r w w₁
    → Released ids w₁ w'
    → Released (id ∷ ids) w w'
Released-cons id ids r w w₁ w' here o s = record {
  unique = s.unique;
  requests = s.requests ∙ o.requests;
  window = s.window ∙ o.window;
  flush = s.flush ∙ o.flush;
  running = λ key q found.
      let later = s.running key q (ap (find key) o.requests ∙ found) in
      let now = o.running key in
      elim (Bool-cases (str_eq id key)) [
        | inl same ↦
            let is : r ≡ q =
              some_cancel
                (sym here ∙ ap (λ k. find k w.requests) ((eq_iff id key).0 same) ∙ found) in
            let ends : r.finished ≡ q.finished = ap (λ (x : Request). x.finished) is in
            ground (arith, later, now, ends)
        | inr other ↦ ground (arith, later, now)
      ];
}

pub release_finished-Released :
    (ids : List String) (w : Windows) → Unique w.running → Released ids w (release_finished ids w)
unfolding release_finished
release_finished-Released [] w u = record {
  unique = u;
  requests = refl;
  window = refl;
  flush = refl;
  running = λ id r here. refl;
}
release_finished-Released (id ∷ ids) w u = elim (Option-cases (find id w.requests)) [
  | inl nowhere ↦
      let s = release_finished-Released ids w u in
      rw (nowhere, release_finished)
        record {
          unique = s.unique;
          requests = s.requests;
          window = s.window;
          flush = s.flush;
          running = λ key q found. elim (Bool-cases (str_eq id key)) [
            | inl same ↦
                let gone : find key w.requests ≡ none =
                  ap (λ k. find k w.requests) (sym ((eq_iff id key).0 same)) ∙ nowhere in
                absurd (cc)
            | inr other ↦ let is = s.running key q found in ground (arith, is)
          ];
        }
  | inr (r, here) ↦
      let o = release_one-ReleasedOne id r w u in
      rw (here, release_finished)
        (Released-cons id ids r w (release_one id r w) (release_finished ids (release_one id r w))
          here o (release_finished-Released ids (release_one id r w) o.unique))
]
