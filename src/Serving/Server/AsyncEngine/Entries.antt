-- ===== src/Serving/Server/AsyncEngine/Entries.antt =====
-- The dictionary of the streams, and the submissions, as lists of names and handles.
use text.Mathlib.Text.{◌==◌ as str_eq}
use text.Mathlib.TextEquality.{eq_iff}
use llm_infer.Prelude.{
  ℕ, ◌+◌, ◌≤◌, ◌≡◌, refl, ap, ◌∙◌, inl, inr, String, true, false, Bool-cases, some, List, [], ◌∷◌,
  ◌++◌, arith, tally, count, ◌==◌,
}
use llm_infer.Serving.Request.{Request}
use llm_infer.Serving.Server.AsyncEngine.{stream_of, put_stream, drop_stream}

abbrev pub handles {ℓ} : {K : Type ℓ} → List (K × ℕ) → List ℕ
handles [] = []
handles ((key, h) ∷ es) = h ∷ handles es

-- The submissions by the ids of their requests.
abbrev pub entries : List (Request × ℕ) → List (String × ℕ)
entries [] = []
entries ((r, h) ∷ es) = (r.request_id, h) ∷ entries es

-- How often a name stands in a dictionary, or a list of entries.
abbrev pub times : String → List (String × ℕ) → ℕ
times id [] = 0
times id ((key, h) ∷ es) = tally (str_eq key id) + times id es

pub times-append :
    (id : String) (xs ys : List (String × ℕ)) → times id (xs ++ ys) ≡ times id xs + times id ys
times-append id [] ys = omega arith
times-append id ((key, h) ∷ xs) ys = omega (arith, times-append id xs ys)

pub handles-append {ℓ} :
    {K : Type ℓ} (xs ys : List (K × ℕ)) → handles (xs ++ ys) ≡ handles xs ++ handles ys
handles-append [] ys = refl
handles-append ((key, h) ∷ xs) ys = ap (◌∷◌ h) (handles-append xs ys)

pub entries-append : (xs ys : List (Request × ℕ)) → entries (xs ++ ys) ≡ entries xs ++ entries ys
entries-append [] ys = refl
entries-append ((r, h) ∷ xs) ys = ap (◌∷◌ (r.request_id, h)) (entries-append xs ys)

pub put_stream_new :
    (id : String) (h : ℕ) (streams : List (String × ℕ))
    → times id streams ≡ 0
    → put_stream id h streams ≡ streams ++ (id, h) ∷ []
unfolding put_stream
put_stream_new id h [] z = refl
put_stream_new id h ((key, k) ∷ streams) z = ground (arith, put_stream_new id h streams)

-- Taking an entry out.
pub record Dropped (id : String) (h : ℕ) (streams : List (String × ℕ)) : Type 0 where
  pub places :
      (k : ℕ)
      → tally (h == k) + count k (handles (drop_stream id streams)) ≡ count k (handles streams)
  pub names :
      (name : String)
      → tally (str_eq id name) + times name (drop_stream id streams) ≡ times name streams

pub drop_stream-Dropped :
    (id : String) (h : ℕ) (streams : List (String × ℕ))
    → stream_of id streams ≡ some h
    → Dropped id h streams
unfolding stream_of drop_stream
drop_stream-Dropped id h [] e = absurd (cc)
drop_stream-Dropped id h ((key, k) ∷ streams) e = elim (Bool-cases (str_eq key id)) [
  | inl same ↦ record {
    places = λ j. ground (arith);
    names = λ name. ground (arith, eq_iff key id);
  }
  | inr other ↦
      let rest = drop_stream-Dropped id h streams (ground arith) in
      record {
        places = λ j. ground (arith, rest.places j);
        names = λ name. ground (arith, rest.names name);
      }
]

pub count_self : (h : ℕ) → tally (h == h) ≡ 1
count_self h = ground arith

str_eq_refl : (x : String) → str_eq x x ≡ true
str_eq_refl x = ground (arith, eq_iff x x)

pub str_eq_once : (x : String) → tally (str_eq x x) ≡ 1
str_eq_once x = rw (str_eq_refl x) refl

-- An entry in the middle.
pub stream_of_at :
    (id : String) (h : ℕ) (kept rest : List (String × ℕ))
    → times id (kept ++ (id, h) ∷ rest) ≤ 1
    → stream_of id (kept ++ (id, h) ∷ rest) ≡ some h
unfolding stream_of
stream_of_at id h [] rest once = rw (str_eq_refl id) refl
stream_of_at id h ((key, k) ∷ kept) rest once =
    let there : times id (kept ++ (id, h) ∷ rest) ≡ times id kept + (1 + times id rest) =
      times-append id kept ((id, h) ∷ rest) ∙ rw (str_eq_refl id) refl in
    let other : str_eq key id ≡ false = ground (arith, there) in
    rw (other) (stream_of_at id h kept rest (ground arith))

pub drop_stream_at :
    (id : String) (h : ℕ) (kept rest : List (String × ℕ))
    → times id (kept ++ (id, h) ∷ rest) ≤ 1
    → drop_stream id (kept ++ (id, h) ∷ rest) ≡ kept ++ rest
unfolding drop_stream
drop_stream_at id h [] rest once = rw (str_eq_refl id) refl
drop_stream_at id h ((key, k) ∷ kept) rest once =
    let there : times id (kept ++ (id, h) ∷ rest) ≡ times id kept + (1 + times id rest) =
      times-append id kept ((id, h) ∷ rest) ∙ rw (str_eq_refl id) refl in
    let other : str_eq key id ≡ false = ground (arith, there) in
    rw (other) (ap (◌∷◌ (key, k)) (drop_stream_at id h kept rest (ground arith)))
