-- ===== src/Serving/Speculation/Emission.antt =====
-- What one verification emits: greedy tokens, at least one.
use llm_infer.Prelude.{
  ℕ, suc, ◌-◌, ◌≤◌, ◌≡◌, refl, ap, sym, inl, inr, true, Bool-cases, List, [], ◌∷◌, ◌++◌, arith,
  ◌==◌, ==_iff, member, length, length-append, length-take, get_or, take,
}
use llm_infer.Serving.Recorder.Greedy.{IsGreedy, IsGreedy-prefix}
use llm_infer.Serving.Speculation.{
  accepted_prefix_length, contains_eos, truncate_after_eos, recovery, emitted_tokens,
}

-- The argmax rows of a forward over the last token and the draft, as `decode_tokens` documents them:
-- row `i` is what the model gives after `i` tokens of the draft.
abbrev pub verified : (List ℕ → ℕ) → List ℕ → List ℕ → List ℕ
verified model context [] = model context ∷ []
verified model context (d ∷ draft) = model context ∷ verified model (context ++ d ∷ []) draft

length-verified :
    (model : List ℕ → ℕ) (context draft : List ℕ)
    → length (verified model context draft) ≡ suc (length draft)
length-verified model context [] = refl
length-verified model context (d ∷ draft) = ap suc (length-verified model (context ++ d ∷ []) draft)

-- The rows before the last.
abbrev rows : (List ℕ → ℕ) → List ℕ → List ℕ → List ℕ
rows model context [] = []
rows model context (d ∷ draft) = model context ∷ rows model (context ++ d ∷ []) draft

take-verified :
    (model : List ℕ → ℕ) (context draft : List ℕ)
    → take (length draft) (verified model context draft) ≡ rows model context draft
take-verified model context [] = refl
take-verified model context (d ∷ draft) =
    ap (◌∷◌ (model context)) (take-verified model (context ++ d ∷ []) draft)

accepted-le : (vs draft : List ℕ) → accepted_prefix_length vs draft ≤ length draft
unfolding accepted_prefix_length
accepted-le [] draft = omega arith
accepted-le (v ∷ vs) [] = omega arith
accepted-le (v ∷ vs) (d ∷ draft) = ground (arith, accepted-le vs draft)

-- The accepted tokens and the row after them are greedy.
accepted-IsGreedy :
    (model : List ℕ → ℕ) (context draft : List ℕ)
    → let n = accepted_prefix_length (rows model context draft) draft in
      IsGreedy model context (take n draft ++ get_or (verified model context draft) n 0 ∷ [])
unfolding accepted_prefix_length
accepted-IsGreedy model context [] = (refl, tt)
accepted-IsGreedy model context (d ∷ draft) = elim (Bool-cases (model context == d)) [
  | inl same ↦
      rw (same)
        (sym ((==_iff (model context) d).0 same), accepted-IsGreedy model (context ++ d ∷ []) draft)
  | inr other ↦ rw (other) (refl, tt)
]

truncate-IsGreedy :
    (model : List ℕ → ℕ) (eos context ts : List ℕ)
    → IsGreedy model context ts
    → IsGreedy model context (truncate_after_eos eos ts)
unfolding truncate_after_eos
truncate-IsGreedy model eos context [] g = tt
truncate-IsGreedy model eos context (t ∷ ts) (is, g) = elim (Bool-cases (member t eos)) [
  | inl stops ↦ rw (stops) (is, tt)
  | inr goes_on ↦ rw (goes_on) (is, truncate-IsGreedy model eos (context ++ t ∷ []) ts g)
]

truncate-le : (eos ts : List ℕ) → length (truncate_after_eos eos ts) ≤ length ts
unfolding truncate_after_eos
truncate-le eos [] = omega arith
truncate-le eos (t ∷ ts) = ground (arith, truncate-le eos ts)

truncate_some : (eos : List ℕ) (t : ℕ) (ts : List ℕ) → 1 ≤ length (truncate_after_eos eos (t ∷ ts))
unfolding truncate_after_eos
truncate_some eos t ts = ground arith

length-rows :
    (model : List ℕ → ℕ) (context draft : List ℕ) → length (rows model context draft) ≡ length draft
length-rows model context [] = refl
length-rows model context (d ∷ draft) = ap suc (length-rows model (context ++ d ∷ []) draft)

-- The recovery token is the row after the accepted tokens.
recovery-verified :
    (model : List ℕ → ℕ) (context draft : List ℕ) (n : ℕ)
    → recovery draft (verified model context draft) n ≡ get_or (verified model context draft) n 0
recovery-verified model context draft n = elim (Bool-cases (n == length draft)) [
  | inl all ↦
      let at : length (verified model context draft) - 1 ≡ n =
        omega (arith, length-verified model context draft, (==_iff n (length draft)).0 all) in
      rw (all, at) refl
  | inr other ↦ rw (other) refl
]

some_of : (eos ts : List ℕ) (t : ℕ) → 1 ≤ length (truncate_after_eos eos (ts ++ t ∷ []))
some_of eos [] t = truncate_some eos t []
some_of eos (u ∷ ts) t = truncate_some eos u (ts ++ t ∷ [])

contains-some :
    (eos ts : List ℕ) → contains_eos eos ts ≡ true → 1 ≤ length (truncate_after_eos eos ts)
contains-some eos [] h = absurd (cc)
contains-some eos (t ∷ ts) h = truncate_some eos t ts

-- A verification emits the model's greedy tokens, at least one, at most the draft's and one more.
pub record Emits (model : List ℕ → ℕ) (context draft ts : List ℕ) : Type 0 where
  pub greedy : IsGreedy model context ts
  pub some_token : 1 ≤ length ts
  pub bounded : length ts ≤ suc (length draft)

pub emitted_tokens-Emits :
    (model : List ℕ → ℕ) (eos context draft : List ℕ)
    → Emits model context draft (emitted_tokens eos draft (verified model context draft))
unfolding emitted_tokens
emitted_tokens-Emits model eos context draft =
    let n = accepted_prefix_length (rows model context draft) draft in
    let ts = take n draft in
    let le : n ≤ length draft = accepted-le (rows model context draft) draft in
    let drop_last : take (length (verified model context draft) - 1) (verified model context draft)
        ≡ rows model context draft =
      let size : length (verified model context draft) - 1 ≡ length draft =
        omega (arith, length-verified model context draft) in
      rw (size) (take-verified model context draft) in
    let all = accepted-IsGreedy model context draft in
    let rec : recovery draft (verified model context draft) n
        ≡ get_or (verified model context draft) n 0 =
      recovery-verified model context draft n in
    elim (Bool-cases (contains_eos eos (take n draft))) [
      | inl ends ↦
          rw (drop_last, ends)
            record {
              greedy =
                  truncate-IsGreedy model eos context ts (IsGreedy-prefix model context ts _ all);
              some_token = contains-some eos ts ends;
              bounded = omega (arith, truncate-le eos ts, length-take n draft);
            }
      | inr goes_on ↦
          rw (drop_last, goes_on, rec)
            record {
              greedy = truncate-IsGreedy model eos context _ all;
              some_token = some_of eos ts _;
              bounded = omega (
                arith,
                truncate-le eos (ts ++ get_or (verified model context draft) n 0 ∷ []),
                length-append ts (get_or (verified model context draft) n 0 ∷ []),
                length-take n draft,
              );
            }
    ]
