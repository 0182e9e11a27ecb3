-- ===== src/Serving/Recorder/Greedy.antt =====
-- Recording the model's own greedy tokens in one go is serving the request token by token.
use mathlib.Core.List.{append_assoc, append-nil}
use llm_infer.Prelude.{
  ℕ, suc, ◌≡◌, refl, ap, sym, subst, ◌∙◌, inl, inr, Bool, true, false, Bool-cases, some, List, [],
  ◌∷◌, ◌++◌, leb, member, ◌||◌, length, ok,
}
use llm_infer.Serving.Request.{Request, record_token}
use llm_infer.Serving.Request.Recording.{served, served-finished, grown, record_token_lem}
use llm_infer.Serving.Recorder.{record_tokens}

-- Each token is what the model gives for the context and the tokens before it.
abbrev pub IsGreedy : (List ℕ → ℕ) → List ℕ → List ℕ → Type 0
IsGreedy model context [] = Unit {0}
IsGreedy model context (t ∷ ts) = (t ≡ model context) × IsGreedy model (context ++ t ∷ []) ts

pub record_tokens-finished :
    (ts : List ℕ) (r : Request) → r.finished ≡ true → record_tokens ts r ≡ ok tt r
unfolding record_tokens
record_tokens-finished [] r h = refl
record_tokens-finished (t ∷ ts) r h = rw (h) refl

-- One recorded token of an unfinished request.
abbrev pub next_state : Request → ℕ → Request
next_state r t =
    grown r t (member t r.eos_token_ids || leb r.max_new_tokens (length (r.generated ++ t ∷ [])))

pub served_step :
    (model : List ℕ → ℕ) (n : ℕ) (r : Request)
    → r.finished ≡ false
    → served model (suc n) r ≡ served model n (next_state r (model (r.prompt_ids ++ r.generated)))
unfolding served
served_step model n r going =
    rw (record_token_lem r (model (r.prompt_ids ++ r.generated)) _ going refl, served) refl

record_token-some :
    (t : ℕ) (eos : Bool) (r : Request)
    → r.finished ≡ false
    → record_token t (some eos) r
      ≡ ok tt (grown r t (eos || leb r.max_new_tokens (length (r.generated ++ t ∷ []))))
unfolding record_token
record_token-some t eos r going = rw (going) refl

pub record_tokens_step :
    (t : ℕ) (ts : List ℕ) (r : Request)
    → r.finished ≡ false
    → record_tokens (t ∷ ts) r ≡ record_tokens ts (next_state r t)
unfolding record_tokens
record_tokens_step t ts r going =
    rw (going, record_tokens, record_token-some t (member t r.eos_token_ids) r going) refl

pub record_tokens-served :
    (model : List ℕ → ℕ) (ts : List ℕ) (r : Request)
    → IsGreedy model (r.prompt_ids ++ r.generated) ts
    → record_tokens ts r ≡ ok tt (served model (length ts) r)
unfolding record_tokens served
record_tokens-served model [] r g = refl
record_tokens-served model (t ∷ ts) r (is, g) = elim (Bool-cases r.finished) [
  | inl done ↦
      record_tokens-finished (t ∷ ts) r done
      ∙ ap (ok tt) (sym (served-finished model (suc (length ts)) r done))
  | inr going ↦
      record_tokens_step t ts r going
      ∙ record_tokens-served model ts (next_state r t)
          (subst (λ c. IsGreedy model c ts) (append_assoc r.prompt_ids r.generated (t ∷ [])) g)
      ∙ ap (λ u. ok tt (served model (length ts) (next_state r u))) is
      ∙ ap (ok tt) (sym (served_step model (length ts) r going))
]

pub IsGreedy-prefix :
    (model : List ℕ → ℕ) (context xs ys : List ℕ)
    → IsGreedy model context (xs ++ ys)
    → IsGreedy model context xs
IsGreedy-prefix model context [] ys g = tt
IsGreedy-prefix model context (x ∷ xs) ys (is, g) =
    (is, IsGreedy-prefix model (context ++ x ∷ []) xs ys g)

pub IsGreedy-rest :
    (model : List ℕ → ℕ) (context xs ys : List ℕ)
    → IsGreedy model context (xs ++ ys)
    → IsGreedy model (context ++ xs) ys
IsGreedy-rest model context [] ys g = subst (λ c. IsGreedy model c ys) (sym (append-nil context)) g
IsGreedy-rest model context (x ∷ xs) ys (is, g) =
    subst (λ c. IsGreedy model c ys) (append_assoc context (x ∷ []) xs)
      (IsGreedy-rest model (context ++ x ∷ []) xs ys g)

-- A request that goes on has all the tokens.
pub served-context :
    (model : List ℕ → ℕ) (ts : List ℕ) (r : Request)
    → IsGreedy model (r.prompt_ids ++ r.generated) ts
    → (served model (length ts) r).finished ≡ false
    → (served model (length ts) r).prompt_ids ++ (served model (length ts) r).generated
      ≡ (r.prompt_ids ++ r.generated) ++ ts
unfolding served
served-context model [] r g h = sym (append-nil (r.prompt_ids ++ r.generated))
served-context model (t ∷ ts) r (is, g) h = elim (Bool-cases r.finished) [
  | inl done ↦
      let same = served-finished model (suc (length ts)) r done in
      let over : true ≡ false = sym done ∙ ap (λ (u : Request). u.finished) (sym same) ∙ h in
      absurd (cc)
  | inr going ↦
      let longer : (r.prompt_ids ++ r.generated) ++ t ∷ []
          ≡ r.prompt_ids ++ (r.generated ++ t ∷ []) =
        append_assoc r.prompt_ids r.generated (t ∷ []) in
      let step : served model (suc (length ts)) r ≡ served model (length ts) (next_state r t) =
        served_step model (length ts) r going
        ∙ ap (λ u. served model (length ts) (next_state r u)) (sym is) in
      ap (λ (u : Request). u.prompt_ids ++ u.generated) step
      ∙ served-context model ts (next_state r t) (subst (λ c. IsGreedy model c ts) longer g)
          (ap (λ (u : Request). u.finished) (sym step) ∙ h)
      ∙ ap (λ c. c ++ ts) (sym longer)
      ∙ append_assoc (r.prompt_ids ++ r.generated) (t ∷ []) ts
]

pub IsGreedy-snoc :
    (model : List ℕ → ℕ) (context ts : List ℕ) (t : ℕ)
    → IsGreedy model context ts
    → t ≡ model (context ++ ts)
    → IsGreedy model context (ts ++ t ∷ [])
IsGreedy-snoc model context [] t g is = (is ∙ ap model (append-nil context), tt)
IsGreedy-snoc model context (u ∷ ts) t (here, g) is = (
  here,
  IsGreedy-snoc model (context ++ u ∷ []) ts t g
      (is ∙ ap model (sym (append_assoc context (u ∷ []) ts))),
)
