-- ===== src/Serving/Request/Recording.antt =====
-- `record`, token by token, against the reference of model/decode.py.
use llm_infer.Prelude.{
  ℕ, zero, suc, ◌+◌, ◌≤◌, ◌≡◌, refl, ap, sym, subst, ◌∙◌, inl, inr, String, Bool, true, false, ◌||◌,
  Bool-cases, Option, none, List, [], ◌∷◌, ◌++◌, arith, leb, member, length, length-append, ok,
  raise,
}
use mathlib.Core.List.{append_assoc, append-nil}
use llm_infer.Model.Decode.{greedy_from, greedy_decode}
use llm_infer.Serving.Request.{Request, init, record_token}

-- A request served alone: at most `rounds` times, the model's next token is recorded.
unfoldable pub served : (List ℕ → ℕ) → ℕ → Request → Request
unfolding record_token
served model zero r = r
served model (suc rounds) r = elim (record_token (model (r.prompt_ids ++ r.generated)) none r) [
  | ok _ r' ↦ served model rounds r'
  | raise _ r' ↦ r'
]

pub served-finished :
    (model : List ℕ → ℕ) (rounds : ℕ) (r : Request) → r.finished ≡ true → served model rounds r ≡ r
unfolding served record_token
served-finished model zero r h = refl
served-finished model (suc rounds) r h = rw (h) refl

-- A request and the token recorded next, with what the stop rule then says.
abbrev pub grown : Request → ℕ → Bool → Request
grown r t done = record r { generated = r.generated ++ t ∷ []; finished = done }

pub record_token_lem :
    (r : Request) (t : ℕ) (done : Bool)
    → r.finished ≡ false
    → (member t r.eos_token_ids || leb r.max_new_tokens (length (r.generated ++ t ∷ []))) ≡ done
    → record_token t none r ≡ ok tt (grown r t done)
unfolding record_token
record_token_lem r t done going rule = rw (going, rule) refl

-- Serving the request ends, within its cap, with the tokens of the reference loop.
record Matches (model : List ℕ → ℕ) (rounds : ℕ) (r : Request) : Type 0 where
  tokens :
      (served model rounds r).generated
      ≡ greedy_from model r.eos_token_ids rounds (r.prompt_ids ++ r.generated) r.generated
  ended : (served model rounds r).finished ≡ true
  capped : length (served model rounds r).generated ≤ r.max_new_tokens

eos-Matches :
    (model : List ℕ → ℕ) (rounds : ℕ) (r : Request)
    → r.finished ≡ false
    → length r.generated + suc rounds ≡ r.max_new_tokens
    → member (model (r.prompt_ids ++ r.generated)) r.eos_token_ids ≡ true
    → Matches model (suc rounds) r
unfolding served greedy_from
eos-Matches model rounds r going left eos =
    let t = model (r.prompt_ids ++ r.generated) in
    let step = record_token_lem r t true going (rw (eos) refl) in
    let same : served model (suc rounds) r ≡ grown r t true =
      rw (step, served, served-finished model rounds (grown r t true) refl) refl in
    record {
      tokens = rw (same, eos) refl;
      ended = rw (same) refl;
      capped = rw (same) (omega (arith, left, length-append r.generated (t ∷ [])));
    }

last-Matches :
    (model : List ℕ → ℕ) (r : Request)
    → r.finished ≡ false
    → length r.generated + 1 ≡ r.max_new_tokens
    → Matches model 1 r
unfolding served greedy_from
last-Matches model r going left =
    let t = model (r.prompt_ids ++ r.generated) in
    let size = length-append r.generated (t ∷ []) in
    let step = record_token_lem r t true going (ground arith) in
    let same : served model 1 r ≡ grown r t true = rw (step, served) refl in
    record {
      tokens = rw (same) (ground arith);
      ended = rw (same) refl;
      capped = rw (same) (omega (arith, left, size));
    }

served-Matches :
    (model : List ℕ → ℕ) (rounds : ℕ) (r : Request)
    → r.finished ≡ false
    → length r.generated + suc rounds ≡ r.max_new_tokens
    → Matches model (suc rounds) r
unfolding served greedy_from
served-Matches model zero r going left = last-Matches model r going left
served-Matches model (suc rounds) r going left =
    let t = model (r.prompt_ids ++ r.generated) in
    elim (Bool-cases (member t r.eos_token_ids)) [
      | inl eos ↦ eos-Matches model (suc rounds) r going left eos
      | inr other ↦
          let size = length-append r.generated (t ∷ []) in
          let step = record_token_lem r t false going (ground arith) in
          let same : served model (suc (suc rounds)) r
              ≡ served model (suc rounds) (grown r t false) =
            rw (step, served) refl in
          let m = served-Matches model rounds (grown r t false) refl (omega (arith, left, size)) in
          record {
            tokens =
                rw (same, other) (rw (append_assoc r.prompt_ids r.generated (t ∷ [])) m.tokens);
            ended = rw (same) m.ended;
            capped = rw (same) m.capped;
          }
    ]

-- A request with a prompt and a cap that the constructor accepts, served alone by recording the
-- model's next token at most `max_new_tokens` times, is finished then, within its cap, and has
-- exactly the tokens of `greedy_decode`.
pub served-greedy_decode :
    (model : List ℕ → ℕ) (id : String) (prompt : List ℕ) (cap : ℕ) (eos : List ℕ)
    (group : Option String)
    → 1 ≤ length prompt
    → 1 ≤ cap
    → (r : Request) × (init id prompt cap eos group ≡ ok r tt)
      × (greedy_decode model prompt cap eos ≡ ok (served model cap r).generated tt)
      × ((served model cap r).finished ≡ true)
      × (length (served model cap r).generated ≤ cap)
unfolding init greedy_decode
served-greedy_decode model id prompt zero eos group some_prompt positive = absurd (omega arith)
served-greedy_decode model id prompt (suc more) eos group some_prompt positive =
    let r : Request = record {
      request_id = id;
      prompt_ids = prompt;
      max_new_tokens = suc more;
      eos_token_ids = eos;
      prefix_group_id = group;
      block_table = none;
      prompt_cached_tokens = 0;
      prefilled = false;
      finished = false;
      generated = [];
    } in
    let m = served-Matches model more r refl (omega arith) in
    let same : (served model (suc more) r).generated ≡ greedy_from model eos (suc more) prompt [] =
      subst
        (λ tokens.
          (served model (suc more) r).generated ≡ greedy_from model eos (suc more) tokens [])
        (append-nil prompt) m.tokens in
    (r, ground arith, decoded ∙ ap (λ ts. ok ts tt) (sym same), m.ended, m.capped)
  where
    decoded :
        greedy_decode model prompt (suc more) eos
        ≡ ok (greedy_from model eos (suc more) prompt []) tt
    decoded = ground arith
