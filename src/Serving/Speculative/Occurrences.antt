-- ===== src/Serving/Speculative/Occurrences.antt =====
-- What a draft copies: the tokens after an earlier occurrence of a suffix of the context.
use llm_infer.Prelude.{
  ℕ, zero, suc, ◌+◌, ◌-◌, ◌<◌, ◌≤◌, ◌≡◌, refl, ap, sym, ◌∙◌, ◌⊎◌, inl, inr, min, true, Option, List,
  [], ◌∷◌, arith, length, take, drop, list_eq, list_eq→eq, list_eq_refl,
}
use llm_infer.Serving.Speculative.{
  SpeculativeDecodingConfig, repeats, continuation, draft_limit, draft_tokens,
}
use llm_infer.Serving.Speculative.Drafts.{NoRepeat, NoLonger, Drafted, draft_tokens-Drafted}

take-nil : (n : ℕ) → take {A = ℕ} n [] ≡ []
take-nil zero = refl
take-nil (suc n) = refl

drop-take : (a n : ℕ) (xs : List ℕ) → drop a (take (a + n) xs) ≡ take n (drop a xs)
drop-take zero n xs = let e : zero + n ≡ n = omega arith in rw (e) refl
drop-take (suc a) n [] = ap (drop (suc a)) (take-nil (suc a + n)) ∙ sym (take-nil n)
drop-take (suc a) n (x ∷ xs) =
    let e : suc a + n ≡ suc (a + n) = omega arith in rw (e) (drop-take a n xs)

take-min : (n : ℕ) (xs : List ℕ) → take (min (length xs) n) xs ≡ take n xs
take-min n [] = let e : min zero n ≡ zero = omega arith in rw (e) (sym (take-nil n))
take-min zero (x ∷ xs) = let e : min (suc (length xs)) zero ≡ zero = omega arith in rw (e) refl
take-min (suc n) (x ∷ xs) =
    let e : min (suc (length xs)) (suc n) ≡ suc (min (length xs) n) = omega arith in
    rw (e) (ap (◌∷◌ x) (take-min n xs))

-- The last `size` tokens of the context stand at `start` too.
abbrev pub Occurs : List ℕ → ℕ → ℕ → Type 0
Occurs context size start = take size (drop start context) ≡ drop (length context - size) context

repeats-Occurs :
    (context : List ℕ) (size start : ℕ)
    → repeats context size start ≡ true
    → Occurs context size start
repeats-Occurs context size start h = sym (drop-take start size context) ∙ list_eq→eq _ _ h

Occurs-repeats :
    (context : List ℕ) (size start : ℕ)
    → Occurs context size start
    → repeats context size start ≡ true
Occurs-repeats context size start h =
    let same = drop-take start size context ∙ h in
    ap (λ xs. list_eq xs (drop (length context - size) context)) same
    ∙ list_eq_refl (drop (length context - size) context)

continuation_lem :
    (context : List ℕ) (limit end : ℕ)
    → continuation context limit end ≡ take limit (drop end context)
continuation_lem context limit end =
    ap (drop end) (take-min (end + limit) context) ∙ drop-take end limit context

-- The suffix of the size does not occur at any start from `low` to below `high`.
abbrev pub NotBetween : List ℕ → ℕ → ℕ → ℕ → Type 0
NotBetween context size low high =
    (start : ℕ) → low ≤ start → start < high → ¬ Occurs context size start

NoRepeat-NotBetween :
    (context : List ℕ) (size low high : ℕ)
    → NoRepeat context size low high
    → NotBetween context size low high
NoRepeat-NotBetween context size low high h start l k o =
    let never = h start l k in let there = Occurs-repeats context size start o in absurd (cc)

-- No suffix longer than `size`, up to `m`, occurs earlier in the context.
abbrev pub NoneLonger : List ℕ → ℕ → ℕ → Type 0
NoneLonger context size m =
    (longer : ℕ)
    → size < longer
    → longer ≤ m
    → NotBetween context longer 0 (length context - longer)

NoLonger-NoneLonger :
    (context : List ℕ) (size m : ℕ) → NoLonger context size m → NoneLonger context size m
NoLonger-NoneLonger context size m h longer lt le =
    NoRepeat-NotBetween context longer 0 (length context - longer) (h longer lt le)

-- The draft is empty and no suffix occurs earlier; or it is what follows the latest earlier occurrence
-- of the longest suffix that has one, up to `limit` tokens.
abbrev pub Continues : List ℕ → ℕ → ℕ → List ℕ → Type 0
Continues context limit m out =
    ((out ≡ []) × NoneLonger context 0 m)
    ⊎ ((size start : ℕ) × (1 ≤ size)
        × (size ≤ m)
        × (start + size < length context)
        × Occurs context size start
        × (out ≡ take limit (drop (start + size) context))
        × (1 ≤ length out)
        × NotBetween context size (start + 1) (length context - size)
        × NoneLonger context size m)

Drafted-Continues :
    (context : List ℕ) (limit m : ℕ) (out : List ℕ)
    → Drafted context limit m out
    → Continues context limit m out
Drafted-Continues context limit m out (inl (empty, clear)) =
    inl (empty, NoLonger-NoneLonger context 0 m clear)
Drafted-Continues context limit m out
      (inr (size, start, pos, le, inside, found, is, some_token, few, later, longer)) =
    inr (
      size,
      start,
      pos,
      le,
      inside,
      repeats-Occurs context size start found,
      is ∙ continuation_lem context limit (start + size),
      some_token,
      NoRepeat-NotBetween context size (start + 1) (length context - size) later,
      NoLonger-NoneLonger context size m longer,
    )

-- For a positive limit and a context of at least two tokens, a draft is empty and the last tokens
-- of the context, as many as an allowed size, stand nowhere earlier in it; or there is a largest
-- allowed number of last tokens that stand earlier too, and the draft is the tokens that follow the
-- latest place where they do, up to the limit, and at least one.
pub draft_tokens-Continues :
    (c : SpeculativeDecodingConfig) (context : List ℕ) (max_tokens : Option ℕ)
    → 1 ≤ draft_limit c max_tokens
    → 2 ≤ length context
    → Continues context
        (draft_limit c max_tokens)
        (min c.max_ngram_size (length context - 1))
        (draft_tokens c context max_tokens)
draft_tokens-Continues c context max_tokens room two =
    Drafted-Continues context (draft_limit c max_tokens) (min c.max_ngram_size (length context - 1))
      (draft_tokens c context max_tokens) (draft_tokens-Drafted c context max_tokens room two)
