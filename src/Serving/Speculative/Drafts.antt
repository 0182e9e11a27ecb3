-- ===== src/Serving/Speculative/Drafts.antt =====
-- What a draft is: the tokens after the latest repeat of the longest suffix that repeats.
use llm_infer.Prelude.{
  ℕ, zero, suc, ◌+◌, ◌-◌, ◌<◌, ◌≤◌, ◌≡◌, refl, sym, subst, ◌⊎◌, inl, inr, min, true, false,
  Bool-cases, Option, none, some, List, [], arith, ltb, ltb→lt, not-ltb→le, ◌==◌, length,
  length-take, length-drop, take,
}
use llm_infer.Serving.Speculative.{
  SpeculativeDecodingConfig, repeats, continuation, latest_repeat, longest_repeat, draft_limit,
  draft_tokens,
}

-- The suffix of the size does not occur at any start from `low` to below `high`.
abbrev pub NoRepeat : List ℕ → ℕ → ℕ → ℕ → Type 0
NoRepeat context size low high =
    (start : ℕ) → low ≤ start → start < high → repeats context size start ≡ false

length-continuation :
    (context : List ℕ) (limit end : ℕ)
    → end < length context
    → 1 ≤ limit
    → (1 ≤ length (continuation context limit end))
      × (length (continuation context limit end) ≤ limit)
length-continuation context limit end inside some_room =
    let cut = length-take (min (length context) (end + limit)) context in
    let rest = length-drop end (take (min (length context) (end + limit)) context) in
    (omega (arith, cut, rest), omega (arith, cut, rest))

-- The latest start below `n` at which the suffix repeats.
abbrev Latest : List ℕ → ℕ → ℕ → ℕ → Option (List ℕ) → Type 0
Latest context limit size n out =
    ((out ≡ none) × NoRepeat context size 0 n)
    ⊎ ((start : ℕ) × (start < n)
        × (repeats context size start ≡ true)
        × (out ≡ some (continuation context limit (start + size)))
        × NoRepeat context size (start + 1) n)

latest_repeat-Latest :
    (context : List ℕ) (limit size n : ℕ)
    → 1 ≤ limit
    → n + size ≤ length context
    → Latest context limit size n (latest_repeat context limit size n)
unfolding latest_repeat
latest_repeat-Latest context limit size zero room fits = inl (refl, λ st l h. absurd (omega arith))
latest_repeat-Latest context limit size (suc n) room fits =
    elim (Bool-cases (repeats context size n)) [
      | inl here ↦
          let (some_token, _) = length-continuation context limit (n + size) (omega arith) room in
          let filled : (length (continuation context limit (n + size)) == 0) ≡ false =
            ground arith in
          inr (n, omega arith, here, rw (here, filled) refl, λ st l h. absurd (omega arith))
      | inr not_here ↦
          let before = latest_repeat-Latest context limit size n room (omega arith) in
          let top = λ (st : ℕ) (l : n ≤ st) (h : st < suc n). at st not_here (omega arith) in
          elim before [
            | inl (nothing, clear) ↦ inl (
              rw (not_here) nothing,
              λ st l h. elim (Bool-cases (ltb st n)) [
                | inl low ↦ clear st l (ltb→lt _ _ low)
                | inr high ↦ top st (not-ltb→le _ _ high) h
              ],
            )
            | inr (start, lt, found, is, clear) ↦ inr (
              start,
              omega arith,
              found,
              rw (not_here) is,
              λ st l h. elim (Bool-cases (ltb st n)) [
                | inl low ↦ clear st l (ltb→lt _ _ low)
                | inr high ↦ top st (not-ltb→le _ _ high) h
              ],
            )
          ]
    ]
  where
    at : (st : ℕ) → repeats context size n ≡ false → st ≡ n → repeats context size st ≡ false
    at st h same = subst (λ m. repeats context size m ≡ false) (sym same) h

-- No suffix longer than `size`, up to `m`, occurs earlier in the context.
abbrev pub NoLonger : List ℕ → ℕ → ℕ → Type 0
NoLonger context size m =
    (longer : ℕ) → size < longer → longer ≤ m → NoRepeat context longer 0 (length context - longer)

-- The draft is empty and no suffix repeats; or it follows the latest repeat of the longest suffix that
-- repeats, and has at least one token and at most `limit`.
abbrev pub Drafted : List ℕ → ℕ → ℕ → List ℕ → Type 0
Drafted context limit m out =
    ((out ≡ []) × NoLonger context 0 m)
    ⊎ ((size start : ℕ) × (1 ≤ size)
        × (size ≤ m)
        × (start + size < length context)
        × (repeats context size start ≡ true)
        × (out ≡ continuation context limit (start + size))
        × (1 ≤ length out)
        × (length out ≤ limit)
        × NoRepeat context size (start + 1) (length context - size)
        × NoLonger context size m)

no_longer :
    (context : List ℕ) (size n : ℕ)
    → NoRepeat context (suc n) 0 (length context - suc n)
    → NoLonger context size n
    → NoLonger context size (suc n)
no_longer context size n top below longer lt le = elim (Bool-cases (ltb n longer)) [
  | inr low ↦ below longer lt (not-ltb→le _ _ low)
  | inl high ↦
      let same : suc n ≡ longer = omega (arith, ltb→lt _ _ high) in
      subst (λ m. NoRepeat context m 0 (length context - m)) same top
]

longest_repeat-Drafted :
    (context : List ℕ) (limit m : ℕ)
    → 1 ≤ limit
    → m < length context
    → Drafted context limit m (longest_repeat context limit m)
unfolding longest_repeat
longest_repeat-Drafted context limit zero room fits = inl (refl, λ longer l h. absurd (omega arith))
longest_repeat-Drafted context limit (suc n) room fits =
    elim (latest_repeat-Latest context limit (suc n) (length context - suc n) room (omega arith)) [
      | inr (start, lt, found, is, clear) ↦
          let (some_token, few) =
            length-continuation context limit (start + suc n) (omega arith) room in
          let out : longest_repeat context limit (suc n)
              ≡ continuation context limit (start + suc n) =
            rw (is, longest_repeat) refl in
          inr (
            suc n,
            start,
            omega arith,
            omega arith,
            omega arith,
            found,
            out,
            rw (out) some_token,
            rw (out) few,
            clear,
            λ longer l h. absurd (omega arith),
          )
      | inl (nothing, clear) ↦
          let out : longest_repeat context limit (suc n) ≡ longest_repeat context limit n =
            rw (nothing, longest_repeat) refl in
          subst (Drafted context limit (suc n)) (sym out)
            (elim (longest_repeat-Drafted context limit n room (omega arith)) [
              | inl (empty, below) ↦ inl (empty, no_longer context 0 n clear below)
              | inr (size, start, pos, le, inside, found, is, some_token, few, later, longer) ↦
                  inr (
                    size,
                    start,
                    pos,
                    omega arith,
                    inside,
                    found,
                    is,
                    some_token,
                    few,
                    later,
                    no_longer context size n clear longer,
                  )
            ])
    ]

-- For a positive limit and a context of at least two tokens, a draft is empty and no suffix of an
-- allowed size occurs earlier, or it is what follows the latest earlier occurrence of the longest
-- suffix that occurs earlier, and has at least one token and at most the limit.
pub draft_tokens-Drafted :
    (c : SpeculativeDecodingConfig) (context : List ℕ) (max_tokens : Option ℕ)
    → 1 ≤ draft_limit c max_tokens
    → 2 ≤ length context
    → Drafted context
        (draft_limit c max_tokens)
        (min c.max_ngram_size (length context - 1))
        (draft_tokens c context max_tokens)
unfolding draft_tokens
draft_tokens-Drafted c context max_tokens room two =
    let some_room : ltb (draft_limit c max_tokens) 1 ≡ false = ground arith in
    let some_context : ltb (length context) 2 ≡ false = ground arith in
    let is : draft_tokens c context max_tokens
        ≡ longest_repeat context (draft_limit c max_tokens)
            (min c.max_ngram_size (length context - 1)) =
      rw (some_room, some_context) refl in
    subst (Drafted context (draft_limit c max_tokens) (min c.max_ngram_size (length context - 1)))
      (sym is)
      (longest_repeat-Drafted context (draft_limit c max_tokens)
        (min c.max_ngram_size (length context - 1)) room (omega arith))
