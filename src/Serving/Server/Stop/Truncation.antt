-- ===== src/Serving/Server/Stop/Truncation.antt =====
-- What a stream emits: the decoded text, cut at the first stop string that completes.
use llm_infer.Prelude.{
  ℕ, zero, suc, ◌-◌, ◌<◌, ◌≤◌, ◌≡◌, refl, ap, sym, subst, inl, inr, true, false, ◌&&◌, Bool-cases,
  none, List, [], ◌∷◌, ◌++◌, arith, ltb, ltb→lt, not-ltb→le, ==_iff, ◌==◌, min, length, length-drop,
  drop, Elem,
}
use llm_infer.Serving.Server.Stop.{
  starts_with, Stopper, longest_stop, begins_a_stop, unsafe_tail, unsafe_tail_len,
}
use llm_infer.Serving.Server.Stop.Texts.{Earliest}

drop-append : (j : ℕ) (p more : List ℕ) → j ≤ length p → drop j (p ++ more) ≡ drop j p ++ more
drop-append zero p more h = refl
drop-append (suc j) [] more h = absurd (omega arith)
drop-append (suc j) (x ∷ p) more h = drop-append j p more (omega arith)

pub drop-append_beyond :
    (j : ℕ) (p more : List ℕ) → length p ≤ j → drop j (p ++ more) ≡ drop (j - length p) more
drop-append_beyond j [] more h = ap (λ k. drop k more) (omega arith)
drop-append_beyond zero (x ∷ p) more h = absurd (omega arith)
drop-append_beyond (suc j) (x ∷ p) more h =
    let less : suc j - suc (length p) ≡ j - length p = omega arith in
    rw (less) (drop-append_beyond j p more (omega arith))

-- A stop string within the text does not depend on what follows, and one beyond it begins with it.
starts_with-append :
    (t more stop : List ℕ)
    → length stop ≤ length t
    → starts_with (t ++ more) stop ≡ starts_with t stop
starts_with-append t more [] h = refl
starts_with-append [] more (s ∷ stop) h = absurd (omega arith)
starts_with-append (c ∷ t) more (s ∷ stop) h =
    ap (λ b. c == s && b) (starts_with-append t more stop (omega arith))

starts_with_swap :
    (t more stop : List ℕ)
    → starts_with (t ++ more) stop ≡ true
    → length t ≤ length stop
    → starts_with stop t ≡ true
starts_with_swap [] more stop h le = refl
starts_with_swap (c ∷ t) more [] h le = absurd (omega arith)
starts_with_swap (c ∷ t) more (s ∷ stop) h le =
    ground (arith, starts_with_swap t more stop, ==_iff c s, ==_iff s c)

longest_stop-ge :
    (stops : List (List ℕ)) (u : List ℕ) → Elem u stops → length u ≤ longest_stop stops
longest_stop-ge [] u m = absurd m
longest_stop-ge (stop ∷ stops) u (inl p) = let same = ap length p in ground arith
longest_stop-ge (stop ∷ stops) u (inr m) = let le = longest_stop-ge stops u m in ground arith

begins_a_stop_lem :
    (stops : List (List ℕ)) (u tail : List ℕ)
    → Elem u stops
    → starts_with u tail ≡ true
    → begins_a_stop tail stops ≡ true
begins_a_stop_lem [] u tail m h = absurd m
begins_a_stop_lem (stop ∷ stops) u tail (inl p) h =
    let at : starts_with stop tail ≡ true = subst (λ w. starts_with w tail ≡ true) (sym p) h in
    rw (at) refl
begins_a_stop_lem (stop ∷ stops) u tail (inr m) h =
    let rest = begins_a_stop_lem stops u tail m h in ground arith

-- No tail longer than the one held back, up to the bound, begins a stop string.
unsafe_tail_lem :
    (stops : List (List ℕ)) (pending : List ℕ) (n : ℕ)
    → (unsafe_tail stops pending n ≤ n)
      × ((m : ℕ)
          → unsafe_tail stops pending n < m
          → m ≤ n
          → begins_a_stop (drop (length pending - m) pending) stops ≡ false)
unfolding unsafe_tail
unsafe_tail_lem stops pending zero = (omega arith, λ m h k. absurd (omega arith))
unsafe_tail_lem stops pending (suc n) =
    let tail = drop (length pending - suc n) pending in
    elim (Bool-cases (begins_a_stop tail stops)) [
      | inl begins ↦
          let is : unsafe_tail stops pending (suc n) ≡ suc n = rw (begins) refl in
          (omega (arith, is), λ m h k. absurd (omega (arith, is)))
      | inr fails ↦
          let is : unsafe_tail stops pending (suc n) ≡ unsafe_tail stops pending n =
            rw (fails) refl in
          let (le, none_begins) = unsafe_tail_lem stops pending n in
          (
            omega (arith, is),
            λ m h k. elim (Bool-cases (ltb n m)) [
              | inr small ↦ none_begins m (omega (arith, is)) (not-ltb→le _ _ small)
              | inl big ↦
                  let same : suc n ≡ m = omega (arith, ltb→lt _ _ big) in
                  subst (λ m. begins_a_stop (drop (length pending - m) pending) stops ≡ false) same
                    fails
            ],
          )
    ]

-- No stop string that starts in the emitted text can still complete, whatever comes.
abbrev pub Ahead : List (List ℕ) → List ℕ → List ℕ → Type 0
Ahead stops emitted pending =
    (stop more : List ℕ) (j : ℕ)
    → Elem stop stops
    → j < length emitted
    → starts_with (drop j (emitted ++ pending ++ more)) stop ≡ false

-- A held-back tail is long enough.
pub held_back :
    (s : Stopper)
    → s.hold_back ≡ longest_stop s.stops
    → Earliest s.stops s.pending none
    → (stop more : List ℕ) (j : ℕ) → Elem stop s.stops
    → j < length s.pending - unsafe_tail_len s
    → starts_with (drop j (s.pending ++ more)) stop ≡ false
held_back s bound none_in stop more j m h =
    elim (Bool-cases (starts_with (drop j p ++ more) stop)) [
      | inr clear ↦ subst (λ t. starts_with t stop ≡ false) (sym split) clear
      | inl occurs ↦ elim (Bool-cases (ltb (length t) (length stop))) [
        | inr inside ↦
            let same = starts_with-append t more stop (not-ltb→le _ _ inside) in
            absurd (ground (arith, none_in stop j m))
        | inl beyond ↦
            let lt = ltb→lt _ _ beyond in
            let starts = starts_with_swap t more stop occurs (omega arith) in
            let begins = begins_a_stop_lem s.stops stop t m starts in
            let longest = longest_stop-ge s.stops stop m in
            let (_, none_begins) = unsafe_tail_lem s.stops p (min (length p) (s.hold_back - 1)) in
            let here : length p - length t ≡ j = omega (arith, size) in
            let clear = none_begins (length t) (omega (arith, size)) (omega (arith, size, bound)) in
            absurd (ground (arith, ap (λ i. begins_a_stop (drop i p) s.stops) here))
      ]
    ]
  where
    p : List ℕ
    p = s.pending

    t : List ℕ
    t = drop j p

    size : length t ≡ length p - j
    size = length-drop j p

    split : drop j (p ++ more) ≡ t ++ more
    split = drop-append j p more (omega arith)
