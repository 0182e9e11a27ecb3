-- ===== src/Serving/Server/Stop/Texts.antt =====
-- Where a stop string occurs in a text.
use mathlib.Core.Option
use llm_infer.Prelude.{
  ℕ, zero, suc, ◌<◌, ◌≡◌, refl, sym, subst, ◌⊎◌, inl, inr, true, false, Bool-cases, Option, none,
  some, List, [], ◌∷◌, arith, ltb, ltb→lt, not-ltb→le, drop, Elem,
}
use llm_infer.Serving.Server.Stop.{starts_with, find, earlier, earliest_stop}

-- No stop string occurs before position `k` of the text.
abbrev pub Clear : List (List ℕ) → List ℕ → ℕ → Type 0
Clear stops text k =
    (stop : List ℕ) (j : ℕ) → Elem stop stops → j < k → starts_with (drop j text) stop ≡ false

abbrev pub Found : List ℕ → List ℕ → Option ℕ → Type 0
Found text stop none = (j : ℕ) → starts_with (drop j text) stop ≡ false
Found text stop (some k) =
    (starts_with (drop k text) stop ≡ true)
    × ((j : ℕ) → j < k → starts_with (drop j text) stop ≡ false)

shifted_none :
    (c : ℕ) (text stop : List ℕ)
    → starts_with (c ∷ text) stop ≡ false
    → Found text stop none
    → Found (c ∷ text) stop none
shifted_none c text stop not_here out zero = not_here
shifted_none c text stop not_here out (suc j) = out j

shifted_before :
    (c : ℕ) (text stop : List ℕ) (k : ℕ)
    → starts_with (c ∷ text) stop ≡ false
    → ((j : ℕ) → j < k → starts_with (drop j text) stop ≡ false)
    → (j : ℕ) → j < suc k
    → starts_with (drop j (c ∷ text)) stop ≡ false
shifted_before c text stop k not_here before zero h = not_here
shifted_before c text stop k not_here before (suc j) h = before j (omega arith)

shifted :
    (c : ℕ) (text stop : List ℕ) (out : Option ℕ)
    → starts_with (c ∷ text) stop ≡ false
    → Found text stop out
    → Found (c ∷ text) stop (Option.map suc out)
shifted c text stop none not_here out = shifted_none c text stop not_here out
shifted c text stop (some k) not_here (at, before) =
    (at, shifted_before c text stop k not_here before)

drop_none :
    (stop : List ℕ) (j : ℕ) → starts_with [] stop ≡ false → starts_with (drop j []) stop ≡ false
drop_none stop zero h = h
drop_none stop (suc j) h = h

find-Found : (text stop : List ℕ) → Found text stop (find text stop)
unfolding find
find-Found [] stop = elim (Bool-cases (starts_with [] stop)) [
  | inl here ↦
      let is : find [] stop ≡ some 0 = rw (here) refl in
      subst (Found [] stop) (sym is) (here, λ j h. absurd (omega arith))
  | inr not_here ↦
      let is : find [] stop ≡ none = rw (not_here) refl in
      subst (Found [] stop) (sym is) (λ j. drop_none stop j not_here)
]
find-Found (c ∷ text) stop = elim (Bool-cases (starts_with (c ∷ text) stop)) [
  | inl here ↦
      let is : find (c ∷ text) stop ≡ some 0 = rw (here) refl in
      subst (Found (c ∷ text) stop) (sym is) (here, λ j h. absurd (omega arith))
  | inr not_here ↦
      let is : find (c ∷ text) stop ≡ Option.map suc (find text stop) = rw (not_here) refl in
      subst (Found (c ∷ text) stop) (sym is)
        (shifted c text stop (find text stop) not_here (find-Found text stop))
]

-- What a search over several stop strings found: the earliest occurrence of any.
abbrev pub Earliest : List (List ℕ) → List ℕ → Option ℕ → Type 0
Earliest stops text none =
    (stop : List ℕ) (j : ℕ) → Elem stop stops → starts_with (drop j text) stop ≡ false
Earliest stops text (some k) =
    ((stop : List ℕ) × Elem stop stops × (starts_with (drop k text) stop ≡ true))
    × Clear stops text k

both_clear :
    (stops : List (List ℕ)) (stop text : List ℕ) (k : ℕ)
    → ((j : ℕ) → j < k → starts_with (drop j text) stop ≡ false)
    → Clear stops text k
    → Clear (stop ∷ stops) text k
both_clear stops stop text k one rest u j (inl p) h =
    subst (λ u. starts_with (drop j text) u ≡ false) p (one j h)
both_clear stops stop text k one rest u j (inr m) h = rest u j m h

both_none :
    (stops : List (List ℕ)) (stop text : List ℕ)
    → Found text stop none
    → Earliest stops text none
    → Earliest (stop ∷ stops) text none
both_none stops stop text one rest u j (inl p) =
    subst (λ u. starts_with (drop j text) u ≡ false) p (one j)
both_none stops stop text one rest u j (inr m) = rest u j m

-- One more stop string is searched for.
earlier-Earliest :
    (stops : List (List ℕ)) (stop text : List ℕ) (first found : Option ℕ)
    → Earliest stops text first
    → Found text stop found
    → Earliest (stop ∷ stops) text (earlier first found)
earlier-Earliest stops stop text none none e f = both_none stops stop text f e
earlier-Earliest stops stop text (some k) none ((u, m, at), before) f =
    ((u, inr m, at), both_clear stops stop text k (λ j h. f j) before)
earlier-Earliest stops stop text none (some i) e (at, before) =
    ((stop, inl refl, at), both_clear stops stop text i before (λ u j m h. e u j m))
earlier-Earliest stops stop text (some k) (some i) ((u, m, at), before) (at_i, before_i) =
    elim (Bool-cases (ltb i k)) [
      | inl first ↦
          let is : earlier (some k) (some i) ≡ some i = rw (first) refl in
          let lt = ltb→lt _ _ first in
          subst (Earliest (stop ∷ stops) text) (sym is) (
            (stop, inl refl, at_i),
            both_clear stops stop text i before_i (λ u j m h. before u j m (omega arith)),
          )
      | inr later ↦
          let is : earlier (some k) (some i) ≡ some k = rw (later) refl in
          let le = not-ltb→le _ _ later in
          subst (Earliest (stop ∷ stops) text) (sym is)
            ((u, inr m, at), both_clear stops stop text k (λ j h. before_i j (omega arith)) before)
    ]

-- The stop strings in the order in which the loop leaves them behind.
abbrev onto : List (List ℕ) → List (List ℕ) → List (List ℕ)
onto [] done = done
onto (stop ∷ stops) done = onto stops (stop ∷ done)

onto_done : (stops done : List (List ℕ)) (u : List ℕ) → Elem u done → Elem u (onto stops done)
onto_done [] done u m = m
onto_done (stop ∷ stops) done u m = onto_done stops (stop ∷ done) u (inr m)

onto_stops : (stops done : List (List ℕ)) (u : List ℕ) → Elem u stops → Elem u (onto stops done)
onto_stops (stop ∷ stops) done u (inl p) = onto_done stops (stop ∷ done) u (inl p)
onto_stops (stop ∷ stops) done u (inr m) = onto_stops stops (stop ∷ done) u m
onto_stops [] done u m = absurd m

onto_only :
    (stops done : List (List ℕ)) (u : List ℕ)
    → Elem u (onto stops done)
    → Elem u stops ⊎ Elem u done
onto_only [] done u m = inr m
onto_only (stop ∷ stops) done u m = elim (onto_only stops (stop ∷ done) u m) [
  | inl here ↦ inl (inr here)
  | inr (inl p) ↦ inl (inl p)
  | inr (inr d) ↦ inr d
]

searched :
    (stops done : List (List ℕ)) (text : List ℕ) (first : Option ℕ)
    → Earliest done text first
    → Earliest (onto stops done) text (earliest_stop stops text first)
unfolding earliest_stop
searched [] done text first e = e
searched (stop ∷ stops) done text first e =
    searched stops (stop ∷ done) text (earlier first (find text stop))
      (earlier-Earliest done stop text first (find text stop) e (find-Found text stop))

in_order :
    (stops : List (List ℕ)) (text : List ℕ) (out : Option ℕ)
    → Earliest (onto stops []) text out
    → Earliest stops text out
in_order stops text none e = λ u j m. e u j (onto_stops stops [] u m)
in_order stops text (some k) ((u, m, at), before) =
    ((u, only, at), λ w j n h. before w j (onto_stops stops [] w n) h)
  where
    only : Elem u stops
    only = elim (onto_only stops [] u m) [ inl here ↦ here | inr none_left ↦ absurd none_left ]

-- The search of `_earliest_stop` finds the earliest occurrence of any stop string.
pub earliest_stop-Earliest :
    (stops : List (List ℕ)) (text : List ℕ) → Earliest stops text (earliest_stop stops text none)
earliest_stop-Earliest stops text =
    in_order stops text _ (searched stops [] text none (λ u j m. absurd m))
