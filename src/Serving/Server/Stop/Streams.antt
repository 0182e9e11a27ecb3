-- ===== src/Serving/Server/Stop/Streams.antt =====
-- Whole streams: what `feed` emits, token after token.
use mathlib.Core.List.{append-nil, append_assoc}
use llm_infer.Prelude.{
  ℕ, ◌-◌, ◌≡◌, refl, ap, sym, subst, ◌∙◌, ◌⊎◌, inl, inr, true, false, Bool-cases, Option, none,
  some, List, [], ◌∷◌, ◌++◌, arith, ltb, ltb→lt, not-ltb→le, ◌==◌, length, length-append,
  length-take, take, take-append-drop, drop, Elem,
}
use llm_infer.Serving.Server.Stop.{
  starts_with, StopFeed, Stopper, longest_stop, unsafe_tail_len, earliest_stop, cut_at, consume,
}
use llm_infer.Serving.Server.Stop.Texts.{Clear, Earliest, earliest_stop-Earliest}
use llm_infer.Serving.Server.Stop.Truncation.{Ahead, held_back, drop-append_beyond}

-- The stream goes on: nothing is lost, no stop string is complete, and none starts in what is emitted.
pub record Going (s : Stopper) (emitted : List ℕ) (r : StopFeed × Stopper) : Type 0 where
  pub silent : r.0.stopped ≡ false
  pub open_still : r.1.stopped ≡ s.stopped
  pub same_stops : r.1.stops ≡ s.stops
  pub same_bound : r.1.hold_back ≡ s.hold_back
  pub same_detokenizer : r.1.detokenizer ≡ s.detokenizer
  pub all : (emitted ++ r.0.text) ++ r.1.pending ≡ emitted ++ s.pending
  pub ahead : Ahead s.stops (emitted ++ r.0.text) r.1.pending
  pub clear : Earliest s.stops ((emitted ++ r.0.text) ++ r.1.pending) none

-- The stream ends at a stop string: one starts right after what is emitted, and none before.
pub record Ended (s : Stopper) (emitted : List ℕ) (r : StopFeed × Stopper) : Type 0 where
  pub told : r.0.stopped ≡ true
  pub closed : r.1.stopped ≡ true
  pub rest : List ℕ
  pub all : (emitted ++ r.0.text) ++ rest ≡ emitted ++ s.pending
  pub found : (stop : List ℕ) × Elem stop s.stops × (starts_with rest stop ≡ true)
  pub clear : Clear s.stops (emitted ++ s.pending) (length (emitted ++ r.0.text))

rejoin : (emitted p : List ℕ) (n : ℕ) → (emitted ++ take n p) ++ drop n p ≡ emitted ++ p
rejoin emitted p n =
    append_assoc emitted (take n p) (drop n p) ∙ ap (λ t. emitted ++ t) (take-append-drop n p)

cut-Ended :
    (s : Stopper) (emitted : List ℕ) (k : ℕ)
    → Ahead s.stops emitted s.pending
    → Earliest s.stops s.pending (some k)
    → Ended s emitted (cut_at s (some k))
cut-Ended s emitted k ahead ((stop, m, at), before) = record {
  told = refl;
  closed = refl;
  rest = drop k s.pending;
  all = rejoin emitted s.pending k;
  found = (stop, m, at);
  clear = λ u j n h. elim (Bool-cases (ltb j (length emitted))) [
    | inl early ↦
        subst (λ t. starts_with (drop j t) u ≡ false) (append-nil (emitted ++ s.pending))
          (ahead u [] j n (ltb→lt _ _ early))
    | inr late ↦
        let le = not-ltb→le _ _ late in
        subst (λ t. starts_with t u ≡ false) (sym (drop-append_beyond j emitted s.pending le))
          (before u (j - length emitted) n
            (omega (arith, length-append emitted (take k s.pending), length-take k s.pending, le)))
  ];
}

joined-clear :
    (stops : List (List ℕ)) (emitted pending : List ℕ)
    → Ahead stops emitted pending
    → Earliest stops pending none
    → Earliest stops (emitted ++ pending) none
joined-clear stops emitted pending ahead none_in u j n =
    elim (Bool-cases (ltb j (length emitted))) [
      | inl early ↦
          subst (λ t. starts_with (drop j t) u ≡ false) (append-nil (emitted ++ pending))
            (ahead u [] j n (ltb→lt _ _ early))
      | inr late ↦
          subst (λ t. starts_with t u ≡ false)
            (sym (drop-append_beyond j emitted pending (not-ltb→le _ _ late)))
            (none_in u (j - length emitted) n)
    ]

release-Going :
    (s : Stopper) (emitted : List ℕ)
    → s.hold_back ≡ longest_stop s.stops
    → Ahead s.stops emitted s.pending
    → Earliest s.stops s.pending none
    → Going s emitted (cut_at s none)
release-Going s emitted bound ahead none_in = record {
  silent = refl;
  open_still = refl;
  same_stops = refl;
  same_bound = refl;
  same_detokenizer = refl;
  all = rejoin emitted p safe;
  ahead = λ u more j n h.
      subst (λ t. starts_with (drop j t) u ≡ false) (sym (whole more))
        (elim (Bool-cases (ltb j (length emitted))) [
          | inl early ↦
              subst (λ t. starts_with (drop j t) u ≡ false) (append_assoc emitted p more)
                (ahead u more j n (ltb→lt _ _ early))
          | inr late ↦
              let le = not-ltb→le _ _ late in
              subst (λ t. starts_with t u ≡ false)
                (sym (drop-append_beyond j emitted (p ++ more) le))
                (held_back s bound none_in u more (j - length emitted) n
                  (omega (arith, length-append emitted (take safe p), length-take safe p, le)))
        ]);
  clear =
      subst (λ t. Earliest s.stops t none) (sym (rejoin emitted p safe))
        (joined-clear s.stops emitted p ahead none_in);
}
  where
    p : List ℕ
    p = s.pending

    safe : ℕ
    safe = length s.pending - unsafe_tail_len s

    whole :
        (more : List ℕ) → (emitted ++ take safe p) ++ drop safe p ++ more ≡ emitted ++ (p ++ more)
    whole more = ap (λ t. t ++ more) (rejoin emitted p safe) ∙ append_assoc emitted p more

no_stops : (stops : List (List ℕ)) (u : List ℕ) → length stops ≡ 0 → Elem u stops → ⊥
no_stops [] u h m = m
no_stops (stop ∷ stops) u h m = absurd (omega arith)

pub consume_lem :
    (s : Stopper) (emitted : List ℕ)
    → s.hold_back ≡ longest_stop s.stops
    → Ahead s.stops emitted s.pending
    → Going s emitted (consume s) ⊎ Ended s emitted (consume s)
unfolding consume
consume_lem s emitted bound ahead = elim (Bool-cases (length s.stops == 0)) [
  | inl empty ↦
      let is : consume s
          ≡ (record { text = s.pending; stopped = false }, record s { pending = [] }) =
        rw (empty) refl in
      inl (
        subst (Going s emitted) (sym is) (record {
          silent = refl;
          open_still = refl;
          same_stops = refl;
          same_bound = refl;
          same_detokenizer = refl;
          all = append-nil (emitted ++ s.pending);
          ahead = λ u more j n h. absurd (no_stops s.stops u (ground arith) n);
          clear = λ u j n. absurd (no_stops s.stops u (ground arith) n);
        }))
  | inr some_stops ↦
      let is : consume s ≡ cut_at s (earliest_stop s.stops s.pending none) = rw (some_stops) refl in
      subst (λ r. Going s emitted r ⊎ Ended s emitted r) (sym is)
        (searched (earliest_stop s.stops s.pending none) (earliest_stop-Earliest s.stops s.pending))
]
  where
    searched :
        (out : Option ℕ)
        → Earliest s.stops s.pending out
        → Going s emitted (cut_at s out) ⊎ Ended s emitted (cut_at s out)
    searched none e = inl (release-Going s emitted bound ahead e)
    searched (some k) e = inr (cut-Ended s emitted k ahead e)
