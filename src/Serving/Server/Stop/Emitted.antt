-- ===== src/Serving/Server/Stop/Emitted.antt =====
-- All that a stream emits, from its first token on.
use mathlib.Core.List.{append-nil, append_assoc}
use llm_infer.Prelude.{
  ℕ, zero, suc, none, Bool, drop, ◌≡◌, refl, ap, sym, subst, ◌∙◌, ◌⊎◌, inl, inr, true, false, List,
  [], ◌∷◌, ◌++◌, arith, if◌then◌else◌, length, Elem,
}
use llm_infer.Serving.Server.Detokenizer.{Detokenizer, fresh_detokenizer, feed_token, flush}
use llm_infer.Serving.Server.Stop.{
  starts_with, nonempty, StopFeed, Stopper, longest_stop, new_stopper, consume, receive, feed,
  finalize,
}
use llm_infer.Serving.Server.Stop.Texts.{Clear, Earliest}
use llm_infer.Serving.Server.Stop.Truncation.{Ahead}
use llm_infer.Serving.Server.Stop.Streams.{Going, Ended, consume_lem}

-- What `feed` gives for the tokens of a stream, and the text that they decode to.
unfoldable pub streamed : (List ℕ → List ℕ) → List ℕ → Stopper → List ℕ × Stopper
unfolding feed
streamed decode [] s = ([], s)
streamed decode (t ∷ ts) s =
    let (out, s') = feed decode t s in
    let (rest, s'') = streamed decode ts s' in (out.text ++ rest, s'')

unfoldable pub decoded : (List ℕ → List ℕ) → List ℕ → Detokenizer → List ℕ
unfolding feed_token
decoded decode [] d = []
decoded decode (t ∷ ts) d = let (delta, d') = feed_token decode t d in delta ++ decoded decode ts d'

-- The stream is open: the text is what is emitted and what is held back, and holds no stop string.
pub record Whole (stops : List (List ℕ)) (text emitted : List ℕ) (s : Stopper) : Type 0 where
  pub open_still : s.stopped ≡ false
  pub all : emitted ++ s.pending ≡ text
  pub clear : Earliest stops text none
  pub ahead : Ahead stops emitted s.pending

-- The stream has stopped: what is emitted ends where a stop string starts, and in the text up to the
-- end of that stop string none starts earlier.
pub record Cut (stops : List (List ℕ)) (text emitted : List ℕ) (s : Stopper) : Type 0 where
  pub closed : s.stopped ≡ true
  pub rest : List ℕ
  pub later : List ℕ
  pub all : emitted ++ rest ++ later ≡ text
  pub found : (stop : List ℕ) × Elem stop stops × (starts_with rest stop ≡ true)
  pub clear : Clear stops (emitted ++ rest) (length emitted)

abbrev pub Told : List (List ℕ) → List ℕ → List ℕ × Stopper → Type 0
Told stops text r = Whole stops text r.0 r.1 ⊎ Cut stops text r.0 r.1

pub if_true : {A : Type 0} {b : Bool} (x y : A) → b ≡ true → (if b then x else y) ≡ x
if_true x y h = rw (h) refl

pub if_false : {A : Type 0} {b : Bool} (x y : A) → b ≡ false → (if b then x else y) ≡ y
if_false x y h = rw (h) refl

-- The rest of a stream, after the feed of one token.
abbrev then_streamed : (List ℕ → List ℕ) → List ℕ → StopFeed × Stopper → List ℕ × Stopper
then_streamed decode ts o = (o.0.text ++ (streamed decode ts o.1).0, (streamed decode ts o.1).1)

feed-stopped :
    (decode : List ℕ → List ℕ) (t : ℕ) (s : Stopper)
    → s.stopped ≡ true
    → feed decode t s ≡ (record { text = []; stopped = true }, s)
unfolding feed
feed-stopped decode t s h = if_true _ _ h

pub feed-open :
    (decode : List ℕ → List ℕ) (t : ℕ) (s : Stopper)
    → s.stopped ≡ false
    → let r = feed_token decode t s.detokenizer in
      feed decode t s ≡ consume (record s { detokenizer = r.1; pending = s.pending ++ r.0 })
unfolding feed receive
feed-open decode t s h = if_false _ _ h

pub streamed-stopped :
    (decode : List ℕ → List ℕ) (ts : List ℕ) (s : Stopper)
    → s.stopped ≡ true
    → streamed decode ts s ≡ ([], s)
unfolding streamed
streamed-stopped decode [] s h = refl
streamed-stopped decode (t ∷ ts) s h =
    ap (then_streamed decode ts) (feed-stopped decode t s h) ∙ streamed-stopped decode ts s h

-- What is told of the rest of the stream, `r.1` being the state before it.
abbrev Then : (List ℕ → List ℕ) → List ℕ → Stopper → List ℕ → StopFeed × Stopper → Type 0
Then decode ts s emitted r =
    Told s.stops (emitted ++ s.pending ++ decoded decode ts s.detokenizer)
      (emitted ++ (then_streamed decode ts r).0, (then_streamed decode ts r).1)

Going-Then :
    (decode : List ℕ → List ℕ) (ts : List ℕ) (s : Stopper) (emitted : List ℕ)
    (r : StopFeed × Stopper)
    → Going s emitted r
    → Told r.1.stops
        (emitted ++ r.0.text ++ r.1.pending ++ decoded decode ts r.1.detokenizer)
        (emitted ++ r.0.text ++ (streamed decode ts r.1).0, (streamed decode ts r.1).1)
    → Then decode ts s emitted r
Going-Then decode ts s emitted r g told =
    let rest = streamed decode ts r.1 in
    let text : emitted ++ r.0.text ++ r.1.pending ++ decoded decode ts r.1.detokenizer
        ≡ emitted ++ s.pending ++ decoded decode ts s.detokenizer =
      ap (λ x. x ++ decoded decode ts r.1.detokenizer) g.all
      ∙ ap (λ d. emitted ++ s.pending ++ decoded decode ts d) g.same_detokenizer in
    subst (λ e. Told s.stops (emitted ++ s.pending ++ decoded decode ts s.detokenizer) (e, rest.1))
      (append_assoc emitted r.0.text rest.0)
      (subst (λ x. Told s.stops x (emitted ++ r.0.text ++ rest.0, rest.1)) text
        (subst
          (λ stops.
            Told stops (emitted ++ r.0.text ++ r.1.pending ++ decoded decode ts r.1.detokenizer)
              (emitted ++ r.0.text ++ rest.0, rest.1))
          g.same_stops told))

Ended-Then :
    (decode : List ℕ → List ℕ) (ts : List ℕ) (s : Stopper) (emitted : List ℕ)
    (r : StopFeed × Stopper)
    → Ended s emitted r
    → Then decode ts s emitted r
Ended-Then decode ts s emitted r e =
    let text = emitted ++ s.pending ++ decoded decode ts s.detokenizer in
    subst (λ (x : List ℕ × Stopper). Told s.stops text (emitted ++ (r.0.text ++ x.0), x.1))
      (sym (streamed-stopped decode ts r.1 e.closed))
      (subst (λ x. Told s.stops text (emitted ++ x, r.1)) (sym (append-nil r.0.text))
        (inr (record {
          closed = e.closed;
          rest = e.rest;
          later = decoded decode ts s.detokenizer;
          all = ap (λ x. x ++ decoded decode ts s.detokenizer) e.all;
          found = e.found;
          clear = subst (λ x. Clear s.stops x (length (emitted ++ r.0.text))) (sym e.all) e.clear;
        })))

streamed-Told :
    (decode : List ℕ → List ℕ) (ts : List ℕ) (s : Stopper) (emitted : List ℕ)
    → s.stopped ≡ false
    → s.hold_back ≡ longest_stop s.stops
    → Ahead s.stops emitted s.pending
    → Earliest s.stops (emitted ++ s.pending) none
    → Told s.stops
        (emitted ++ s.pending ++ decoded decode ts s.detokenizer)
        (emitted ++ (streamed decode ts s).0, (streamed decode ts s).1)
unfolding streamed decoded
streamed-Told decode [] s emitted still bound ahead clear = inl (record {
  open_still = still;
  all = ap (λ e. e ++ s.pending) (append-nil emitted) ∙ sym (append-nil (emitted ++ s.pending));
  clear = subst (λ x. Earliest s.stops x none) (sym (append-nil (emitted ++ s.pending))) clear;
  ahead = subst (λ e. Ahead s.stops e s.pending) (sym (append-nil emitted)) ahead;
})
streamed-Told decode (t ∷ ts) s emitted still bound ahead clear =
    subst
      (λ o.
        Told s.stops text (emitted ++ (then_streamed decode ts o).0, (then_streamed decode ts o).1))
      (sym (feed-open decode t s still))
      (subst
        (λ x.
          Told s.stops x (emitted ++ (then_streamed decode ts r).0, (then_streamed decode ts r).1))
        joined
        (elim (consume_lem s₁ emitted bound ahead₁) [
          | inr e ↦ Ended-Then decode ts s₁ emitted r e
          | inl g ↦ Going-Then decode ts s₁ emitted r g (
              streamed-Told decode ts r.1 (emitted ++ r.0.text) (g.open_still ∙ still)
                (g.same_bound ∙ bound ∙ ap longest_stop (sym g.same_stops))
                (subst (λ stops. Ahead stops (emitted ++ r.0.text) r.1.pending) (sym g.same_stops)
                  g.ahead)
                (subst (λ stops. Earliest stops ((emitted ++ r.0.text) ++ r.1.pending) none)
                  (sym g.same_stops) g.clear))
        ]))
  where
    delta : List ℕ
    delta = (feed_token decode t s.detokenizer).0

    d : Detokenizer
    d = (feed_token decode t s.detokenizer).1

    s₁ : Stopper
    s₁ = record s { detokenizer = d; pending = s.pending ++ delta }

    r : StopFeed × Stopper
    r = consume s₁

    text : List ℕ
    text = emitted ++ s.pending ++ (delta ++ decoded decode ts d)

    joined : emitted ++ (s.pending ++ delta) ++ decoded decode ts d ≡ text
    joined =
        ap (λ x. x ++ decoded decode ts d) (sym (append_assoc emitted s.pending delta))
        ∙ append_assoc (emitted ++ s.pending) delta (decoded decode ts d)

    ahead₁ : Ahead s.stops emitted (s.pending ++ delta)
    ahead₁ u more j m h =
        subst (λ x. starts_with (drop j x) u ≡ false)
          (sym (append_assoc (emitted ++ s.pending) delta more)
            ∙ ap (λ x. x ++ more) (append_assoc emitted s.pending delta))
          (ahead u (delta ++ more) j m h)

drop-nothing : (j : ℕ) → drop {A = ℕ} j [] ≡ []
drop-nothing zero = refl
drop-nothing (suc j) = refl

-- An empty text holds no stop string that is not empty.
nothing_yet : (stop : List (List ℕ)) → Earliest (nonempty stop) [] none
nothing_yet [] u j m = absurd m
nothing_yet ([] ∷ stop) u j m = nothing_yet stop u j m
nothing_yet ((c ∷ s) ∷ stop) u j (inl is) =
    subst (λ v. starts_with (drop j []) v ≡ false) is
      (subst (λ t. starts_with t (c ∷ s) ≡ false) (sym (drop-nothing j)) refl)
nothing_yet ((c ∷ s) ∷ stop) u j (inr m) = nothing_yet stop u j m

-- A stream through a new detokenizer with stop strings either has not stopped, and then what is
-- emitted with what is held back is the whole decoded text, no stop string is in it, and none
-- starts in what is emitted, whatever follows; or it has stopped, and then the emitted text is the
-- decoded text up to where a stop string starts, and none starts earlier in the text up to the end
-- of that stop string.
pub streamed-truncates :
    (decode : List ℕ → List ℕ) (stop : List (List ℕ)) (tokens : List ℕ)
    → Told
        (nonempty stop)
        (decoded decode tokens fresh_detokenizer)
        (streamed decode tokens (new_stopper stop))
streamed-truncates decode stop tokens =
    streamed-Told decode tokens (new_stopper stop) [] refl refl
      (λ u more j m h. absurd (omega arith)) (nothing_yet stop)

-- For an open stream after its tokens `finalize` loses nothing: with what was emitted it gives the
-- whole decoded text and the detokenizer's tail; a stopped stream gives nothing more.
pub finalize_complete :
    (decode : List ℕ → List ℕ) (stop : List (List ℕ)) (tokens : List ℕ)
    → let r = streamed decode tokens (new_stopper stop) in
      ((r.1.stopped ≡ false)
        × (r.0 ++ (finalize decode r.1).0
            ≡ decoded decode tokens fresh_detokenizer ++ (flush decode r.1.detokenizer).0))
      ⊎ ((r.1.stopped ≡ true) × (finalize decode r.1 ≡ ([], r.1)))
unfolding finalize
finalize_complete decode stop tokens =
    let r = streamed decode tokens (new_stopper stop) in
    let tail = (flush decode r.1.detokenizer).0 in
    elim (streamed-truncates decode stop tokens) [
      | inr c ↦ inr (c.closed, if_true _ _ c.closed)
      | inl w ↦ inl (
        w.open_still,
        ap (λ (x : List ℕ × Stopper). r.0 ++ x.0) (if_false _ _ w.open_still)
            ∙ sym (append_assoc r.0 r.1.pending tail)
            ∙ ap (λ x. x ++ tail) w.all,
      )
    ]
