-- ===== src/Serving/Server/Streaming/TextItems.antt =====
-- The text items of a token stream: their texts, and the terminal one.
use mathlib.Core.List.{append-nil, append_assoc}
use llm_infer.Prelude.{
  ℕ, suc, ◌+◌, ◌≤◌, ◌≡◌, refl, ap, ap₂, sym, subst, ◌∙◌, inl, inr, String, Bool, true, false,
  Bool-cases, Option, none, some, List, [], ◌∷◌, ◌++◌, All, arith, length, if◌then◌else◌, ◌==◌,
  Error,
}
use llm_infer.Serving.Server.Stop.{
  StopFeed, Stopper, earliest_stop, cut_at, consume, feed, finalize,
}
use llm_infer.Serving.Server.Stop.Emitted.{streamed, streamed-stopped, feed-open}
use llm_infer.Serving.Server.AsyncEngine.{TokenStreamItem}
use llm_infer.Serving.Server.Streaming.{TextStreamItem, or_else, piece, terminal_item, text_items}

abbrev pub texts : List TextStreamItem → List ℕ
texts [] = []
texts (item ∷ items) = item.text ++ texts items

abbrev pub token_ids : List TokenStreamItem → List ℕ
token_ids [] = []
token_ids (item ∷ items) = item.token_id ∷ token_ids items

abbrev pub last_reason : Option String → List TokenStreamItem → Option String
last_reason reason [] = reason
last_reason reason (item ∷ items) = last_reason (or_else item.finish_reason reason) items

texts-append : (xs ys : List TextStreamItem) → texts (xs ++ ys) ≡ texts xs ++ texts ys
texts-append [] ys = refl
texts-append (x ∷ xs) ys =
    ap (λ t. x.text ++ t) (texts-append xs ys) ∙ sym (append_assoc x.text (texts xs) (texts ys))

texts-piece : (t : List ℕ) (n : ℕ) (r : Option String) → texts (piece t n r) ≡ t
texts-piece [] n r = refl
texts-piece (c ∷ t) n r = append-nil (c ∷ t)

cut_at-told :
    (s : Stopper) (o : Option ℕ)
    → s.stopped ≡ false
    → (cut_at s o).0.stopped ≡ (cut_at s o).1.stopped
cut_at-told s none still = sym still
cut_at-told s (some cut) still = refl

abbrev Same : StopFeed × Stopper → Type 0
Same r = r.0.stopped ≡ r.1.stopped

consume-told : (s : Stopper) → s.stopped ≡ false → (consume s).0.stopped ≡ (consume s).1.stopped
unfolding consume
consume-told s still = elim (Bool-cases (length s.stops == 0)) [
  | inl empty ↦
      let is : consume s
          ≡ (record { text = s.pending; stopped = false }, record s { pending = [] }) =
        rw (empty) refl in
      subst Same (sym is) (sym still)
  | inr some_stops ↦
      let is : consume s ≡ cut_at s (earliest_stop s.stops s.pending none) = rw (some_stops) refl in
      subst Same (sym is) (cut_at-told s (earliest_stop s.stops s.pending none) still)
]

-- The flag that `feed` returns is the one that it stores.
feed-told :
    (decode : List ℕ → List ℕ) (t : ℕ) (s : Stopper)
    → s.stopped ≡ false
    → (feed decode t s).0.stopped ≡ (feed decode t s).1.stopped
feed-told decode t s still =
    subst (λ (r : StopFeed × Stopper). r.0.stopped ≡ r.1.stopped) (sym (feed-open decode t s still))
      (consume-told _ still)

-- What a token stream that does not raise is made into: texts, and then one terminal item.
pub record Texts (decode : List ℕ → List ℕ) (items : List TokenStreamItem) (n : ℕ)
    (reason : Option String) (s : Stopper) : Type 0 where
  pub bodies : List TextStreamItem
  pub last : TextStreamItem
  pub shape : text_items decode none items n reason s ≡ (bodies ++ last ∷ [], none)
  pub inner : All (λ (b : TextStreamItem). b.terminal ≡ false) bodies
  pub ends : last.terminal ≡ true
  pub all :
      let r = streamed decode (token_ids items) s in texts bodies ≡ r.0 ++ (finalize decode r.1).0
  pub told :
      let r = streamed decode (token_ids items) s in
      last.finish_reason ≡ (if r.1.stopped then some "stop" else last_reason reason items)
  pub counted : last.token_count ≤ n + length items
  pub whole :
      let r = streamed decode (token_ids items) s in
      r.1.stopped ≡ false → last.token_count ≡ n + length items
  pub quiet :
      last.finish_reason ≡ none
      → All (λ (b : TextStreamItem). b.finish_reason ≡ none) bodies × (reason ≡ none)

finalize-stopped :
    (decode : List ℕ → List ℕ) (s : Stopper) → s.stopped ≡ true → (finalize decode s).0 ≡ []
unfolding finalize
finalize-stopped decode s h = simp (h) refl

piece_inner :
    (t : List ℕ) (n : ℕ) (r : Option String)
    → All (λ (b : TextStreamItem). b.terminal ≡ false) (piece t n r)
piece_inner [] n r = tt
piece_inner (c ∷ t) n r = (refl, tt)

piece_quiet :
    (t : List ℕ) (n : ℕ) (r : Option String)
    → r ≡ none
    → All (λ (b : TextStreamItem). b.finish_reason ≡ none) (piece t n r)
piece_quiet [] n r h = tt
piece_quiet (c ∷ t) n r h = (h, tt)

or_else-none : (x y : Option String) → or_else x y ≡ none → (x ≡ none) × (y ≡ none)
or_else-none none y h = (refl, h)
or_else-none (some x) y h = absurd (cc)

All-append {κ} :
    (P : TextStreamItem → Type κ) (xs ys : List TextStreamItem)
    → All P xs
    → All P ys
    → All P (xs ++ ys)
All-append P [] ys h k = k
All-append P (x ∷ xs) ys (p, h) k = (p, All-append P xs ys h k)

chosen : {b : Bool} → b ≡ true → (r : Option String) → (if b then some "stop" else r) ≡ some "stop"
chosen h r = rw (h) refl

pub text_items-Texts :
    (decode : List ℕ → List ℕ) (items : List TokenStreamItem) (n : ℕ) (reason : Option String)
    (s : Stopper)
    → s.stopped ≡ false
    → Texts decode items n reason s
unfolding text_items streamed
text_items-Texts decode [] n reason s still = record {
  bodies = piece (finalize decode s).0 n reason;
  last = terminal_item n reason;
  shape = refl;
  inner = piece_inner _ n reason;
  ends = refl;
  all = texts-piece (finalize decode s).0 n reason;
  told = simp (still) refl;
  counted = omega arith;
  whole = λ _. omega arith;
  quiet = λ h. (piece_quiet _ n reason h, h);
}
text_items-Texts decode (item ∷ items) n reason s still =
    let fed = (feed decode item.token_id s).0 in
    let s' = (feed decode item.token_id s).1 in
    let now = or_else item.finish_reason reason in
    let agree = feed-told decode item.token_id s still in
    elim (Bool-cases (feed decode item.token_id s).0.stopped) [
      | inl stop ↦
          let after : streamed decode (token_ids items) s' ≡ ([], s') =
            streamed-stopped decode (token_ids items) s' (sym agree ∙ stop) in
          record {
            bodies = piece fed.text (suc n) now;
            last = terminal_item (suc n) (some "stop");
            shape = simp (stop, text_items);
            inner = piece_inner fed.text (suc n) now;
            ends = refl;
            all =
                texts-piece fed.text (suc n) now
                ∙ sym (
                    ap (λ (x : List ℕ × Stopper). (fed.text ++ x.0) ++ (finalize decode x.1).0)
                      after
                    ∙ ap (λ e. (fed.text ++ []) ++ e)
                        (finalize-stopped decode s' (sym agree ∙ stop))
                    ∙ append-nil (fed.text ++ [])
                    ∙ append-nil fed.text);
            told = sym (
                ap
                  (λ (x : List ℕ × Stopper).
                    if x.1.stopped then some "stop" else last_reason now items)
                  after
                ∙ chosen (sym agree ∙ stop) (last_reason now items));
            counted = omega arith;
            whole = λ h.
                let over : true ≡ false =
                  sym (ap (λ (x : List ℕ × Stopper). x.1.stopped) after ∙ sym agree ∙ stop) ∙ h in
                absurd (cc);
            quiet = λ h. absurd (cc);
          }
      | inr on ↦
          let rec = text_items-Texts decode items (suc n) now s' (sym agree ∙ on) in
          let first = piece fed.text (suc n) now in
          let went : text_items decode none (item ∷ items) n reason s ≡ (
            first ++ (text_items decode none items (suc n) now s').0,
            (text_items decode none items (suc n) now s').1,
          ) =
            simp (on, text_items) in
          record {
            bodies = first ++ rec.bodies;
            last = rec.last;
            shape =
                went
                ∙ ap (λ (x : List TextStreamItem × Option Error). (first ++ x.0, x.1)) rec.shape
                ∙ ap (λ q. (q, none)) (sym (append_assoc first rec.bodies (rec.last ∷ [])));
            inner = All-append _ first rec.bodies (piece_inner fed.text (suc n) now) rec.inner;
            ends = rec.ends;
            all =
                texts-append first rec.bodies
                ∙ ap₂ ◌++◌ (texts-piece fed.text (suc n) now) rec.all
                ∙ sym (append_assoc fed.text (streamed decode (token_ids items) s').0 _);
            told = rec.told;
            counted = omega (arith, rec.counted);
            whole = λ h. omega (arith, rec.whole h);
            quiet = λ h.
                let (q, e) = rec.quiet h in
                (
                  All-append _ first rec.bodies (piece_quiet fed.text (suc n) now e) q,
                  (or_else-none item.finish_reason reason e).1,
                );
          }
    ]
