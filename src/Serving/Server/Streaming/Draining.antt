-- ===== src/Serving/Server/Streaming/Draining.antt =====
-- The result of a drain, against the decoded text of the tokens.
use mathlib.Core.List.{append-nil, append_assoc}
use llm_infer.Prelude.{
  ℕ, ◌≤◌, ◌≡◌, refl, ap, ap₂, sym, subst, ◌∙◌, ◌⊎◌, inl, inr, String, true, false, Option, none,
  some, List, [], ◌∷◌, ◌++◌, All, arith, length, if◌then◌else◌,
}
use llm_infer.Serving.Server.Detokenizer.{fresh_detokenizer, flush}
use llm_infer.Serving.Server.Stop.{Stopper, nonempty, new_stopper, finalize}
use llm_infer.Serving.Server.Stop.Texts.{Earliest}
use llm_infer.Serving.Server.Stop.Emitted.{
  streamed, decoded, Cut, streamed-truncates, finalize_complete,
}
use llm_infer.Serving.Server.AsyncEngine.{TokenStreamItem}
use llm_infer.Serving.Server.Streaming.{
  TextStreamItem, DrainResult, reason_or, drain_items, drained, drain_token_stream,
}
use llm_infer.Serving.Server.Streaming.TextItems.{texts, token_ids, last_reason, text_items-Texts}

overridden :
    (last body : Option String) (before : String)
    → (last ≡ none → body ≡ none)
    → reason_or last (reason_or body before) ≡ reason_or last before
overridden (some r) body before quiet = refl
overridden none body before quiet = rw (quiet refl) refl

drain_items_lem :
    (bodies : List TextStreamItem) (last : TextStreamItem) (d : DrainResult)
    → All (λ (b : TextStreamItem). b.terminal ≡ false) bodies
    → last.terminal ≡ true
    → (last.finish_reason ≡ none → All (λ (b : TextStreamItem). b.finish_reason ≡ none) bodies)
    → drain_items (bodies ++ last ∷ []) d ≡ record {
      text = d.text ++ texts bodies;
      token_count = last.token_count;
      finish_reason = reason_or last.finish_reason d.finish_reason;
    }
unfolding drain_items
drain_items_lem [] last d inner ends quiet = simp (ends, append-nil)
drain_items_lem (b ∷ bodies) last d (in_body, inner) ends quiet =
    let seen : DrainResult = record {
      text = d.text ++ b.text;
      token_count = b.token_count;
      finish_reason = reason_or b.finish_reason d.finish_reason;
    } in
    let rest = drain_items_lem bodies last seen inner ends (λ h. (quiet h).1) in
    simp (in_body) (
      rest
      ∙ ap₂
          (λ t f.
            let x : DrainResult = record {
              text = t;
              token_count = last.token_count;
              finish_reason = f;
            } in
            x)
          (append_assoc d.text b.text (texts bodies))
          (overridden last.finish_reason b.finish_reason d.finish_reason (λ h. (quiet h).0)))

-- What the drain of a stream says: the whole text with the engine's reason, or, at a stop string, the
-- text before it.
abbrev pub Drained : (List ℕ → List ℕ) → List (List ℕ) → List TokenStreamItem → DrainResult → Type 0
Drained decode stop items d =
    let r = streamed decode (token_ids items) (new_stopper stop) in
    let text = decoded decode (token_ids items) fresh_detokenizer in
    (Earliest (nonempty stop) text none
      × (d.text ≡ text ++ (flush decode r.1.detokenizer).0)
      × (d.finish_reason ≡ reason_or (last_reason none items) "length")
      × (d.token_count ≡ length items))
    ⊎ (Cut (nonempty stop) text d.text r.1
        × (d.finish_reason ≡ "stop")
        × (d.token_count ≤ length items))

settled :
    (decode : List ℕ → List ℕ) (stop : List (List ℕ)) (items : List TokenStreamItem)
    (d : DrainResult)
    → let r = streamed decode (token_ids items) (new_stopper stop) in
      d.text ≡ r.0 ++ (finalize decode r.1).0
      → d.finish_reason
        ≡ reason_or (if r.1.stopped then some "stop" else last_reason none items) "length"
      → d.token_count ≤ length items
      → (r.1.stopped ≡ false → d.token_count ≡ length items)
      → Drained decode stop items d
settled decode stop items d text reason counted whole =
    let r = streamed decode (token_ids items) (new_stopper stop) in
    elim (finalize_complete decode stop (token_ids items)) [
      | inl (still, complete) ↦ inl (
        elim (streamed-truncates decode stop (token_ids items)) [
          | inl w ↦ w.clear
          | inr c ↦ let over : true ≡ false = sym c.closed ∙ still in absurd (cc)
        ],
        text ∙ complete,
        reason
            ∙ ap (λ b. reason_or (if b then some "stop" else last_reason none items) "length")
                still,
        whole still,
      )
      | inr (closed, nothing) ↦ inr (
        elim (streamed-truncates decode stop (token_ids items)) [
          | inl w ↦ let over : true ≡ false = sym closed ∙ w.open_still in absurd (cc)
          | inr c ↦
              subst
                (λ t.
                  Cut (nonempty stop) (decoded decode (token_ids items) fresh_detokenizer) t r.1)
                (sym (text ∙ ap (λ (x : List ℕ × Stopper). r.0 ++ x.0) nothing ∙ append-nil r.0)) c
        ],
        reason
            ∙ ap (λ b. reason_or (if b then some "stop" else last_reason none items) "length")
                closed,
        counted,
      )
    ]

-- A token stream that does not raise is drained without an exception. Either no stop string is in
-- the decoded text, and then the text is this whole text with the detokenizer's tail, the finish
-- reason is the last one of the items, "length" if they have none, and all tokens are counted. Or
-- the text is the decoded text up to where a stop string starts, none starts earlier in the text up
-- to the end of that stop string, the finish reason is "stop", and no more tokens are counted than
-- there are.
pub drain_token_stream-Drained :
    (decode : List ℕ → List ℕ) (stop : List (List ℕ)) (items : List TokenStreamItem)
    → (d : DrainResult) × (drain_token_stream decode none items (new_stopper stop) ≡ (d, none))
      × Drained decode stop items d
unfolding drain_token_stream
drain_token_stream-Drained decode stop items =
    let t = text_items-Texts decode items 0 none (new_stopper stop) refl in
    let start : DrainResult = record { text = []; token_count = 0; finish_reason = "length" } in
    let end : DrainResult = record {
      text = texts t.bodies;
      token_count = t.last.token_count;
      finish_reason = reason_or t.last.finish_reason "length";
    } in
    (
      end,
      ap drained t.shape
          ∙ ap (λ x. (x, none))
              (drain_items_lem t.bodies t.last start t.inner t.ends (λ h. (t.quiet h).0)),
      settled decode stop items end t.all (ap (λ o. reason_or o "length") t.told)
          (omega (arith, t.counted)) (λ h. omega (arith, t.whole h)),
    )
