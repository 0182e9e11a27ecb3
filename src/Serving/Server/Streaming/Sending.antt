-- ===== src/Serving/Server/Streaming/Sending.antt =====
-- The two event streams against the drain of the same tokens.
use mathlib.Core.List.{append-nil, append_assoc}
use llm_infer.Prelude.{
  ℕ, ◌+◌, ◌≡◌, refl, ap, ap₂, sym, subst, ◌∙◌, inl, inr, String, Bool, Bool-cases, Option, none,
  some, List, [], ◌∷◌, ◌++◌, if◌then◌else◌, Error,
}
use llm_infer.Serving.Server.Stop.{Stopper}
use llm_infer.Serving.Server.AsyncEngine.{TokenStreamItem}
use llm_infer.Serving.Server.Streaming.{
  TextStreamItem, DrainResult, or_else, reason_or, iter_text_stream, drain_items,
  drain_token_stream, Event, role, delta, finish, usage, done, created, completed, Sent, send_items,
  openai_end, stream_openai_sse, responses_end, stream_responses_sse,
}

abbrev pub deltas : List (List ℕ) → List Event
deltas [] = []
deltas (t ∷ ts) = delta t ∷ deltas ts

abbrev pub joined : List (List ℕ) → List ℕ
joined [] = []
joined (t ∷ ts) = t ++ joined ts

reason_or-or_else :
    (x y : Option String) (d : String) → reason_or (or_else x y) d ≡ reason_or x (reason_or y d)
reason_or-or_else none y d = refl
reason_or-or_else (some r) y d = refl

-- The loop of an event stream and the loop of the drain.
record Alike (sent : Sent) (d : DrainResult) (before : List ℕ) : Type 0 where
  pub parts : List (List ℕ)
  pub events : sent.events ≡ deltas parts
  pub joins : before ++ joined parts ≡ d.text
  pub text : sent.text ≡ d.text
  pub counted : sent.output_tokens ≡ d.token_count
  pub reason : reason_or sent.finish_reason "length" ≡ d.finish_reason

send_items-Alike :
    (items : List TextStreamItem) (n : ℕ) (reason : Option String) (text : List ℕ)
    → Alike
        (send_items items n reason text)
        (drain_items items
          (record { text = text; token_count = n; finish_reason = reason_or reason "length" }))
        text
unfolding send_items drain_items
send_items-Alike [] n reason text = record {
  parts = [];
  events = refl;
  joins = append-nil text;
  text = refl;
  counted = refl;
  reason = refl;
}
send_items-Alike (item ∷ items) n reason text = elim (Bool-cases item.terminal) [
  | inl ends ↦ rw (ends) (record {
    parts = [];
    events = refl;
    joins = append-nil text;
    text = refl;
    counted = refl;
    reason = reason_or-or_else item.finish_reason reason "length";
  })
  | inr inner ↦
      let now = or_else item.finish_reason reason in
      let rest = send_items-Alike items item.token_count now (text ++ item.text) in
      rw (inner) (
        subst
          (λ f.
            Alike
              (record (send_items items item.token_count now (text ++ item.text)) {
                events =
                    delta item.text
                    ∷ (send_items items item.token_count now (text ++ item.text)).events;
              })
              (drain_items items (record {
                text = text ++ item.text;
                token_count = item.token_count;
                finish_reason = f;
              }))
              text)
          (reason_or-or_else item.finish_reason reason "length")
          (record {
            parts = item.text ∷ rest.parts;
            events = ap (◌∷◌ (delta item.text)) rest.events;
            joins = sym (append_assoc text item.text (joined rest.parts)) ∙ rest.joins;
            text = rest.text;
            counted = rest.counted;
            reason = rest.reason;
          }))
]

-- The chunks after the deltas, from the result of the drain.
abbrev pub openai_tail : Bool → ℕ → DrainResult → Option Error → List Event
openai_tail include_usage prompt_tokens d (some err) = []
openai_tail include_usage prompt_tokens d none =
    finish d.finish_reason
    ∷ ((if include_usage
          then usage prompt_tokens d.token_count (prompt_tokens + d.token_count) ∷ []
          else [])
        ++ done ∷ [])

abbrev pub responses_tail : ℕ → DrainResult → Option Error → List Event
responses_tail input_tokens d (some err) = []
responses_tail input_tokens d none =
    completed d.text input_tokens d.token_count (input_tokens + d.token_count) ∷ []

openai_end_lem :
    (include_usage : Bool) (prompt_tokens : ℕ) (sent : Sent) (d : DrainResult) (before : List ℕ)
    (raised : Option Error)
    → Alike sent d before
    → openai_end include_usage prompt_tokens sent raised
      ≡ openai_tail include_usage prompt_tokens d raised
openai_end_lem include_usage prompt_tokens sent d before (some err) a = refl
openai_end_lem include_usage prompt_tokens sent d before none a = rw (a.counted, a.reason) refl

responses_end_lem :
    (input_tokens : ℕ) (sent : Sent) (d : DrainResult) (before : List ℕ) (raised : Option Error)
    → Alike sent d before
    → responses_end input_tokens sent raised ≡ responses_tail input_tokens d raised
responses_end_lem input_tokens sent d before (some err) a = refl
responses_end_lem input_tokens sent d before none a = rw (a.counted, a.text) refl

-- For any token stream, one that raises included, the chat or completion events are the role chunk
-- of a chat, deltas whose texts joined are the text of `drain_token_stream` on the same stream,
-- and, unless the stream raises, one finish chunk with the drain's finish reason, the usage with
-- the drain's count if it is asked for, and the end mark. An exception is passed on by both alike.
pub stream_openai_sse-drain :
    (chat include_usage : Bool) (prompt_tokens : ℕ) (decode : List ℕ → List ℕ)
    (error : Option Error) (items : List TokenStreamItem) (s : Stopper)
    → let d = drain_token_stream decode error items s in
      (parts : List (List ℕ)) × (joined parts ≡ d.0.text)
      × (stream_openai_sse chat include_usage prompt_tokens decode error items s ≡ (
        (if chat then role ∷ [] else [])
            ++ (deltas parts ++ openai_tail include_usage prompt_tokens d.0 d.1),
        d.1,
      ))
unfolding stream_openai_sse drain_token_stream
stream_openai_sse-drain chat include_usage prompt_tokens decode error items s =
    let out = iter_text_stream decode error items s in
    let a = send_items-Alike out.0 0 none [] in
    (
      a.parts,
      a.joins,
      ap₂ (λ events end. ((if chat then role ∷ [] else []) ++ (events ++ end), out.1)) a.events
          (openai_end_lem include_usage prompt_tokens _ _ [] out.1 a),
    )

-- For any token stream, the Responses events are the created event, deltas whose texts joined are
-- the text of `drain_token_stream` on the same stream, and, unless the stream raises, one completed
-- event with that text and the drain's count. An exception is passed on by both alike.
pub stream_responses_sse-drain :
    (input_tokens : ℕ) (decode : List ℕ → List ℕ) (error : Option Error)
    (items : List TokenStreamItem) (s : Stopper)
    → let d = drain_token_stream decode error items s in
      (parts : List (List ℕ)) × (joined parts ≡ d.0.text)
      × (stream_responses_sse input_tokens decode error items s
          ≡ (created ∷ (deltas parts ++ responses_tail input_tokens d.0 d.1), d.1))
unfolding stream_responses_sse drain_token_stream
stream_responses_sse-drain input_tokens decode error items s =
    let out = iter_text_stream decode error items s in
    let a = send_items-Alike out.0 0 none [] in
    (
      a.parts,
      a.joins,
      ap₂ (λ events end. (created ∷ (events ++ end), out.1)) a.events
          (responses_end_lem input_tokens _ _ [] out.1 a),
    )
