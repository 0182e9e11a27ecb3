-- ===== src/Serving/Server/Streaming.antt =====
-- llm_infer/serving/server/streaming.py: the tokens of one stream as text, drained or sent as server-sent
-- events. A generator is what it yields, with the exception that ends it, if one does; an event is
-- its kind with the parts that vary, without its JSON text. Metrics are not in the model.
pub mod TextItems
pub mod Draining
pub mod Sending
use llm_infer.Prelude.{
  ℕ, suc, ◌+◌, String, Bool, true, false, Option, none, some, List, [], ◌∷◌, ◌++◌, if◌then◌else◌,
  Error,
}
use llm_infer.Serving.Server.Stop.{Stopper, feed, finalize}
use llm_infer.Serving.Server.AsyncEngine.{TokenStreamItem}

pub record TextStreamItem : Type 0 where
  pub text : List ℕ
  pub token_count : ℕ
  pub finish_reason : Option String
  pub terminal : Bool

pub record DrainResult : Type 0 where
  pub text : List ℕ
  pub token_count : ℕ
  pub finish_reason : String

-- `if item.finish_reason is not None: finish_reason = item.finish_reason`
abbrev pub or_else : Option String → Option String → Option String
or_else (some reason) before = some reason
or_else none before = before

abbrev pub reason_or : Option String → String → String
reason_or (some reason) before = reason
reason_or none before = before

-- An item for a text that is not empty.
abbrev pub piece : List ℕ → ℕ → Option String → List TextStreamItem
piece [] token_count finish_reason = []
piece (c ∷ text) token_count finish_reason =
    (record {
      text = c ∷ text;
      token_count = token_count;
      finish_reason = finish_reason;
      terminal = false;
    })
    ∷ []

abbrev pub terminal_item : ℕ → Option String → TextStreamItem
terminal_item token_count finish_reason = record {
  text = [];
  token_count = token_count;
  finish_reason = finish_reason;
  terminal = true;
}

-- After the token stream: it is flushed, or its exception is passed on.
abbrev pub text_end :
    (List ℕ → List ℕ)
    → Option Error
    → ℕ
    → Option String
    → Stopper
    → List TextStreamItem × Option Error
text_end decode (some err) token_count finish_reason s = ([], some err)
text_end decode none token_count finish_reason s = (
  piece (finalize decode s).0 token_count finish_reason
      ++ terminal_item token_count finish_reason ∷ [],
  none,
)

-- `error` is what the token stream raises after its items, if it does.
unfoldable pub text_items :
    (List ℕ → List ℕ)
    → Option Error
    → List TokenStreamItem
    → ℕ
    → Option String
    → Stopper
    → List TextStreamItem × Option Error
unfolding feed finalize
text_items decode error [] token_count finish_reason s =
    text_end decode error token_count finish_reason s
text_items decode error (item ∷ items) token_count finish_reason s =
    let (fed, s') = feed decode item.token_id s in
    let reason = or_else item.finish_reason finish_reason in
    let (rest, raised) = text_items decode error items (suc token_count) reason s' in
    if fed.stopped
    then (
      piece fed.text (suc token_count) reason ++ terminal_item (suc token_count) (some "stop") ∷ [],
      none,
    )
    else (piece fed.text (suc token_count) reason ++ rest, raised)

abbrev pub iter_text_stream :
    (List ℕ → List ℕ)
    → Option Error
    → List TokenStreamItem
    → Stopper
    → List TextStreamItem × Option Error
iter_text_stream decode error items s = text_items decode error items 0 none s

-- The loop of `drain_token_stream`.
unfoldable pub drain_items : List TextStreamItem → DrainResult → DrainResult
drain_items [] d = d
drain_items (item ∷ items) d =
    let seen : DrainResult = record d {
      token_count = item.token_count;
      finish_reason = reason_or item.finish_reason d.finish_reason;
    } in
    let rest = drain_items items (record seen { text = d.text ++ item.text }) in
    if item.terminal then seen else rest

abbrev pub drained : List TextStreamItem × Option Error → DrainResult × Option Error
drained (items, raised) =
    (drain_items items (record { text = []; token_count = 0; finish_reason = "length" }), raised)

-- With an exception the drain raises it, and its result is lost.
unfoldable pub drain_token_stream :
    (List ℕ → List ℕ) → Option Error → List TokenStreamItem → Stopper → DrainResult × Option Error
unfolding text_items drain_items
drain_token_stream decode error items s = drained (iter_text_stream decode error items s)

pub data Event : Type 0 where
  role : Event
  delta : (text : List ℕ) → Event
  finish : (finish_reason : String) → Event
  usage : (prompt_tokens completion_tokens total_tokens : ℕ) → Event
  done : Event
  created : Event
  completed : (text : List ℕ) (input_tokens output_tokens total_tokens : ℕ) → Event

-- A loop over text items up to the terminal one: the delta events, and the last count and reason.
pub record Sent : Type 0 where
  pub events : List Event
  pub output_tokens : ℕ
  pub finish_reason : Option String
  pub text : List ℕ

unfoldable pub send_items : List TextStreamItem → ℕ → Option String → List ℕ → Sent
send_items [] output_tokens finish_reason text = record {
  events = [];
  output_tokens = output_tokens;
  finish_reason = finish_reason;
  text = text;
}
send_items (item ∷ items) output_tokens finish_reason text =
    let reason = or_else item.finish_reason finish_reason in
    let rest = send_items items item.token_count reason (text ++ item.text) in
    if item.terminal
    then record {
      events = [];
      output_tokens = item.token_count;
      finish_reason = reason;
      text = text;
    }
    else record rest { events = delta item.text ∷ rest.events }

-- The chunks after the loop; an exception ends the generator before them.
abbrev pub openai_end : Bool → ℕ → Sent → Option Error → List Event
openai_end include_usage prompt_tokens sent (some err) = []
openai_end include_usage prompt_tokens sent none =
    finish (reason_or sent.finish_reason "length")
    ∷ ((if include_usage
          then usage prompt_tokens sent.output_tokens (prompt_tokens + sent.output_tokens) ∷ []
          else [])
        ++ done ∷ [])

unfoldable pub stream_openai_sse :
    Bool
    → Bool
    → ℕ
    → (List ℕ → List ℕ)
    → Option Error
    → List TokenStreamItem
    → Stopper
    → List Event × Option Error
unfolding text_items send_items
stream_openai_sse chat include_usage prompt_tokens decode error items s =
    let (texts, raised) = iter_text_stream decode error items s in
    let sent = send_items texts 0 none [] in
    (
      (if chat then role ∷ [] else [])
          ++ (sent.events ++ openai_end include_usage prompt_tokens sent raised),
      raised,
    )

abbrev pub responses_end : ℕ → Sent → Option Error → List Event
responses_end input_tokens sent (some err) = []
responses_end input_tokens sent none =
    completed sent.text input_tokens sent.output_tokens (input_tokens + sent.output_tokens) ∷ []

unfoldable pub stream_responses_sse :
    ℕ
    → (List ℕ → List ℕ)
    → Option Error
    → List TokenStreamItem
    → Stopper
    → List Event × Option Error
unfolding text_items send_items
stream_responses_sse input_tokens decode error items s =
    let (texts, raised) = iter_text_stream decode error items s in
    let sent = send_items texts 0 none [] in
    (created ∷ (sent.events ++ responses_end input_tokens sent raised), raised)
