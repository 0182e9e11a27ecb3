-- ===== src/Serving/Server/AsyncEngine/Runs.antt =====
-- From the steps of the engine to what the consumer of one stream gets.
use mathlib.Core.List.{append-nil, append_assoc}
use llm_infer.Prelude.{
  ℕ, ◌≤◌, ◌≡◌, refl, ap, ap₂, sym, ◌∙◌, inl, inr, String, true, false, Bool-cases, Option-cases,
  ltb, ltb→lt, not-ltb→le, Option, none, some, List, [], ◌∷◌, ◌++◌, All, arith, count,
  if◌then◌else◌, member, Error,
}
use llm_infer.Serving.Engine.{names_member}
use llm_infer.Serving.Engine.Results.{StepResult}
use llm_infer.Serving.Server.AsyncEngine.{
  Stream, AsyncEngine, put_item, stream_of, burst_of, end_streams, dispatch,
}
use llm_infer.Serving.Server.AsyncEngine.Streams.{Books, put_item-open}
use llm_infer.Serving.Server.AsyncEngine.Entries.{handles}
use llm_infer.Serving.Server.AsyncEngine.Loops.{places, Ledger, dispatch-Ledger}
use llm_infer.Serving.Server.AsyncEngine.Delivery.{
  tokens_of, keyed, sent, ended_if, stream_of-drop_stream_ne, dispatch_lem,
}
use llm_infer.Serving.Server.AsyncEngine.Consumers.{
  Ending, read_queue, plain, tokens_in, burst_got, bursts_in, burst_plain, burst_last, last_item,
  read_queue_lem,
}

sent_open :
    (o : Option (List ℕ)) (s : Stream)
    → s.loop_closed ≡ false
    → sent false o s ≡ record s { queue = s.queue ++ burst_got o }
sent_open none s h =
    ap (λ q. let t : Stream = record s { queue = q } in t) (sym (append-nil s.queue))
sent_open (some ts) s h =
    put_item-open (some (burst_of s false ts)) s h
    ∙ ap (λ b. let t : Stream = record s { queue = s.queue ++ some b ∷ [] } in t) (burst_plain s ts)

finished_open :
    (s : Stream) (ts : List ℕ) (t : ℕ)
    → s.loop_closed ≡ false
    → (ended_if true (sent true (some (ts ++ t ∷ [])) s)).queue
      ≡ (s.queue ++ some (plain ts ++ last_item s t ∷ []) ∷ []) ++ none ∷ []
finished_open s ts t h =
    let b = burst_of s true (ts ++ t ∷ []) in
    ap (λ c. (put_item none c).queue) (put_item-open (some b) s h)
    ∙ ap (λ (c : Stream). c.queue)
        (put_item-open none (record s { queue = s.queue ++ some b ∷ [] }) h)
    ∙ ap (λ items. (s.queue ++ some items ∷ []) ++ none ∷ []) (burst_last s ts t)

-- Results that say nothing of a request's end, with its tokens at most once each.
abbrev pub Continuing : String → List StepResult → Type 0
Continuing id rs =
    All (λ (r : StepResult). (names_member id r.finished ≡ false) × (keyed id r.tokens ≤ 1)) rs

places_le : (next : ℕ) (n : ℕ → ℕ) (cells : ℕ → Stream) (h : ℕ) → Books next n cells → n h ≤ 1
places_le next n cells h b = elim (Bool-cases (ltb h next)) [
  | inr over ↦ omega (arith, b.beyond h (not-ltb→le h next over))
  | inl below ↦ elim (b.each h (ltb→lt h next below)) [
    | inl (one, _) ↦ omega arith
    | inr (gone, _) ↦ omega arith
  ]
]

module _ {E : Type 0} where
  unfoldable pub dispatch_all : List StepResult → AsyncEngine E → AsyncEngine E
  dispatch_all [] a = a
  dispatch_all (r ∷ rs) a = dispatch_all rs (dispatch r a)

  end_streams-stream_of :
      (finished : List String) (a : AsyncEngine E) (id : String)
      → names_member id finished ≡ false
      → stream_of id (end_streams finished a).streams ≡ stream_of id a.streams
  unfolding end_streams
  end_streams-stream_of [] a id away = refl
  end_streams-stream_of (key ∷ finished) a id away = elim (Option-cases (stream_of key a.streams)) [
    | inl gone ↦ rw (gone, end_streams) (end_streams-stream_of finished a id (ground arith))
    | inr (k, there) ↦
        rw (there, end_streams)
          (end_streams-stream_of finished _ id (ground arith)
            ∙ stream_of-drop_stream_ne id key a.streams (ground arith))
  ]

  dispatch_going :
      (r : StepResult) (a : AsyncEngine E) (id : String) (h : ℕ)
      → Ledger [] a
      → stream_of id a.streams ≡ some h
      → (a.cells h).loop_closed ≡ false
      → names_member id r.finished ≡ false
      → keyed id r.tokens ≤ 1
      → ((dispatch r a).cells h
          ≡ record (a.cells h) { queue = (a.cells h).queue ++ burst_got (tokens_of id r.tokens) })
        × (stream_of id (dispatch r a).streams ≡ some h)
        × Ledger [] (dispatch r a)
  unfolding dispatch
  dispatch_going r a id h l here there going u =
      let once : count h (handles a.streams) ≤ 1 =
        omega (arith, places_le a.next (places [] a) a.cells h l.books) in
      (
        dispatch_lem r a id h once here u
            ∙ rw (going) (sent_open (tokens_of id r.tokens) (a.cells h) there),
        end_streams-stream_of r.finished _ id going ∙ here,
        (dispatch-Ledger r a l).0,
      )

  dispatch_all_going :
      (rs : List StepResult) (a : AsyncEngine E) (id : String) (h : ℕ)
      → Ledger [] a
      → stream_of id a.streams ≡ some h
      → (a.cells h).loop_closed ≡ false
      → Continuing id rs
      → ((dispatch_all rs a).cells h
          ≡ record (a.cells h) { queue = (a.cells h).queue ++ bursts_in id rs })
        × (stream_of id (dispatch_all rs a).streams ≡ some h)
        × Ledger [] (dispatch_all rs a)
  unfolding dispatch_all
  dispatch_all_going [] a id h l here there going = (
    ap (λ q. let t : Stream = record (a.cells h) { queue = q } in t)
        (sym (append-nil (a.cells h).queue)),
    here,
    l,
  )
  dispatch_all_going (r ∷ rs) a id h l here there ((away, u), going) =
      let (is, here', l') = dispatch_going r a id h l here there away u in
      let (rest, here'', l'') =
        dispatch_all_going rs (dispatch r a) id h l' here'
          (ap (λ (s : Stream). s.loop_closed) is ∙ there) going in
      (
        rest
            ∙ ap (λ s. let t : Stream = record s { queue = s.queue ++ bursts_in id rs } in t) is
            ∙ ap (λ q. let t : Stream = record (a.cells h) { queue = q } in t)
                (append_assoc (a.cells h).queue (burst_got (tokens_of id r.tokens))
                  (bursts_in id rs)),
        here'',
        l'',
      )

  -- An active stream with nothing on its queue yet, whose consumer's event loop is open, gets the
  -- results of consecutive steps, with its tokens at most once in each; the last of them says that
  -- its request is finished, with a token at least, and no other does. Then the consumer yields
  -- exactly the tokens of all these results in their order and stops: no item but the last has a
  -- finish reason, and the last one's is "stop" if its token is an EOS token of the request, and
  -- "length" if not. The account of the streams holds, as in every reachable state.
  pub read_queue-dispatch_all :
      (rs : List StepResult) (r : StepResult) (a : AsyncEngine E) (id : String) (h : ℕ)
      (ts : List ℕ) (t : ℕ) (error : Option Error)
      → Ledger [] a
      → stream_of id a.streams ≡ some h
      → (a.cells h).loop_closed ≡ false
      → (a.cells h).queue ≡ []
      → Continuing id rs
      → keyed id r.tokens ≤ 1
      → names_member id r.finished ≡ true
      → tokens_of id r.tokens ≡ some (ts ++ t ∷ [])
      → read_queue error ((dispatch r (dispatch_all rs a)).cells h).queue ≡ (
        plain (tokens_in id rs ++ ts)
            ++ (record {
              token_id = t;
              finish_reason =
                  some (if member t (a.cells h).eos_token_ids then "stop" else "length");
            })
              ∷ [],
        Ending.complete,
      )
  unfolding last_item
  read_queue-dispatch_all rs r a id h ts t error l here there fresh_queue going u done last =
      let (is, here', l') = dispatch_all_going rs a id h l here there going in
      let s : Stream = record (a.cells h) { queue = (a.cells h).queue ++ bursts_in id rs } in
      let a' = dispatch_all rs a in
      let final_item = last_item (a.cells h) t in
      let once : count h (handles a'.streams) ≤ 1 =
        omega (arith, places_le a'.next (places [] a') a'.cells h l'.books) in
      let told : (dispatch r a').cells h ≡ ended_if true (sent true (some (ts ++ t ∷ [])) s) =
        dispatch_lem r a' id h once here' u
        ∙ ap₂ (λ b o. ended_if b (sent b o (a'.cells h))) done last
        ∙ ap (λ c. ended_if true (sent true (some (ts ++ t ∷ [])) c)) is in
      let queue : ((dispatch r a').cells h).queue
          ≡ bursts_in id rs ++ some (plain ts ++ final_item ∷ []) ∷ none ∷ [] =
        ap (λ (c : Stream). c.queue) told
        ∙ finished_open s ts t there
        ∙ ap (λ q. ((q ++ bursts_in id rs) ++ some (plain ts ++ final_item ∷ []) ∷ []) ++ none ∷ [])
            fresh_queue
        ∙ append_assoc (bursts_in id rs) (some (plain ts ++ final_item ∷ []) ∷ []) (none ∷ []) in
      ap (read_queue error) queue ∙ read_queue_lem error id rs (a.cells h) ts t (none ∷ [])
