-- ===== src/Serving/Server/AsyncEngine/Delivery.antt =====
-- What `_dispatch` puts on the queue of one stream.
use text.Mathlib.Text.{◌==◌ as str_eq}
use text.Mathlib.TextEquality.{eq_iff}
use llm_infer.Prelude.{
  ℕ, ◌+◌, ◌≤◌, ◌≡◌, refl, ap, sym, subst, ◌∙◌, inl, inr, String, Bool, false, Bool-cases,
  Option-cases, Option, none, some, List, [], ◌∷◌, arith, tally, count, ◌==◌, if◌then◌else◌,
}
use llm_infer.Serving.Engine.{names_member}
use llm_infer.Serving.Engine.Results.{StepResult}
use llm_infer.Serving.Server.AsyncEngine.{
  Stream, AsyncEngine, put_item, enqueue, stream_of, drop_stream, burst_of, send_bursts,
  end_streams, dispatch,
}
use llm_infer.Serving.Server.AsyncEngine.Streams.{update_self, update_ne}
use llm_infer.Serving.Server.AsyncEngine.Entries.{handles, drop_stream-Dropped, count_self}

-- `result.tokens.get(id)`, and how often a dictionary has a key.
abbrev pub tokens_of : String → List (String × List ℕ) → Option (List ℕ)
tokens_of id [] = none
tokens_of id ((key, ts) ∷ tokens) = if str_eq key id then some ts else tokens_of id tokens

abbrev pub keyed : String → List (String × List ℕ) → ℕ
keyed id [] = 0
keyed id ((key, ts) ∷ tokens) = tally (str_eq key id) + keyed id tokens

-- One stream with a burst, if there are tokens for it, and with its end, if it is finished.
abbrev pub sent : Bool → Option (List ℕ) → Stream → Stream
sent finished none s = s
sent finished (some ts) s = put_item (some (burst_of s finished ts)) s

abbrev pub ended_if : Bool → Stream → Stream
ended_if finished s = if finished then put_item none s else s

stream_of-count :
    (id : String) (h : ℕ) (streams : List (String × ℕ))
    → stream_of id streams ≡ some h
    → 1 ≤ count h (handles streams)
stream_of-count id h streams here =
    let d = drop_stream-Dropped id h streams here in omega (arith, d.places h, count_self h)

-- No two names refer to one stream.
one_name :
    (x y : String) (h : ℕ) (streams : List (String × ℕ))
    → count h (handles streams) ≤ 1
    → stream_of x streams ≡ some h
    → stream_of y streams ≡ some h
    → x ≡ y
unfolding stream_of
one_name x y h [] once p q = absurd (cc)
one_name x y h ((key, k) ∷ streams) once p q = ground (
  arith,
  eq_iff key x,
  eq_iff key y,
  stream_of-count x h streams,
  stream_of-count y h streams,
  one_name x y h streams,
)

other_stream :
    (id key : String) (h : ℕ) (streams : List (String × ℕ)) (k : ℕ)
    → count h (handles streams) ≤ 1
    → stream_of id streams ≡ some h
    → stream_of key streams ≡ some k
    → str_eq key id ≡ false
    → (k == h) ≡ false
other_stream id key h streams k once here there ne = elim (Bool-cases (k == h)) [
  | inr other ↦ other
  | inl same ↦
      let is : k ≡ h = ground arith in
      let names_same : key ≡ id =
        one_name key id h streams once (there ∙ ap (λ (j : ℕ). some j) is) here in
      absurd (ground (arith, eq_iff key id))
]

send_bursts_none :
    (finished : List String) (tokens : List (String × List ℕ)) (streams : List (String × ℕ))
    (id : String) (h : ℕ) (cells : ℕ → Stream)
    → count h (handles streams) ≤ 1
    → stream_of id streams ≡ some h
    → keyed id tokens ≡ 0
    → send_bursts finished tokens streams cells h ≡ cells h
unfolding send_bursts
send_bursts_none finished [] streams id h cells once here z = refl
send_bursts_none finished ((key, ts) ∷ tokens) streams id h cells once here z =
    let ne : str_eq key id ≡ false = ground arith in
    elim (Option-cases (stream_of key streams)) [
      | inl gone ↦
          rw (gone, send_bursts)
            (send_bursts_none finished tokens streams id h cells once here (ground arith))
      | inr (k, there) ↦
          rw (there, send_bursts)
            (send_bursts_none finished tokens streams id h _ once here (ground arith)
              ∙ update_ne k h _ cells (other_stream id key h streams k once here there ne))
    ]

send_bursts_lem :
    (finished : List String) (tokens : List (String × List ℕ)) (streams : List (String × ℕ))
    (id : String) (h : ℕ) (cells : ℕ → Stream)
    → count h (handles streams) ≤ 1
    → stream_of id streams ≡ some h
    → keyed id tokens ≤ 1
    → send_bursts finished tokens streams cells h
      ≡ sent (names_member id finished) (tokens_of id tokens) (cells h)
unfolding send_bursts
send_bursts_lem finished [] streams id h cells once here u = refl
send_bursts_lem finished ((key, ts) ∷ tokens) streams id h cells once here u =
    elim (Bool-cases (str_eq key id)) [
      | inl same ↦
          let is : id ≡ key = sym ((eq_iff key id).0 same) in
          let there : stream_of key streams ≡ some h =
            subst (λ x. stream_of x streams ≡ some h) is here in
          rw (same) (
            rw (there, send_bursts)
              (send_bursts_none finished tokens streams id h _ once here (ground arith)
                ∙ update_self h _ cells
                ∙ ap
                    (λ x.
                      put_item (some (burst_of (cells h) (names_member x finished) ts)) (cells h))
                    (sym is)))
      | inr ne ↦ rw (ne) (elim (Option-cases (stream_of key streams)) [
        | inl gone ↦
            rw (gone, send_bursts)
              (send_bursts_lem finished tokens streams id h cells once here (ground arith))
        | inr (k, there) ↦
            rw (there, send_bursts)
              (send_bursts_lem finished tokens streams id h _ once here (ground arith)
                ∙ ap (sent (names_member id finished) (tokens_of id tokens))
                    (update_ne k h _ cells (other_stream id key h streams k once here there ne)))
      ])
    ]

pub stream_of-drop_stream_ne :
    (id key : String) (streams : List (String × ℕ))
    → str_eq key id ≡ false
    → stream_of id (drop_stream key streams) ≡ stream_of id streams
unfolding stream_of drop_stream
stream_of-drop_stream_ne id key [] ne = refl
stream_of-drop_stream_ne id key ((x, k) ∷ streams) ne =
    ground
      (arith, eq_iff x key, eq_iff x id, eq_iff key id, stream_of-drop_stream_ne id key streams)

module _ {E : Type 0} where
  end_streams_gone :
      (finished : List String) (a : AsyncEngine E) (h : ℕ)
      → count h (handles a.streams) ≡ 0
      → (end_streams finished a).cells h ≡ a.cells h
  unfolding end_streams
  end_streams_gone [] a h z = refl
  end_streams_gone (key ∷ finished) a h z = elim (Option-cases (stream_of key a.streams)) [
    | inl gone ↦ rw (gone, end_streams) (end_streams_gone finished a h z)
    | inr (k, there) ↦
        let d = drop_stream-Dropped key k a.streams there in
        let other : (k == h) ≡ false = ground (arith, d.places h) in
        rw (there, end_streams)
          (end_streams_gone finished _ h (omega (arith, d.places h))
            ∙ update_ne k h _ a.cells other)
  ]

  end_streams_lem :
      (finished : List String) (a : AsyncEngine E) (id : String) (h : ℕ)
      → count h (handles a.streams) ≤ 1
      → stream_of id a.streams ≡ some h
      → (end_streams finished a).cells h ≡ ended_if (names_member id finished) (a.cells h)
  unfolding end_streams
  end_streams_lem [] a id h once here = refl
  end_streams_lem (key ∷ finished) a id h once here = elim (Bool-cases (str_eq key id)) [
    | inl same ↦
        let is : id ≡ key = sym ((eq_iff key id).0 same) in
        let there : stream_of key a.streams ≡ some h =
          subst (λ x. stream_of x a.streams ≡ some h) is here in
        let d = drop_stream-Dropped key h a.streams there in
        rw (same) (
          rw (there, end_streams)
            (end_streams_gone finished _ h (omega (arith, d.places h, count_self h))
              ∙ update_self h _ a.cells))
    | inr ne ↦ rw (ne) (elim (Option-cases (stream_of key a.streams)) [
      | inl gone ↦ rw (gone, end_streams) (end_streams_lem finished a id h once here)
      | inr (k, there) ↦
          let d = drop_stream-Dropped key k a.streams there in
          let other = other_stream id key h a.streams k once here there ne in
          rw (there, end_streams)
            (end_streams_lem finished
                (record a { streams = drop_stream key a.streams; cells = enqueue k none a.cells })
                id h (omega (arith, d.places h))
                (stream_of-drop_stream_ne id key a.streams ne ∙ here)
              ∙ ap (ended_if (names_member id finished)) (update_ne k h _ a.cells other))
    ])
  ]

  pub dispatch_lem :
      (result : StepResult) (a : AsyncEngine E) (id : String) (h : ℕ)
      → count h (handles a.streams) ≤ 1
      → stream_of id a.streams ≡ some h
      → keyed id result.tokens ≤ 1
      → (dispatch result a).cells h
        ≡ ended_if
            (names_member id result.finished)
            (sent (names_member id result.finished) (tokens_of id result.tokens) (a.cells h))
  unfolding dispatch
  dispatch_lem result a id h once here u =
      end_streams_lem result.finished
        (record a { cells = send_bursts result.finished result.tokens a.streams a.cells }) id h once
        here
      ∙ ap (ended_if (names_member id result.finished))
          (send_bursts_lem result.finished result.tokens a.streams id h a.cells once here u)
