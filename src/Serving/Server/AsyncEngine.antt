-- ===== src/Serving/Server/AsyncEngine.antt =====
-- llm_infer/serving/server/async_engine.py: the loop thread drives the engine, and handlers submit
-- requests and read their streams. The engine is any that has the operations of `EngineOps`. A
-- stream object has an index, its handle, under which `cells` holds it; requests, dictionaries and
-- lists refer to it by that. Metrics and the observer are not in the model of this file.
pub mod Streams
pub mod Entries
pub mod Loops
pub mod Reachable
pub mod Submitting
pub mod Fates
pub mod Rounds
pub mod Stranding
pub mod Delivery
pub mod Consumers
pub mod Runs
pub mod Admissible
use text.Mathlib.Text.{◌==◌ as str_eq}
use llm_infer.Prelude.{
  ℕ, suc, ◌+◌, ◌-◌, String, Bool, true, false, ◌&&◌, Option, none, some, List, [], ◌∷◌, ◌++◌, ltb,
  ◌==◌, if◌then◌else◌, length, member, bad_state, too_large, Error, Outcome, ok, raise,
}
use llm_infer.Serving.Request.{Request}
use llm_infer.Serving.Engine.{names_member}
use llm_infer.Serving.Engine.Results.{StepResult}
use llm_infer.Scheduler.{Scheduler, blocks_for_length}

pub record EngineOps : Type 1 where
  pub State : Type 0
  pub add_request : Request → State → Outcome State (Unit {0})
  pub abort : String → State → Outcome State Bool
  pub step : State → Outcome State StepResult
  pub has_work : State → Bool

pub record TokenStreamItem : Type 0 where
  pub token_id : ℕ
  pub finish_reason : Option String

-- `queue` holds all that was put on it, in order, what the consumer took included; `none` is the end
-- of the stream. `loop_closed` is the answer of the consumer's event loop.
pub record Stream : Type 0 where
  pub request_id : String
  pub queue : List (Option (List TokenStreamItem))
  pub loop_closed : Bool
  pub aborted : Bool
  pub eos_token_ids : List ℕ
  pub error : Option Error

pub record AsyncEngine (E : Type 0) : Type 0 where
  pub engine : E
  pub submissions : List (Request × ℕ)
  pub streams : List (String × ℕ)
  pub cells : ℕ → Stream
  pub next : ℕ
  pub fatal : Option Error

abbrev pub update : ℕ → Stream → (ℕ → Stream) → ℕ → Stream
update h s cells k = if h == k then s else cells k

-- `_enqueue`
abbrev pub put_item : Option (List TokenStreamItem) → Stream → Stream
put_item item s = if s.loop_closed then s else record s { queue = s.queue ++ item ∷ [] }

abbrev pub enqueue : ℕ → Option (List TokenStreamItem) → (ℕ → Stream) → ℕ → Stream
enqueue h item cells = update h (put_item item (cells h)) cells

-- `stream.error = exc`, and the end of the stream.
abbrev pub failed : Error → Stream → Stream
failed err s = put_item none (record s { error = some err })

abbrev pub fail : ℕ → Error → (ℕ → Stream) → ℕ → Stream
fail h err cells = update h (failed err (cells h)) cells

-- `self._streams.get(id)`, `self._streams[id] = stream` and `self._streams.pop(id, None)`.
unfoldable pub stream_of : String → List (String × ℕ) → Option ℕ
stream_of id [] = none
stream_of id ((key, h) ∷ streams) = if str_eq key id then some h else stream_of id streams

unfoldable pub put_stream : String → ℕ → List (String × ℕ) → List (String × ℕ)
put_stream id h [] = (id, h) ∷ []
put_stream id h ((key, k) ∷ streams) =
    if str_eq key id then (key, h) ∷ streams else (key, k) ∷ put_stream id h streams

unfoldable pub drop_stream : String → List (String × ℕ) → List (String × ℕ)
drop_stream id [] = []
drop_stream id ((key, k) ∷ streams) =
    if str_eq key id then streams else (key, k) ∷ drop_stream id streams

-- The loops of `_fail_all`, over streams and over submissions.
unfoldable pub fail_each {ℓ} : {K : Type ℓ} → Error → List (K × ℕ) → (ℕ → Stream) → ℕ → Stream
fail_each err [] cells = cells
fail_each err ((key, h) ∷ rest) cells = fail_each err rest (fail h err cells)

abbrev pub finish_reason_of : Stream → ℕ → String
finish_reason_of s token_id = if member token_id s.eos_token_ids then "stop" else "length"

-- The burst of one request: the reason stands at the last token of a finished one.
unfoldable pub burst_of : Stream → Bool → List ℕ → List TokenStreamItem
burst_of s finished [] = []
burst_of s finished (t ∷ ts) =
    (record {
      token_id = t;
      finish_reason = if finished && (length ts == 0) then some (finish_reason_of s t) else none;
    })
    ∷ burst_of s finished ts

-- The loop of `_dispatch` over the tokens.
unfoldable pub send_bursts :
    List String → List (String × List ℕ) → List (String × ℕ) → (ℕ → Stream) → ℕ → Stream
unfolding stream_of burst_of
send_bursts finished [] streams cells = cells
send_bursts finished ((id, ts) ∷ tokens) streams cells = elim (stream_of id streams) [
  | none ↦ send_bursts finished tokens streams cells
  | some h ↦
      send_bursts finished tokens streams
        (enqueue h (some (burst_of (cells h) (names_member id finished) ts)) cells)
]

abbrev pub new_stream : Request → Stream
new_stream r = record {
  request_id = r.request_id;
  queue = [];
  loop_closed = false;
  aborted = false;
  eos_token_ids = r.eos_token_ids;
  error = none;
}

module _ {E : Type 0} where
  -- The loop of `_dispatch` over the finished requests.
  unfoldable pub end_streams : List String → AsyncEngine E → AsyncEngine E
  unfolding stream_of drop_stream
  end_streams [] a = a
  end_streams (id ∷ finished) a = elim (stream_of id a.streams) [
    | none ↦ end_streams finished a
    | some h ↦
        end_streams finished
          (record a { streams = drop_stream id a.streams; cells = enqueue h none a.cells })
  ]

  unfoldable pub dispatch : StepResult → AsyncEngine E → AsyncEngine E
  unfolding send_bursts end_streams
  dispatch result a =
      end_streams result.finished
        (record a { cells = send_bursts result.finished result.tokens a.streams a.cells })

  unfoldable pub fail_all : Error → AsyncEngine E → AsyncEngine E
  unfolding fail_each
  fail_all err a = record a {
    streams = [];
    fatal = some err;
    submissions = [];
    cells = fail_each err a.submissions (fail_each err a.streams a.cells);
  }

  -- The start of `stream`: the handle of the submitted stream.
  unfoldable pub submit : Request → AsyncEngine E → Outcome (AsyncEngine E) ℕ
  submit r a = elim a.fatal [
    | some err ↦ raise bad_state a
    | none ↦ ok a.next (record a {
      submissions = a.submissions ++ (r, a.next) ∷ [];
      cells = update a.next (new_stream r) a.cells;
      next = suc a.next;
    })
  ]

  -- The `finally` of `stream`.
  unfoldable pub cancel : ℕ → AsyncEngine E → AsyncEngine E
  cancel h a = record a { cells = update h (record (a.cells h) { aborted = true }) a.cells }

-- `assert_admissible`
unfoldable pub assert_admissible : ℕ → ℕ → Scheduler → Outcome Scheduler (Unit {0})
assert_admissible prompt_len max_new_tokens s =
    if ltb s.num_blocks (blocks_for_length (prompt_len + max_new_tokens - 1) s.block_size)
    then raise too_large s
    else ok tt s

module _ (o : EngineOps) where
  open o use {State, add_request, abort, step, has_work}

  -- The loop of `_drain_submissions`.
  unfoldable pub drain_from : List (Request × ℕ) → AsyncEngine State → AsyncEngine State
  unfolding put_stream
  drain_from [] a = a
  drain_from ((r, h) ∷ pending) a = elim (add_request r a.engine) [
    | ok _ e ↦
        drain_from pending (record a { engine = e; streams = put_stream r.request_id h a.streams })
    | raise err e ↦ drain_from pending (record a { engine = e; cells = fail h err a.cells })
  ]

  unfoldable pub drain_submissions : AsyncEngine State → AsyncEngine State
  unfolding drain_from
  drain_submissions a = drain_from a.submissions (record a { submissions = [] })

  -- The loop of `_apply_aborts`, over a copy of the items.
  unfoldable pub abort_from :
      List (String × ℕ) → AsyncEngine State → Outcome (AsyncEngine State) (Unit {0})
  unfolding drop_stream
  abort_from [] a = ok tt a
  abort_from ((id, h) ∷ items) a = elim (a.cells h).aborted [
    | false ↦ abort_from items a
    | true ↦ elim (abort id a.engine) [
      | raise err e ↦ raise err (record a { engine = e })
      | ok _ e ↦ abort_from items (record a {
        engine = e;
        cells = enqueue h none a.cells;
        streams = drop_stream id a.streams;
      })
    ]
  ]

  unfoldable pub apply_aborts : AsyncEngine State → Outcome (AsyncEngine State) (Unit {0})
  unfolding abort_from
  apply_aborts a = abort_from a.streams a

  -- The end of a round: without work the loop waits.
  unfoldable pub serve : AsyncEngine State → Outcome (AsyncEngine State) (Unit {0})
  unfolding dispatch
  serve a = elim (has_work a.engine) [
    | false ↦ ok tt a
    | true ↦ elim (step a.engine) [
      | ok result e ↦ ok tt (dispatch result (record a { engine = e }))
      | raise err e ↦ raise err (record a { engine = e })
    ]
  ]

  -- What the `except` of `_run_loop` makes of a raise.
  unfoldable pub contained : Outcome (AsyncEngine State) (Unit {0}) → AsyncEngine State
  unfolding fail_all
  contained (ok _ a) = a
  contained (raise err a) = fail_all err a

  abbrev pub then_serve :
      Outcome (AsyncEngine State) (Unit {0}) → Outcome (AsyncEngine State) (Unit {0})
  then_serve (ok _ a) = serve a
  then_serve (raise err a) = raise err a

  -- A round of `_run_loop`.
  unfoldable pub run_round : AsyncEngine State → AsyncEngine State
  unfolding drain_submissions apply_aborts serve contained
  run_round a = contained (then_serve (apply_aborts (drain_submissions a)))
