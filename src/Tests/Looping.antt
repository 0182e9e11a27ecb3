-- ===== src/Tests/Looping.antt =====
-- The loop thread on an engine that accepts all requests, and on one with a deferred window.
use llm_infer.Prelude.{
  ℕ, suc, ◌≡◌, refl, String, true, false, none, some, List, [], ◌∷◌, ◌++◌, arith, member,
  if◌then◌else◌, ◌==◌, Outcome, ok, raise, too_large, final, ◌⊎◌,
}
use llm_infer.Serving.Request.{Request}
use llm_infer.Serving.Engine.Results.{StepResult, no_result}
use llm_infer.Serving.Engine.Session.{Session, has_work}
use llm_infer.Serving.Windows.{Windows, drain_decode_window}
use llm_infer.Scheduler.{Scheduler, add}
use llm_infer.Serving.Server.AsyncEngine.{
  EngineOps, Stream, AsyncEngine, TokenStreamItem, dispatch, submit, drain_submissions, new_stream,
  assert_admissible,
}
use llm_infer.Serving.Server.AsyncEngine.Reachable.{Reach, here, later, submits, drains}
use llm_infer.Serving.Server.AsyncEngine.Fates.{
  started, started-Accounted, Reach-Accounted, Fate, Reach-Fate,
}
use llm_infer.Serving.Server.AsyncEngine.Admissible.{assert_admissible-add}
use llm_infer.Serving.Server.AsyncEngine.Rounds.{rounds}
use llm_infer.Serving.Server.AsyncEngine.Stranding.{session_ops, rounds-stranded}
use llm_infer.Serving.Server.AsyncEngine.Consumers.{Ending, read_queue, plain}
use llm_infer.Serving.Server.AsyncEngine.Runs.{dispatch_all, read_queue-dispatch_all}
use llm_infer.Tests.Speculating.{counting}

abbrev accept_all : EngineOps
accept_all = record {
  State = ℕ;
  add_request = λ r n. ok tt (suc n);
  abort = λ id n. ok true n;
  step = λ n. ok no_result n;
  has_work = λ n. true;
}

abbrev empty_stream : Stream
empty_stream = new_stream counting

abbrev idle_loop : AsyncEngine ℕ
idle_loop = started accept_all 0 (λ _. empty_stream)

abbrev after_submit : AsyncEngine ℕ
after_submit = final (submit counting idle_loop)

abbrev after_drain : AsyncEngine ℕ
after_drain = drain_submissions accept_all after_submit

submitted_once : submit counting idle_loop ≡ ok 0 after_submit
unfolding submit
submitted_once = refl

path : Reach accept_all idle_loop after_drain
unfolding submit
path = later (later here (submits counting refl submitted_once)) (drains refl)

Reach-Fate_example : Fate accept_all after_drain 0
unfolding submit drain_submissions
Reach-Fate_example = Reach-Fate accept_all 0 (λ _. empty_stream) after_drain 0 path (omega arith)

abbrev result : List ℕ → List String → StepResult
result ts finished = record no_result {
  tokens = (counting.request_id, ts) ∷ [];
  finished = finished;
}

read_queue-dispatch_all_example :
    read_queue none
      ((dispatch
          (result (4 ∷ 5 ∷ []) (counting.request_id ∷ []))
          (dispatch_all (result (1 ∷ 2 ∷ []) [] ∷ result (3 ∷ []) [] ∷ []) after_drain)).cells
        0).queue
    ≡ (
      plain (1 ∷ 2 ∷ 3 ∷ 4 ∷ [])
          ++ (record {
            token_id = 5;
            finish_reason = some (if member 5 counting.eos_token_ids then "stop" else "length");
          })
            ∷ [],
      Ending.complete,
    )
unfolding submit drain_submissions llm_infer.Serving.Server.AsyncEngine.stream_of
read_queue-dispatch_all_example =
    read_queue-dispatch_all (result (1 ∷ 2 ∷ []) [] ∷ result (3 ∷ []) [] ∷ [])
      (result (4 ∷ 5 ∷ []) (counting.request_id ∷ [])) after_drain counting.request_id 0 (4 ∷ []) 5
      none
      (Reach-Accounted accept_all (started-Accounted accept_all 0 (λ _. empty_stream)) path).ledger
      refl refl refl ((refl, omega arith), ((refl, omega arith), tt)) (omega arith) refl refl

-- Request "b" has its EOS token in the staged window when the consumer of "a" goes.
abbrev second_counting : Request
second_counting = record counting { request_id = "b" }

abbrev staged_end : Session
staged_end = record {
  windows = record {
    requests = counting ∷ second_counting ∷ [];
    running = "a" ∷ "b" ∷ [];
    finished_outputs = [];
    decode_window = none;
    pending_flush = some (record { request_ids = "a" ∷ "b" ∷ []; matrix = (4 ∷ 0 ∷ []) ∷ [] });
  };
  waiting = [];
  registered = "a" ∷ "b" ∷ [];
  stashed_flush = none;
}

abbrev left_open : AsyncEngine Session
left_open = record {
  engine = staged_end;
  submissions = [];
  streams = ("a", 0) ∷ ("b", 1) ∷ [];
  cells = λ h. if h == 0 then record empty_stream { aborted = true } else empty_stream;
  next = 2;
  fatal = none;
}

abbrev drained_windows : Windows
drained_windows = final (drain_decode_window staged_end.windows)

drained_once : drain_decode_window staged_end.windows ≡ ok tt drained_windows
unfolding drain_decode_window
drained_once = refl

last_running : drained_windows.running ≡ "a" ∷ []
unfolding drain_decode_window
last_running = refl

abbrev accepting : Request → Session → Outcome Session (Unit {0})
accepting r s = ok tt s

abbrev stepping : Session → Outcome Session StepResult
stepping s = ok no_result s

rounds-stranded_example :
    (b : AsyncEngine Session) × (rounds (session_ops accepting stepping) 10 left_open ≡ b)
    × (b.engine.stashed_flush ≡ some drained_windows.finished_outputs)
    × (has_work b.engine ≡ false)
    × (b.streams ≡ ("b", 1) ∷ [])
    × ((b.cells 1 ≡ empty_stream) × Unit {0})
unfolding drain_decode_window
rounds-stranded_example =
    rounds-stranded accepting stepping 9 "a" 0 (("b", 1) ∷ []) left_open drained_windows refl refl
      refl ((refl, refl), tt) refl drained_once last_running refl refl

abbrev small_scheduler : Scheduler
small_scheduler = record {
  num_blocks = 3;
  block_size = 2;
  preemption = false;
  waiting = [];
  running = [];
  committed_blocks = 0;
  committed_by_request = [];
}

assert_admissible-add_example :
    ((assert_admissible 3 9 small_scheduler ≡ raise too_large small_scheduler)
      × (add counting small_scheduler ≡ raise too_large small_scheduler))
    ⊎ ((assert_admissible 3 9 small_scheduler ≡ ok tt small_scheduler)
        × (add counting small_scheduler
            ≡ ok tt (record small_scheduler { waiting = counting ∷ [] })))
assert_admissible-add_example = assert_admissible-add counting small_scheduler
