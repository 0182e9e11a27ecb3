-- ===== src/Tests/Requests.antt =====
-- Requests and the scheduler.
use llm_infer.Prelude.{
  ℕ, ◌+◌, ◌≤◌, ◌≡◌, String, true, false, none, some, List, [], ◌∷◌, arith, refl, length, ok,
}
use llm_infer.Model.Decode.{greedy_decode}
use llm_infer.Serving.Request.{Request, init}
use llm_infer.Serving.Request.Recording.{served, served-greedy_decode}
use llm_infer.Scheduler.{Scheduler, remove, pop, release, admit_from, admit}
use llm_infer.Scheduler.Admission.{Reserves, admit_reserve, admit_progress}
use llm_infer.Scheduler.Books.{Balanced, release-Balanced, admit_from-Balanced}

abbrev queued : String → Request
queued id = record {
  request_id = id;
  prompt_ids = 1 ∷ 2 ∷ 3 ∷ [];
  max_new_tokens = 2;
  eos_token_ids = 0 ∷ [];
  prefix_group_id = none;
  block_table = none;
  prompt_cached_tokens = 0;
  prefilled = false;
  finished = false;
  generated = [];
}

-- Each request may come to hold two blocks of size 2, and there are three.
abbrev waiting_two : Scheduler
waiting_two = record {
  num_blocks = 3;
  block_size = 2;
  preemption = false;
  waiting = queued "a" ∷ queued "b" ∷ [];
  running = [];
  committed_blocks = 0;
  committed_by_request = [];
}

abbrev running_one : Scheduler
running_one = record {
  num_blocks = 3;
  block_size = 2;
  preemption = false;
  waiting = queued "b" ∷ [];
  running = queued "a" ∷ [];
  committed_blocks = 2;
  committed_by_request = ("a", 2) ∷ [];
}

running_one-Balanced : Balanced running_one
running_one-Balanced = record { charged = refl; keyed = refl }

admit_reserve_example :
    (s' : Scheduler) × (admitted : List Request) × (admit none waiting_two ≡ ok admitted s')
    × Reserves waiting_two s' admitted
admit_reserve_example = admit_reserve waiting_two refl

admit_progress_example :
    (s' : Scheduler) × (more : List Request) × (admit none waiting_two ≡ ok (queued "a" ∷ more) s')
admit_progress_example =
    admit_progress waiting_two (queued "a") (queued "b" ∷ []) refl refl refl (omega arith)

release-Balanced_example :
    (s' : Scheduler) × (budget : ℕ) × (release (queued "a") running_one ≡ ok tt s')
    × Balanced s'
    × (remove "a" running_one.running ≡ some s'.running)
    × (pop "a" running_one.committed_by_request ≡ some (budget, s'.committed_by_request))
    × (s'.committed_blocks + budget ≡ 2)
    × (s'.waiting ≡ queued "b" ∷ [])
release-Balanced_example = release-Balanced running_one (queued "a") running_one-Balanced refl

admit_from-Balanced_example : Balanced ((admit_from (queued "b" ∷ []) 0 running_one).0)
admit_from-Balanced_example =
    admit_from-Balanced (queued "b" ∷ []) 0 running_one running_one-Balanced (refl, (refl, tt))

-- The next token is the length of the sequence: 3, then 4, which ends the text.
served-greedy_decode_example :
    (r : Request) × (init "a" (1 ∷ 2 ∷ 3 ∷ []) 5 (4 ∷ []) none ≡ ok r tt)
    × (greedy_decode length (1 ∷ 2 ∷ 3 ∷ []) 5 (4 ∷ []) ≡ ok (served length 5 r).generated tt)
    × ((served length 5 r).finished ≡ true)
    × (length (served length 5 r).generated ≤ 5)
served-greedy_decode_example =
    served-greedy_decode length "a" (1 ∷ 2 ∷ 3 ∷ []) 5 (4 ∷ []) none (omega arith) (omega arith)
