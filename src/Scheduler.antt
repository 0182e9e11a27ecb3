-- ===== src/Scheduler.antt =====
-- llm_infer/scheduler/scheduler.py: admission within a block budget. A request is told apart from
-- others by its id, which the engine keeps unique; the blocks are counted, not allocated.
pub mod Admission
pub mod Books
pub mod Victims
use mathlib.Core.Option
use text.Mathlib.Text.{◌==◌ as str_eq}
use llm_infer.Prelude.{
  ℕ, ◌+◌, ◌-◌, String, Bool, true, false, not, ◌&&◌, Option, none, some, List, [], ◌∷◌, ◌++◌, ltb,
  if◌then◌else◌, length, bad_config, too_large, not_running, no_budget, missing_free_count, Outcome,
  ok, raise,
}
use llm_infer.KvCache.BlockTable.{ceil_div}
use llm_infer.Serving.Request.{Request}

abbrev pub blocks_for_length : ℕ → ℕ → ℕ
blocks_for_length positions block_size = ceil_div positions block_size

abbrev pub max_blocks_for : ℕ → Request → ℕ
max_blocks_for block_size r =
    blocks_for_length (length r.prompt_ids + r.max_new_tokens - 1) block_size

abbrev pub blocks_for_footprint : ℕ → Request → ℕ
blocks_for_footprint block_size r =
    blocks_for_length (length r.prompt_ids + length r.generated) block_size

-- `_committed_by_request` is a dictionary in insertion order.
pub record Scheduler : Type 0 where
  pub num_blocks : ℕ
  pub block_size : ℕ
  pub preemption : Bool
  pub waiting : List Request
  pub running : List Request
  pub committed_blocks : ℕ
  pub committed_by_request : List (String × ℕ)

unfoldable pub init : ℕ → ℕ → Bool → Outcome (Unit {0}) Scheduler
init num_blocks block_size preemption =
    if ltb num_blocks 1
    then raise bad_config tt
    else if ltb block_size 1
    then raise bad_config tt
    else ok
        (record {
          num_blocks = num_blocks;
          block_size = block_size;
          preemption = preemption;
          waiting = [];
          running = [];
          committed_blocks = 0;
          committed_by_request = [];
        })
        tt

unfoldable pub add : Request → Scheduler → Outcome Scheduler (Unit {0})
add r s =
    if ltb s.num_blocks (max_blocks_for s.block_size r)
    then raise too_large s
    else ok tt (record s { waiting = s.waiting ++ r ∷ [] })

-- `list.remove`: `none` is the ValueError of an element that is not there.
unfoldable pub remove : String → List Request → Option (List Request)
remove id [] = none
remove id (r ∷ rs) =
    if str_eq r.request_id id then some rs else Option.map (λ rest. r ∷ rest) (remove id rs)

-- `dict.__setitem__`
unfoldable pub put : String → ℕ → List (String × ℕ) → List (String × ℕ)
put id n [] = (id, n) ∷ []
put id n ((key, m) ∷ d) = if str_eq key id then (key, n) ∷ d else (key, m) ∷ put id n d

-- `dict.pop(id, None)`: the value and what is left.
unfoldable pub pop : String → List (String × ℕ) → Option (ℕ × List (String × ℕ))
pop id [] = none
pop id ((key, m) ∷ d) =
    if str_eq key id then some (m, d) else Option.map (λ (n, rest). (n, (key, m) ∷ rest)) (pop id d)

-- `self.committed_blocks -= self._pop_committed_budget(request)`
unfoldable pub uncommit : Request → Scheduler → Outcome Scheduler (Unit {0})
unfolding pop
uncommit r s = elim (pop r.request_id s.committed_by_request) [
  | none ↦ raise no_budget s
  | some (budget, d) ↦
      ok tt (record s { committed_blocks = s.committed_blocks - budget; committed_by_request = d })
]

unfoldable pub release : Request → Scheduler → Outcome Scheduler (Unit {0})
unfolding uncommit remove
release r s = elim (remove r.request_id s.running) [
  | none ↦ raise not_running s
  | some running ↦ uncommit r (record s { running = running })
]

-- A preempted request goes to the front of the queue.
unfoldable pub requeue : Request → Scheduler → Outcome Scheduler (Unit {0})
unfolding release
requeue r s = elim (release r s) [
  | ok _ s' ↦ ok tt (record s' { waiting = r ∷ s'.waiting })
  | raise e s' ↦ raise e s'
]

-- The end of a round of `admit`.
unfoldable pub commit : Request → ℕ → Scheduler → Scheduler
unfolding put
commit r need s = record s {
  running = s.running ++ r ∷ [];
  committed_blocks = s.committed_blocks + need;
  committed_by_request = put r.request_id need s.committed_by_request;
}

-- What a request needs, and whether that fits.
abbrev pub need_of : Scheduler → Request → ℕ
need_of s r =
    if s.preemption then blocks_for_footprint s.block_size r else max_blocks_for s.block_size r

abbrev pub fits : Scheduler → ℕ → ℕ → Bool
fits s remaining_free need =
    if s.preemption
    then not (ltb remaining_free need)
    else not (ltb s.num_blocks (s.committed_blocks + need))

-- The loop of `admit` over the queue, with the blocks that are still free.
unfoldable pub admit_from : List Request → ℕ → Scheduler → Scheduler × List Request
unfolding commit
admit_from [] remaining_free s = (record s { waiting = [] }, [])
admit_from (r ∷ waiting) remaining_free s = elim (fits s remaining_free (need_of s r)) [
  | false ↦ (record s { waiting = r ∷ waiting }, [])
  | true ↦
      let (s', admitted) =
        admit_from waiting (remaining_free - need_of s r) (commit r (need_of s r) s) in
      (s', r ∷ admitted)
]

abbrev pub admitted : Scheduler × List Request → Outcome Scheduler (List Request)
admitted (s, rs) = ok rs s

unfoldable pub admit : Option ℕ → Scheduler → Outcome Scheduler (List Request)
unfolding admit_from
admit none s =
    if s.preemption then raise missing_free_count s else admitted (admit_from s.waiting 0 s)
admit (some free_blocks) s = admitted (admit_from s.waiting free_blocks s)

-- `request is not exclude and not request.finished`
abbrev pub eligible : Option String → Request → Bool
eligible none r = not r.finished
eligible (some id) r = not (str_eq r.request_id id) && not r.finished

-- The loop over `reversed(self.running)`: the last eligible request.
unfoldable pub last_eligible : Option String → List Request → Option Request
last_eligible exclude [] = none
last_eligible exclude (r ∷ rs) = elim (last_eligible exclude rs) [
  | some v ↦ some v
  | none ↦ if eligible exclude r then some r else none
]

abbrev pub preemption_victim : Option String → Scheduler → Option Request
preemption_victim exclude s = last_eligible exclude s.running

abbrev pub has_work : Scheduler → Bool
has_work s = ltb 0 (length s.waiting + length s.running)
