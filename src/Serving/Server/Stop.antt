-- ===== src/Serving/Server/Stop.antt =====
-- llm_infer/serving/server/stop.py: stop sequences over the text of a stream, which is held back while
-- it may still become one.
pub mod Texts
pub mod Truncation
pub mod Streams
pub mod Emitted
use mathlib.Core.Option
use llm_infer.Prelude.{
  ℕ, zero, suc, ◌-◌, min, Bool, true, false, ◌&&◌, ◌||◌, Option, none, some, List, [], ◌∷◌, ◌++◌,
  ltb, ◌==◌, if◌then◌else◌, length, take, drop,
}
use llm_infer.Serving.Server.Detokenizer.{Detokenizer, fresh_detokenizer, feed_token, flush}

-- `str.startswith` and `str.find`.
abbrev pub starts_with : List ℕ → List ℕ → Bool
starts_with text [] = true
starts_with [] (s ∷ stop) = false
starts_with (c ∷ text) (s ∷ stop) = c == s && starts_with text stop

unfoldable pub find : List ℕ → List ℕ → Option ℕ
find [] stop = if starts_with [] stop then some 0 else none
find (c ∷ text) stop =
    let rest = find text stop in if starts_with (c ∷ text) stop then some 0 else Option.map suc rest

pub record StopFeed : Type 0 where
  pub text : List ℕ
  pub stopped : Bool

pub record Stopper : Type 0 where
  pub stops : List (List ℕ)
  pub detokenizer : Detokenizer
  pub pending : List ℕ
  pub hold_back : ℕ
  pub stopped : Bool

-- The stop strings that are not empty, and the longest one's length.
abbrev pub nonempty : List (List ℕ) → List (List ℕ)
nonempty [] = []
nonempty ([] ∷ stops) = nonempty stops
nonempty ((c ∷ stop) ∷ stops) = (c ∷ stop) ∷ nonempty stops

abbrev pub longest_stop : List (List ℕ) → ℕ
longest_stop [] = 0
longest_stop (stop ∷ stops) =
    if ltb (longest_stop stops) (length stop) then length stop else longest_stop stops

abbrev pub new_stopper : List (List ℕ) → Stopper
new_stopper stop = record {
  stops = nonempty stop;
  detokenizer = fresh_detokenizer;
  pending = [];
  hold_back = longest_stop (nonempty stop);
  stopped = false;
}

-- The loop of `_earliest_stop`, with the least index so far.
abbrev pub earlier : Option ℕ → Option ℕ → Option ℕ
earlier first none = first
earlier none (some index) = some index
earlier (some first) (some index) = if ltb index first then some index else some first

unfoldable pub earliest_stop : List (List ℕ) → List ℕ → Option ℕ → Option ℕ
unfolding find
earliest_stop [] pending first = first
earliest_stop (stop ∷ stops) pending first =
    earliest_stop stops pending (earlier first (find pending stop))

abbrev pub begins_a_stop : List ℕ → List (List ℕ) → Bool
begins_a_stop tail [] = false
begins_a_stop tail (stop ∷ stops) = starts_with stop tail || begins_a_stop tail stops

-- The loop of `_unsafe_tail_len`, from the longest tail.
unfoldable pub unsafe_tail : List (List ℕ) → List ℕ → ℕ → ℕ
unsafe_tail stops pending zero = 0
unsafe_tail stops pending (suc n) =
    let shorter = unsafe_tail stops pending n in
    if begins_a_stop (drop (length pending - suc n) pending) stops then suc n else shorter

abbrev pub unsafe_tail_len : Stopper → ℕ
unsafe_tail_len s = unsafe_tail s.stops s.pending (min (length s.pending) (s.hold_back - 1))

-- `_consume` once the earliest stop is known.
abbrev pub cut_at : Stopper → Option ℕ → StopFeed × Stopper
cut_at s (some cut) = (
  record { text = take cut s.pending; stopped = true },
  record s { pending = []; stopped = true },
)
cut_at s none =
    let safe = length s.pending - unsafe_tail_len s in
    (
      record { text = take safe s.pending; stopped = false },
      record s { pending = drop safe s.pending },
    )

unfoldable pub consume : Stopper → StopFeed × Stopper
unfolding earliest_stop unsafe_tail
consume s =
    if length s.stops == 0
    then (record { text = s.pending; stopped = false }, record s { pending = [] })
    else cut_at s (earliest_stop s.stops s.pending none)

-- `self._pending += delta` and the consumption of it.
unfoldable pub receive : List ℕ → Stopper → StopFeed × Stopper
unfolding consume
receive delta s = consume (record s { pending = s.pending ++ delta })

unfoldable pub feed : (List ℕ → List ℕ) → ℕ → Stopper → StopFeed × Stopper
unfolding receive feed_token
feed decode token_id s =
    let (delta, d) = feed_token decode token_id s.detokenizer in
    if s.stopped
    then (record { text = []; stopped = true }, s)
    else receive delta (record s { detokenizer = d })

unfoldable pub finalize : (List ℕ → List ℕ) → Stopper → List ℕ × Stopper
unfolding flush
finalize decode s =
    let (tail, d) = flush decode s.detokenizer in
    if s.stopped then ([], s) else (s.pending ++ tail, record s { detokenizer = d; pending = [] })
