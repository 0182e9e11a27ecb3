-- ===== src/Tests/Metering.antt =====
-- Metrics over natural numbers.
use llm_infer.Prelude.{
  ℕ, ◌+◌, ◌≡◌, ◌⊎◌, refl, true, String, List, [], ◌∷◌, leb, arith, bad_config, ok, raise,
}
use llm_infer.Serving.Server.Metrics.{
  Values, Line, Counter, value_of, inc, Histogram, new_histogram, render_histogram,
}
use llm_infer.Serving.Server.Metrics.Buckets.{observe_all, render_histogram-observe}
use llm_infer.Serving.Server.Metrics.Series.{Added, SameNames, inc_all, value_of-inc_all}

abbrev seconds : Values
seconds = record { Value = ℕ; nil = 0; plus = λ a b. a + b; le = leb }

leb_trans : (a b c : ℕ) → leb a b ≡ true → leb b c ≡ true → leb a c ≡ true
leb_trans a b c p q = ground arith

abbrev ttft : Histogram seconds
ttft = record {
  name = "ttft";
  help_text = "Time to the first token.";
  buckets = 5 ∷ 10 ∷ [];
  counts = 0 ∷ 0 ∷ [];
  total_sum = 0;
  total = 0;
}

ttft_made : new_histogram seconds "ttft" "Time to the first token." (5 ∷ 10 ∷ []) ≡ ok ttft tt
unfolding new_histogram
ttft_made = refl

-- Of the three values two are at most ten, and one is above all bounds.
render_histogram-observe_example :
    render_histogram seconds (observe_all seconds (3 ∷ 7 ∷ 20 ∷ []) ttft)
    ≡ Line.help "ttft" "Time to the first token."
      ∷ Line.kind "ttft" "histogram"
      ∷ Line.bucket "ttft" 5 1
      ∷ Line.bucket "ttft" 10 2
      ∷ Line.bucket_inf "ttft" 3
      ∷ Line.sum_of "ttft" 30
      ∷ Line.count_of "ttft" 3
      ∷ []
render_histogram-observe_example =
    render_histogram-observe seconds leb_trans "ttft" "Time to the first token." (5 ∷ 10 ∷ [])
      (3 ∷ 7 ∷ 20 ∷ []) ttft ttft_made

abbrev completions : Counter seconds
completions = record {
  name = "completed";
  help_text = "Requests by finish reason.";
  label_names = "finish_reason" ∷ [];
  values = [];
}

-- The call without the label is refused.
abbrev completed_calls : List (ℕ × List (String × String))
completed_calls =
    (1, ("finish_reason", "stop") ∷ [])
    ∷ (1, ("finish_reason", "length") ∷ [])
    ∷ (1, [])
    ∷ (1, ("finish_reason", "stop") ∷ [])
    ∷ []

two_stops : value_of seconds ("stop" ∷ []) (inc_all seconds completed_calls completions).values ≡ 2
unfolding value_of inc_all inc
two_stops = refl

value_of-inc_all_example :
    ((k : List String)
      → Added seconds
          (value_of seconds k [])
          (value_of seconds k (inc_all seconds completed_calls completions).values)
          ("finish_reason" ∷ [])
          k
          completed_calls)
    × ((amount : ℕ) (labels : List (String × String))
        → ((inc seconds amount labels completions ≡ raise bad_config completions)
            × ¬ SameNames ("finish_reason" ∷ []) labels)
          ⊎ ((c' : Counter seconds) × (inc seconds amount labels completions ≡ ok tt c')
              × SameNames ("finish_reason" ∷ []) labels))
value_of-inc_all_example = value_of-inc_all seconds completed_calls completions
