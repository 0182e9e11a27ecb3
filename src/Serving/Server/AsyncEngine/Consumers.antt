-- ===== src/Serving/Server/AsyncEngine/Consumers.antt =====
-- The consumer's loop in `stream`, and all that it yields.
use mathlib.Core.List.{append_assoc}
use llm_infer.Prelude.{
  ℕ, ◌≡◌, refl, ap, sym, ◌∙◌, String, Bool, true, false, Option, none, some, List, [], ◌∷◌, ◌++◌,
  arith, length, length-append, ◌==◌, if◌then◌else◌, Error,
}
use llm_infer.Serving.Engine.Results.{StepResult}
use llm_infer.Serving.Server.AsyncEngine.{TokenStreamItem, Stream, burst_of, finish_reason_of}
use llm_infer.Serving.Server.AsyncEngine.Delivery.{tokens_of}

-- How the generator stops: after an item with a reason, at the end of the stream, where it raises the
-- stream's error, or not yet.
pub data Ending : Type 0 where
  complete : Ending
  closed : Option Error → Ending
  waiting : Ending

-- The items of a burst that are yielded, and whether one had a reason.
unfoldable pub read_burst : List TokenStreamItem → List TokenStreamItem × Bool
read_burst [] = ([], false)
read_burst (item ∷ burst) = elim item.finish_reason [
  | some reason ↦ (item ∷ [], true)
  | none ↦ let (rest, done) = read_burst burst in (item ∷ rest, done)
]

unfoldable pub read_queue :
    Option Error → List (Option (List TokenStreamItem)) → List TokenStreamItem × Ending
unfolding read_burst
read_queue error [] = ([], Ending.waiting)
read_queue error (none ∷ queue) = ([], Ending.closed error)
read_queue error (some burst ∷ queue) =
    let (items, done) = read_burst burst in
    let (more, ending) = read_queue error queue in
    if done then (items, Ending.complete) else (items ++ more, ending)

abbrev pub plain : List ℕ → List TokenStreamItem
plain [] = []
plain (t ∷ ts) = (record { token_id = t; finish_reason = none }) ∷ plain ts

-- The tokens of one request in some results, and the bursts that bring them.
abbrev pub tokens_got : Option (List ℕ) → List ℕ
tokens_got none = []
tokens_got (some ts) = ts

abbrev pub tokens_in : String → List StepResult → List ℕ
tokens_in id [] = []
tokens_in id (r ∷ rs) = tokens_got (tokens_of id r.tokens) ++ tokens_in id rs

abbrev pub burst_got : Option (List ℕ) → List (Option (List TokenStreamItem))
burst_got none = []
burst_got (some ts) = some (plain ts) ∷ []

abbrev pub bursts_in : String → List StepResult → List (Option (List TokenStreamItem))
bursts_in id [] = []
bursts_in id (r ∷ rs) = burst_got (tokens_of id r.tokens) ++ bursts_in id rs

pub plain-append : (xs ys : List ℕ) → plain (xs ++ ys) ≡ plain xs ++ plain ys
plain-append [] ys = refl
plain-append (x ∷ xs) ys =
    ap (◌∷◌ (record { token_id = x; finish_reason = none })) (plain-append xs ys)

pub burst_plain : (s : Stream) (ts : List ℕ) → burst_of s false ts ≡ plain ts
unfolding burst_of
burst_plain s [] = refl
burst_plain s (t ∷ ts) = ap (◌∷◌ (record { token_id = t; finish_reason = none })) (burst_plain s ts)

unfoldable pub last_item : Stream → ℕ → TokenStreamItem
last_item s t = record { token_id = t; finish_reason = some (finish_reason_of s t) }

pub burst_last :
    (s : Stream) (ts : List ℕ) (t : ℕ)
    → burst_of s true (ts ++ t ∷ []) ≡ plain ts ++ last_item s t ∷ []
unfolding burst_of last_item
burst_last s [] t = refl
burst_last s (u ∷ ts) t =
    let more : (length (ts ++ t ∷ []) == 0) ≡ false = ground (arith, length-append ts (t ∷ [])) in
    rw (more) (ap (◌∷◌ (record { token_id = u; finish_reason = none })) (burst_last s ts t))

read_burst-plain : (ts : List ℕ) → read_burst (plain ts) ≡ (plain ts, false)
unfolding read_burst
read_burst-plain [] = refl
read_burst-plain (t ∷ ts) = rw (read_burst-plain ts) refl

read_burst-last :
    (s : Stream) (ts : List ℕ) (t : ℕ)
    → read_burst (plain ts ++ last_item s t ∷ []) ≡ (plain ts ++ last_item s t ∷ [], true)
unfolding read_burst last_item
read_burst-last s [] t = refl
read_burst-last s (u ∷ ts) t = rw (read_burst-last s ts t) refl

read_more :
    (error : Option Error) (o : Option (List ℕ)) (queue : List (Option (List TokenStreamItem)))
    (us : List ℕ) (last : List TokenStreamItem)
    → read_queue error queue ≡ (plain us ++ last, Ending.complete)
    → read_queue error (burst_got o ++ queue)
      ≡ (plain (tokens_got o ++ us) ++ last, Ending.complete)
unfolding read_queue
read_more error none queue us last h = h
read_more error (some ts) queue us last h =
    rw (read_burst-plain ts, h)
      (ap (λ items. (items, Ending.complete))
        (sym (append_assoc (plain ts) (plain us) last)
          ∙ ap (λ items. items ++ last) (sym (plain-append ts us))))

pub read_queue_lem :
    (error : Option Error) (id : String) (rs : List StepResult) (s : Stream) (ts : List ℕ) (t : ℕ)
    (rest : List (Option (List TokenStreamItem)))
    → read_queue error (bursts_in id rs ++ some (plain ts ++ last_item s t ∷ []) ∷ rest)
      ≡ (plain (tokens_in id rs ++ ts) ++ last_item s t ∷ [], Ending.complete)
unfolding read_queue
read_queue_lem error id [] s ts t rest = rw (read_burst-last s ts t) refl
read_queue_lem error id (r ∷ rs) s ts t rest =
    let end = some (plain ts ++ last_item s t ∷ []) ∷ rest in
    ap (read_queue error) (append_assoc (burst_got (tokens_of id r.tokens)) (bursts_in id rs) end)
    ∙ read_more error (tokens_of id r.tokens) (bursts_in id rs ++ end) (tokens_in id rs ++ ts) _
        (read_queue_lem error id rs s ts t rest)
    ∙ ap (λ us. (plain us ++ last_item s t ∷ [], Ending.complete))
        (sym (append_assoc (tokens_got (tokens_of id r.tokens)) (tokens_in id rs) ts))
