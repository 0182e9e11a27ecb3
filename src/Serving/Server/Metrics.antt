-- ===== src/Serving/Server/Metrics.antt =====
-- llm_infer/serving/server/metrics.py: counters, gauges and histograms. A metric value is a parameter,
-- `Values`, with its addition and order. A rendered line is kept as its parts; the text that is
-- made of them, `_format_value` included, is not in the model.
pub mod Buckets
pub mod Series
use text.Mathlib.Text.{◌==◌ as str_eq}
use llm_infer.Prelude.{
  ℕ, zero, suc, ◌+◌, String, Bool, true, false, not, ◌&&◌, ◌||◌, Option, none, some, List, [], ◌∷◌,
  ◌++◌, ◌==◌, if◌then◌else◌, length, map, replicate, bad_config, Outcome, ok, raise,
}
use llm_infer.Serving.Engine.{names_member}

-- The floats that metrics hold: what the code uses of them.
pub record Values : Type 1 where
  pub Value : Type 0
  pub nil : Value
  pub plus : Value → Value → Value
  pub le : Value → Value → Bool

pub data Line (V : Type 0) : Type 0 where
  help : (name help_text : String) → Line V
  kind : (name type_name : String) → Line V
  sample : (name : String) (labels : List (String × String)) (value : V) → Line V
  bucket : (name : String) (upper : V) (cumulative : ℕ) → Line V
  bucket_inf : (name : String) (total : ℕ) → Line V
  sum_of : (name : String) (total_sum : V) → Line V
  count_of : (name : String) (total : ℕ) → Line V

-- `dict.get` and `dict.__setitem__` by the values of the labels.
abbrev pub key_eq : List String → List String → Bool
key_eq [] [] = true
key_eq [] (y ∷ ys) = false
key_eq (x ∷ xs) [] = false
key_eq (x ∷ xs) (y ∷ ys) = str_eq x y && key_eq xs ys

-- `labels`, the keyword arguments of a call.
abbrev pub label : String → List (String × String) → Option String
label name [] = none
label name ((key, v) ∷ labels) = if str_eq key name then some v else label name labels

abbrev pub names : List (String × String) → List String
names [] = []
names ((key, v) ∷ labels) = key ∷ names labels

abbrev pub all_in : List String → List String → Bool
all_in [] ys = true
all_in (x ∷ xs) ys = names_member x ys && all_in xs ys

-- `tuple(labels[name] for name in self._label_names)`
abbrev pub label_values : List String → List (String × String) → List String
label_values [] labels = []
label_values (name ∷ ns) labels = elim (label name labels) [
  | some v ↦ v ∷ label_values ns labels
  | none ↦ label_values ns labels
]

-- `_key`: the sets of names must be equal.
abbrev pub key : List String → List (String × String) → Option (List String)
key label_names labels =
    if all_in (names labels) label_names && all_in label_names (names labels)
    then some (label_values label_names labels)
    else none

-- `dict(zip(self._label_names, key, strict=True))`
abbrev pub labelled : List String → List String → List (String × String)
labelled [] vs = []
labelled (n ∷ ns) [] = []
labelled (n ∷ ns) (v ∷ vs) = (n, v) ∷ labelled ns vs

module _ (f : Values) where
  open f use {Value, nil, plus, le}

  pub record Counter : Type 0 where
    pub name : String
    pub help_text : String
    pub label_names : List String
    pub values : List (List String × Value)

  unfoldable pub new_counter : String → String → List String → Counter
  new_counter name help_text label_names = record {
    name = name;
    help_text = help_text;
    label_names = label_names;
    values = if length label_names == 0 then ([], nil) ∷ [] else [];
  }

  unfoldable pub value_of : List String → List (List String × Value) → Value
  value_of k [] = nil
  value_of k ((j, v) ∷ values) = if key_eq j k then v else value_of k values

  unfoldable pub put_value :
      List String → Value → List (List String × Value) → List (List String × Value)
  put_value k v [] = (k, v) ∷ []
  put_value k v ((j, w) ∷ values) =
      if key_eq j k then (j, v) ∷ values else (j, w) ∷ put_value k v values

  -- `inc` once the key is known.
  unfoldable pub inc_key : Value → Option (List String) → Counter → Outcome Counter (Unit {0})
  unfolding value_of put_value
  inc_key amount none c = raise bad_config c
  inc_key amount (some k) c =
      ok tt (record c { values = put_value k (plus (value_of k c.values) amount) c.values })

  unfoldable pub inc : Value → List (String × String) → Counter → Outcome Counter (Unit {0})
  unfolding inc_key
  inc amount labels c = inc_key amount (key c.label_names labels) c

  abbrev sample_lines : Counter → List (List String × Value) → List (Line Value)
  sample_lines c [] = []
  sample_lines c ((k, v) ∷ values) =
      Line.sample c.name (labelled c.label_names k) v ∷ sample_lines c values

  -- `sorted` on the items of the dictionary is a parameter.
  unfoldable pub render_counter :
      (List (List String × Value) → List (List String × Value)) → Counter → List (Line Value)
  render_counter sorted c =
      Line.help c.name c.help_text ∷ Line.kind c.name "counter" ∷ sample_lines c (sorted c.values)

  -- A gauge, or a counter that is read from its source; `value` is what the source says at the scrape.
  unfoldable pub render_gauge : String → String → Value → List (Line Value)
  render_gauge name help_text value =
      Line.help name help_text ∷ Line.kind name "gauge" ∷ Line.sample name [] value ∷ []

  unfoldable pub render_source_counter : String → String → Value → List (Line Value)
  render_source_counter name help_text value =
      Line.help name help_text ∷ Line.kind name "counter" ∷ Line.sample name [] value ∷ []

  pub record Histogram : Type 0 where
    pub name : String
    pub help_text : String
    pub buckets : List Value
    pub counts : List ℕ
    pub total_sum : Value
    pub total : ℕ

  abbrev pub ascending : List Value → Bool
  ascending [] = true
  ascending (a ∷ []) = true
  ascending (a ∷ b ∷ bs) = le a b && ascending (b ∷ bs)

  unfoldable pub new_histogram : String → String → List Value → Outcome (Unit {0}) Histogram
  new_histogram name help_text buckets =
      if ascending buckets
      then ok
          (record {
            name = name;
            help_text = help_text;
            buckets = buckets;
            counts = replicate (length buckets) 0;
            total_sum = nil;
            total = 0;
          })
          tt
      else raise bad_config tt

  -- The loop of `observe`, which stops at the first bound that fits.
  unfoldable pub count_in : Value → List Value → List ℕ → List ℕ
  count_in v [] cs = cs
  count_in v (upper ∷ bs) [] = []
  count_in v (upper ∷ bs) (c ∷ cs) = if le v upper then suc c ∷ cs else c ∷ count_in v bs cs

  unfoldable pub observe : Value → Histogram → Histogram
  unfolding count_in
  observe v h = record h {
    total_sum = plus h.total_sum v;
    total = suc h.total;
    counts = count_in v h.buckets h.counts;
  }

  unfoldable pub bucket_lines : String → ℕ → List Value → List ℕ → List (Line Value)
  bucket_lines name cumulative [] cs = []
  bucket_lines name cumulative (upper ∷ bs) [] = []
  bucket_lines name cumulative (upper ∷ bs) (c ∷ cs) =
      Line.bucket name upper (cumulative + c) ∷ bucket_lines name (cumulative + c) bs cs

  unfoldable pub render_histogram : Histogram → List (Line Value)
  unfolding bucket_lines
  render_histogram h =
      Line.help h.name h.help_text
      ∷ Line.kind h.name "histogram"
      ∷ (bucket_lines h.name 0 h.buckets h.counts
          ++ Line.bucket_inf h.name h.total
            ∷ Line.sum_of h.name h.total_sum
            ∷ Line.count_of h.name h.total
            ∷ [])
