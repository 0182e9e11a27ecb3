-- ===== src/Serving/Server/Metrics/Buckets.antt =====
-- What a histogram shows of the values that were observed.
use llm_infer.Prelude.{
  ℕ, suc, ◌+◌, ◌≡◌, refl, subst, inl, inr, String, Bool, true, false, Bool-cases, List, [], ◌∷◌,
  ◌++◌, arith, All, tally, length, replicate, if◌then◌else◌, Outcome, ok, raise, bad_config,
}
use llm_infer.Serving.Server.Metrics.{
  Values, Line, Histogram, ascending, new_histogram, count_in, observe, bucket_lines,
  render_histogram,
}

module _ (f : Values) where
  open f use {Value, nil, plus, le}

  -- Every value of a list, observed in turn.
  unfoldable pub observe_all : List Value → Histogram f → Histogram f
  observe_all [] h = h
  observe_all (v ∷ vs) h = observe_all vs (observe f v h)

  abbrev pub at_most : Value → List Value → ℕ
  at_most upper [] = 0
  at_most upper (v ∷ vs) = tally (le v upper) + at_most upper vs

  abbrev pub sum_from : Value → List Value → Value
  sum_from acc [] = acc
  sum_from acc (v ∷ vs) = sum_from (plus acc v) vs

  -- For each bound the number of values at or below it.
  abbrev pub cumulative_lines : String → (Value → ℕ) → List Value → List (Line Value)
  cumulative_lines name below [] = []
  cumulative_lines name below (upper ∷ bs) =
      Line.bucket name upper (below upper) ∷ cumulative_lines name below bs

  -- The counts of the buckets add up to `below`.
  abbrev AddUp : (Value → ℕ) → ℕ → List Value → List ℕ → Type 0
  AddUp below acc [] [] = Unit
  AddUp below acc [] (c ∷ cs) = ⊥
  AddUp below acc (b ∷ bs) [] = ⊥
  AddUp below acc (b ∷ bs) (c ∷ cs) = (acc + c ≡ below b) × AddUp below (acc + c) bs cs

  bucket_lines-AddUp :
      (name : String) (below : Value → ℕ) (acc : ℕ) (bs : List Value) (cs : List ℕ)
      → AddUp below acc bs cs
      → bucket_lines f name acc bs cs ≡ cumulative_lines name below bs
  unfolding bucket_lines
  bucket_lines-AddUp name below acc [] [] h = refl
  bucket_lines-AddUp name below acc [] (c ∷ cs) h = absurd h
  bucket_lines-AddUp name below acc (b ∷ bs) [] h = absurd h
  bucket_lines-AddUp name below acc (b ∷ bs) (c ∷ cs) (e, h) =
      rw (bucket_lines-AddUp name below (acc + c) bs cs h, e) refl

  replicate-AddUp : (bs : List Value) → AddUp (λ _. 0) 0 bs (replicate (length bs) 0)
  replicate-AddUp [] = tt
  replicate-AddUp (b ∷ bs) = (omega arith, replicate-AddUp bs)

  abbrev blank : String → String → List Value → Histogram f
  blank name help_text buckets = record {
    name = name;
    help_text = help_text;
    buckets = buckets;
    counts = replicate (length buckets) 0;
    total_sum = nil;
    total = 0;
  }

  made_if :
      (up : Bool) (x h : Histogram f)
      → ◌≡◌ {A = Outcome (Unit {0}) (Histogram f)}
          (if up then ok x tt else raise bad_config tt)
          (ok h tt)
      → (up ≡ true) × (x ≡ h)
  made_if true x h made = (refl, cc)
  made_if false x h made = absurd (cc)

  module _ (trans : (a b c : Value) → le a b ≡ true → le b c ≡ true → le a c ≡ true) where
    fits_rest :
        (v b : Value) (bs : List Value)
        → le v b ≡ true
        → ascending f (b ∷ bs) ≡ true
        → All (λ u. le v u ≡ true) bs
    fits_rest v b [] h up = tt
    fits_rest v b (u ∷ bs) h up =
        let fits = trans v b u h (ground arith) in (fits, fits_rest v u bs fits (ground arith))

    ascending_rest :
        (b : Value) (bs : List Value) → ascending f (b ∷ bs) ≡ true → ascending f bs ≡ true
    ascending_rest b [] up = refl
    ascending_rest b (u ∷ bs) up = ground arith

    shift-AddUp :
        (v : Value) (below : Value → ℕ) (acc next : ℕ) (bs : List Value) (cs : List ℕ)
        → next ≡ suc acc
        → All (λ u. le v u ≡ true) bs
        → AddUp below acc bs cs
        → AddUp (λ u. tally (le v u) + below u) next bs cs
    shift-AddUp v below acc next [] [] up fits h = tt
    shift-AddUp v below acc next [] (c ∷ cs) up fits h = h
    shift-AddUp v below acc next (b ∷ bs) [] up fits h = h
    shift-AddUp v below acc next (b ∷ bs) (c ∷ cs) up (fit, fits) (e, h) = (
      rw (fit) (omega arith),
      shift-AddUp v below (acc + c) (next + c) bs cs (omega arith) fits h,
    )

    count_in-AddUp :
        (v : Value) (below : Value → ℕ) (acc : ℕ) (bs : List Value) (cs : List ℕ)
        → ascending f bs ≡ true
        → AddUp below acc bs cs
        → AddUp (λ u. tally (le v u) + below u) acc bs (count_in f v bs cs)
    unfolding count_in
    count_in-AddUp v below acc [] [] up h = tt
    count_in-AddUp v below acc [] (c ∷ cs) up h = h
    count_in-AddUp v below acc (b ∷ bs) [] up h = h
    count_in-AddUp v below acc (b ∷ bs) (c ∷ cs) up (e, h) = elim (Bool-cases (le v b)) [
      | inl fit ↦ rw (fit) (
        rw (fit) (omega arith),
        shift-AddUp v below (acc + c) (acc + suc c) bs cs (omega arith) (fits_rest v b bs fit up) h,
      )
      | inr over ↦ rw (over) (
        rw (over) (omega arith),
        count_in-AddUp v below (acc + c) bs cs (ascending_rest b bs up) h,
      )
    ]

    -- After the observation of some values.
    record Shows (below : Value → ℕ) (n : ℕ) (s : Value) (h h' : Histogram f) : Type 0 where
      pub add_up : AddUp below 0 h.buckets h'.counts
      pub counted : h'.total ≡ n
      pub summed : h'.total_sum ≡ s
      pub same_buckets : h'.buckets ≡ h.buckets
      pub same_name : h'.name ≡ h.name
      pub same_help : h'.help_text ≡ h.help_text

    AddUp-ext :
        (below below' : Value → ℕ) (acc : ℕ) (bs : List Value) (cs : List ℕ)
        → ((u : Value) → below u ≡ below' u)
        → AddUp below acc bs cs
        → AddUp below' acc bs cs
    AddUp-ext below below' acc [] [] e h = tt
    AddUp-ext below below' acc [] (c ∷ cs) e h = h
    AddUp-ext below below' acc (b ∷ bs) [] e h = h
    AddUp-ext below below' acc (b ∷ bs) (c ∷ cs) e (p, h) =
        (omega (arith, e b), AddUp-ext below below' (acc + c) bs cs e h)

    observe_all-Shows :
        (vs : List Value) (below : Value → ℕ) (h : Histogram f)
        → ascending f h.buckets ≡ true
        → AddUp below 0 h.buckets h.counts
        → Shows
            (λ u. at_most u vs + below u)
            (length vs + h.total)
            (sum_from h.total_sum vs)
            h
            (observe_all vs h)
    unfolding observe_all observe
    observe_all-Shows [] below h up add = record {
      add_up = AddUp-ext below _ 0 h.buckets h.counts (λ u. omega arith) add;
      counted = omega arith;
      summed = refl;
      same_buckets = refl;
      same_name = refl;
      same_help = refl;
    }
    observe_all-Shows (v ∷ vs) below h up add =
        let more = count_in-AddUp v below 0 h.buckets h.counts up add in
        let rest = observe_all-Shows vs (λ u. tally (le v u) + below u) (observe f v h) up more in
        record {
          add_up =
              AddUp-ext _ _ 0 h.buckets (observe_all vs (observe f v h)).counts (λ u. omega arith)
                rest.add_up;
          counted = omega (arith, rest.counted);
          summed = rest.summed;
          same_buckets = rest.same_buckets;
          same_name = rest.same_name;
          same_help = rest.same_help;
        }

    shown :
        (name help_text : String) (bs vs : List Value)
        → Shows
            (λ u. at_most u vs + 0)
            (length vs + 0)
            (sum_from nil vs)
            (blank name help_text bs)
            (observe_all vs (blank name help_text bs))
        → render_histogram f (observe_all vs (blank name help_text bs))
          ≡ Line.help name help_text
            ∷ Line.kind name "histogram"
            ∷ (cumulative_lines name (λ u. at_most u vs) bs
                ++ Line.bucket_inf name (length vs)
                  ∷ Line.sum_of name (sum_from nil vs)
                  ∷ Line.count_of name (length vs)
                  ∷ [])
    unfolding render_histogram
    shown name help_text bs vs s =
        let h' = observe_all vs (blank name help_text bs) in
        let lines : bucket_lines f name 0 bs h'.counts
            ≡ cumulative_lines name (λ u. at_most u vs) bs =
          bucket_lines-AddUp name _ 0 bs h'.counts
            (AddUp-ext _ (λ u. at_most u vs) 0 bs h'.counts (λ u. omega arith) s.add_up) in
        let number : h'.total ≡ length vs = omega (arith, s.counted) in
        simp (s.same_name, s.same_help, s.same_buckets, s.summed, number, lines)

    -- Any values, observed by a new histogram with ascending bounds, are shown under each bound by
    -- the number of those at or below it, and then by their number, their sum in the order of the
    -- observations, and their number again. The order of values is transitive.
    pub render_histogram-observe :
        (name help_text : String) (bs vs : List Value) (h : Histogram f)
        → new_histogram f name help_text bs ≡ ok h tt
        → render_histogram f (observe_all vs h)
          ≡ Line.help name help_text
            ∷ Line.kind name "histogram"
            ∷ (cumulative_lines name (λ u. at_most u vs) bs
                ++ Line.bucket_inf name (length vs)
                  ∷ Line.sum_of name (sum_from nil vs)
                  ∷ Line.count_of name (length vs)
                  ∷ [])
    unfolding new_histogram render_histogram
    render_histogram-observe name help_text bs vs h made =
        let (up, is) = made_if (ascending f bs) (blank name help_text bs) h made in
        subst
          (λ (g : Histogram f).
            render_histogram f (observe_all vs g)
            ≡ Line.help name help_text
              ∷ Line.kind name "histogram"
              ∷ (cumulative_lines name (λ u. at_most u vs) bs
                  ++ Line.bucket_inf name (length vs)
                    ∷ Line.sum_of name (sum_from nil vs)
                    ∷ Line.count_of name (length vs)
                    ∷ []))
          is
          (shown name help_text bs vs
            (observe_all-Shows vs (λ _. 0) (blank name help_text bs) up (replicate-AddUp bs)))
