-- ===== src/Serving/Server/Metrics/Series.antt =====
-- The series of a counter after any increments.
use text.Mathlib.TextEquality.{eq_iff}
use llm_infer.Prelude.{
  ◌≡◌, refl, ap, sym, subst, ◌∙◌, ◌⊎◌, ◌&&◌, Elem, raise, bad_config, ok, some_cancel, inl, inr,
  String, true, false, Bool-cases, Option, none, some, List, [], ◌∷◌, arith, if◌then◌else◌, final,
}
use text.Mathlib.Text.{◌==◌ as str_eq}
use llm_infer.Serving.Engine.{names_member}
use llm_infer.Serving.Server.Metrics.{
  Values, key_eq, label, names, all_in, label_values, key, Counter, value_of, put_value, inc_key,
  inc,
}

key_eq→eq : (xs ys : List String) → key_eq xs ys ≡ true → xs ≡ ys
key_eq→eq [] [] h = refl
key_eq→eq [] (y ∷ ys) h = absurd (cc)
key_eq→eq (x ∷ xs) [] h = absurd (cc)
key_eq→eq (x ∷ xs) (y ∷ ys) h = ground (arith, eq_iff x y, key_eq→eq xs ys)

key_eq_refl : (xs : List String) → key_eq xs xs ≡ true
key_eq_refl [] = refl
key_eq_refl (x ∷ xs) = ground (arith, eq_iff x x, key_eq_refl xs)

-- The names of a call are a counter's names.
abbrev pub SameNames : List String → List (String × String) → Type 0
SameNames label_names labels =
    (name : String)
    → (Elem name (names labels) → Elem name label_names)
      × (Elem name label_names → Elem name (names labels))

-- The values of the names in their order.
abbrev pub ValuesOf : List (String × String) → List String → List String → Type 0
ValuesOf labels [] [] = Unit {0}
ValuesOf labels [] (v ∷ vs) = ⊥
ValuesOf labels (n ∷ ns) [] = ⊥
ValuesOf labels (n ∷ ns) (v ∷ vs) = (label n labels ≡ some v) × ValuesOf labels ns vs

-- A call is one of the series with the values `k`.
abbrev pub Meant : List String → List (String × String) → List String → Type 0
Meant label_names labels k = SameNames label_names labels × ValuesOf labels label_names k

member-Elem : (x : String) (ys : List String) → names_member x ys ≡ true → Elem x ys
member-Elem x [] h = absurd (ground arith)
member-Elem x (y ∷ ys) h = elim (Bool-cases (str_eq y x)) [
  | inl same ↦ inl ((eq_iff y x).0 same)
  | inr other ↦ inr (member-Elem x ys (ground arith))
]

Elem-member : (x : String) (ys : List String) → Elem x ys → names_member x ys ≡ true
Elem-member x [] i = absurd i
Elem-member x (y ∷ ys) (inl same) = ground (arith, (eq_iff y x).1 same)
Elem-member x (y ∷ ys) (inr i) = ground (arith, Elem-member x ys i)

all_in-Elem : (xs ys : List String) → all_in xs ys ≡ true → (x : String) → Elem x xs → Elem x ys
all_in-Elem [] ys h x i = absurd i
all_in-Elem (z ∷ xs) ys h x (inl same) =
    subst (λ y. Elem y ys) same (member-Elem z ys (ground arith))
all_in-Elem (z ∷ xs) ys h x (inr i) = all_in-Elem xs ys (ground arith) x i

Elem-all_in : (xs ys : List String) → ((x : String) → Elem x xs → Elem x ys) → all_in xs ys ≡ true
Elem-all_in [] ys h = refl
Elem-all_in (x ∷ xs) ys h =
    ground (arith, Elem-member x ys (h x (inl refl)), Elem-all_in xs ys (λ y i. h y (inr i)))

label_there :
    (labels : List (String × String)) (n : String)
    → Elem n (names labels)
    → (v : String) × (label n labels ≡ some v)
label_there [] n i = absurd i
label_there ((key, v) ∷ labels) n (inl same) = (v, rw ((eq_iff key n).1 same) refl)
label_there ((key, v) ∷ labels) n (inr i) = elim (Bool-cases (str_eq key n)) [
  | inl here ↦ (v, rw here refl)
  | inr there ↦ let (w, is) = label_there labels n i in (w, rw there is)
]

label_values-ValuesOf :
    (labels : List (String × String)) (ns : List String)
    → ((n : String) → Elem n ns → Elem n (names labels))
    → ValuesOf labels ns (label_values ns labels)
label_values-ValuesOf labels [] h = tt
label_values-ValuesOf labels (n ∷ ns) h =
    let (v, is) = label_there labels n (h n (inl refl)) in
    let first : label_values (n ∷ ns) labels ≡ v ∷ label_values ns labels =
      rw (is, label_values) refl in
    subst (ValuesOf labels (n ∷ ns)) (sym first)
      (is, label_values-ValuesOf labels ns (λ m i. h m (inr i)))

ValuesOf-same :
    (labels : List (String × String)) (ns j k : List String)
    → ValuesOf labels ns j
    → ValuesOf labels ns k
    → j ≡ k
ValuesOf-same labels [] [] [] a b = refl
ValuesOf-same labels [] [] (v ∷ k) a b = absurd b
ValuesOf-same labels [] (v ∷ j) k a b = absurd a
ValuesOf-same labels (n ∷ ns) [] k a b = absurd a
ValuesOf-same labels (n ∷ ns) (v ∷ j) [] a b = absurd b
ValuesOf-same labels (n ∷ ns) (v ∷ j) (w ∷ k) (p, a) (q, b) =
    let same : v ≡ w = some_cancel (sym p ∙ q) in
    ap (◌∷◌ v) (ValuesOf-same labels ns j k a b) ∙ ap (λ x. x ∷ k) same

-- `_key` finds the series that a call means, if its names are the counter's.
key_lem :
    (label_names : List String) (labels : List (String × String))
    → ((key label_names labels ≡ none) × ¬ SameNames label_names labels)
      ⊎ ((j : List String) × (key label_names labels ≡ some j) × Meant label_names labels j)
key_lem ns labels = elim (Bool-cases (all_in (names labels) ns && all_in ns (names labels))) [
  | inr differ ↦ inl (
    rw differ refl,
    λ same.
        let one = Elem-all_in (names labels) ns (λ x. (same x).0) in
        let two = Elem-all_in ns (names labels) (λ x. (same x).1) in absurd (ground arith),
  )
  | inl agree ↦
      let one : all_in (names labels) ns ≡ true = ground arith in
      let two : all_in ns (names labels) ≡ true = ground arith in
      inr (
        label_values ns labels,
        rw agree refl,
        (
          λ x. (all_in-Elem (names labels) ns one x, all_in-Elem ns (names labels) two x),
          label_values-ValuesOf labels ns (all_in-Elem ns (names labels) two),
        ),
      )
]

clash : (j k : List String) → key_eq j k ≡ false → j ≡ k → ⊥
clash j k other same =
    let own : key_eq j k ≡ true = subst (λ x. key_eq j x ≡ true) same (key_eq_refl j) in absurd (cc)

module _ (f : Values) where
  open f use {Value, nil, plus}

  abbrev pub Call : Type 0
  Call = Value × List (String × String)

  -- Calls of `inc` in turn; one that raises changes nothing.
  unfoldable pub inc_all : List Call → Counter f → Counter f
  inc_all [] c = c
  inc_all ((amount, labels) ∷ calls) c = inc_all calls (final (inc f amount labels c))

  -- From `acc` to `out` by the amounts of the calls that mean the series, in their order.
  abbrev pub Added : Value → Value → List String → List String → List Call → Type 0
  Added acc out label_names k [] = out ≡ acc
  Added acc out label_names k ((amount, labels) ∷ calls) =
      (Meant label_names labels k × Added (plus acc amount) out label_names k calls)
      ⊎ ((¬ Meant label_names labels k) × Added acc out label_names k calls)

  value_of-put_value :
      (j k : List String) (v : Value) (values : List (List String × Value))
      → value_of f k (put_value f j v values) ≡ (if key_eq j k then v else value_of f k values)
  unfolding value_of put_value
  value_of-put_value j k v [] = refl
  value_of-put_value j k v ((i, w) ∷ values) = elim (Bool-cases (key_eq i j)) [
    | inl same ↦ rw (same) (
        rw (key_eq→eq i j same)
          (elim (Bool-cases (key_eq j k)) [ inl h ↦ rw (h) refl | inr h ↦ rw (h) refl ]))
    | inr other ↦ rw (other) (elim (Bool-cases (key_eq i k)) [
      | inl mine ↦ elim (Bool-cases (key_eq j k)) [
        | inl h ↦
            let clash : key_eq i j ≡ true = ap (λ x. key_eq i x) (key_eq→eq j k h) ∙ mine in
            absurd (cc)
        | inr h ↦ rw (mine, h) refl
      ]
      | inr not_mine ↦ rw (not_mine, value_of-put_value j k v values) refl
    ])
  ]

  -- A call adds to the series that it means.
  put_lem :
      (amount : Value) (j k : List String) (c : Counter f)
      → value_of f k (put_value f j (plus (value_of f j c.values) amount) c.values)
        ≡ (if key_eq j k then plus (value_of f k c.values) amount else value_of f k c.values)
  put_lem amount j k c = elim (Bool-cases (key_eq j k)) [
    | inl same ↦
        rw (value_of-put_value j k (plus (value_of f j c.values) amount) c.values, same)
          (ap (λ i. plus (value_of f i c.values) amount) (key_eq→eq j k same))
    | inr other ↦
        rw (value_of-put_value j k (plus (value_of f j c.values) amount) c.values, other) refl
  ]

  inc_key-label_names :
      (amount : Value) (o : Option (List String)) (c : Counter f)
      → (final (inc_key f amount o c)).label_names ≡ c.label_names
  unfolding inc_key
  inc_key-label_names amount none c = refl
  inc_key-label_names amount (some j) c = refl

  inc_all-Added :
      (calls : List Call) (c : Counter f) (k : List String)
      → Added (value_of f k c.values) (value_of f k (inc_all calls c).values) c.label_names k calls
  unfolding inc_all inc inc_key
  inc_all-Added [] c k = refl
  inc_all-Added ((amount, labels) ∷ calls) c k =
      let ns = c.label_names in
      let c₁ = final (inc f amount labels c) in
      let out = value_of f k (inc_all calls c₁).values in
      let rest : Added (value_of f k c₁.values) out ns k calls =
        subst (λ names. Added (value_of f k c₁.values) out names k calls)
          (inc_key-label_names amount (key ns labels) c) (inc_all-Added calls c₁ k) in
      let value =
        λ (o : Option (List String)). value_of f k (final (inc_key f amount o c)).values in
      elim (key_lem ns labels) [
        | inl (is, differ) ↦
            inr (λ m. differ m.0, subst (λ v. Added v out ns k calls) (ap value is) rest)
        | inr (j, is, meant) ↦ elim (Bool-cases (key_eq j k)) [
          | inl same ↦
              let grows : value_of f k c₁.values ≡ plus (value_of f k c.values) amount =
                ap value is ∙ put_lem amount j k c ∙ rw (same) refl in
              inl (
                subst (Meant ns labels) (key_eq→eq j k same) meant,
                subst (λ v. Added v out ns k calls) grows rest,
              )
          | inr other ↦
              let stays : value_of f k c₁.values ≡ value_of f k c.values =
                ap value is ∙ put_lem amount j k c ∙ rw (other) refl in
              inr (
                λ m. clash j k other (ValuesOf-same labels ns j k meant.1 m.1),
                subst (λ v. Added v out ns k calls) stays rest,
              )
        ]
      ]

  -- After any calls of `inc` each series holds what it held before and then, added in their order,
  -- the amounts of the calls that mean it: those whose labels have exactly the counter's names and,
  -- by name, this series' values. A call raises and changes nothing if its names are not the
  -- counter's, and only then.
  pub value_of-inc_all :
      (calls : List Call) (c : Counter f)
      → ((k : List String)
          → Added
              (value_of f k c.values)
              (value_of f k (inc_all calls c).values)
              c.label_names
              k
              calls)
        × ((amount : Value) (labels : List (String × String))
            → ((inc f amount labels c ≡ raise bad_config c) × ¬ SameNames c.label_names labels)
              ⊎ ((c' : Counter f) × (inc f amount labels c ≡ ok tt c')
                  × SameNames c.label_names labels))
  unfolding inc_all inc inc_key
  value_of-inc_all calls c = (inc_all-Added calls c, told)
    where
      told :
          (amount : Value) (labels : List (String × String))
          → ((inc f amount labels c ≡ raise bad_config c) × ¬ SameNames c.label_names labels)
            ⊎ ((c' : Counter f) × (inc f amount labels c ≡ ok tt c')
                × SameNames c.label_names labels)
      told amount labels = elim (key_lem c.label_names labels) [
        | inl (is, differ) ↦ inl (rw (is, inc_key, inc) refl, differ)
        | inr (j, is, meant) ↦ inr (_, ap (λ o. inc_key f amount o c) is, meant.0)
      ]
