-- ===== src/Scheduler/Books.antt =====
-- The scheduler's accounts: the committed blocks are the sum of the budgets the running requests
-- hold, one each, so that `release` gives back exactly what admission charged.
use text.Mathlib.Text.{◌==◌ as str_eq}
use text.Mathlib.TextEquality.{eq_iff}
use llm_infer.Prelude.{
  ℕ, ◌+◌, ◌-◌, ◌≡◌, refl, ap, sym, subst, ◌∙◌, inl, inr, String, Bool, true, false, Bool-cases,
  none, some, List, [], ◌∷◌, ◌++◌, arith, not_running, if◌then◌else◌, ok, raise,
}
use mathlib.Core.List.{nil≢cons, head-eq_of_cons-eq, tail-eq_of_cons-eq, append_assoc}
use llm_infer.Serving.Request.{Request}
use llm_infer.Scheduler.{
  Scheduler, put, pop, remove, uncommit, release, requeue, commit, need_of, fits, admit_from,
}

-- The budgets of a dictionary, added up.
abbrev pub charges : List (String × ℕ) → ℕ
charges [] = 0
charges ((key, n) ∷ d) = n + charges d

abbrev pub keys : List (String × ℕ) → List String
keys [] = []
keys ((key, n) ∷ d) = key ∷ keys d

abbrev pub ids : List Request → List String
ids [] = []
ids (r ∷ rs) = r.request_id ∷ ids rs

-- The running requests, in order, are the keys of the dictionary.
pub record Balanced (s : Scheduler) : Type 0 where
  pub charged : s.committed_blocks ≡ charges s.committed_by_request
  pub keyed : keys s.committed_by_request ≡ ids s.running

ids-append : (rs us : List Request) → ids (rs ++ us) ≡ ids rs ++ ids us
ids-append [] us = refl
ids-append (r ∷ rs) us = ap (◌∷◌ r.request_id) (ids-append rs us)

-- An id that no request has.
abbrev pub fresh : String → List String → Bool
fresh id [] = true
fresh id (key ∷ ks) = if str_eq key id then false else fresh id ks

put-charges :
    (id : String) (n : ℕ) (d : List (String × ℕ))
    → fresh id (keys d) ≡ true
    → (charges (put id n d) ≡ charges d + n) × (keys (put id n d) ≡ keys d ++ id ∷ [])
unfolding put
put-charges id n [] h = (omega arith, refl)
put-charges id n ((key, m) ∷ d) h = elim (Bool-cases (str_eq key id)) [
  | inl same ↦ absurd (ground arith)
  | inr other ↦
      let (sum, names) = put-charges id n d (ground arith) in
      rw (put, other) (omega (arith, sum), ap (◌∷◌ key) names)
]

abbrev pub Unique : List String → Type 0
Unique [] = Unit {0}
Unique (id ∷ names) = (fresh id names ≡ true) × Unique names

pub str_eq_swap : (x y : String) → str_eq x y ≡ false → str_eq y x ≡ false
str_eq_swap x y h = elim (Bool-cases (str_eq y x)) [
  | inl same ↦ absurd (ground (arith, eq_iff y x, eq_iff x y))
  | inr other ↦ other
]

fresh_of_append :
    (x : String) (xs : List String) (y : String) (ys : List String)
    → fresh x (xs ++ y ∷ ys) ≡ true
    → str_eq y x ≡ false
fresh_of_append x [] y ys h = ground arith
fresh_of_append x (z ∷ xs) y ys h = fresh_of_append x xs y ys (ground arith)

fresh_of_Unique :
    (xs : List String) (y : String) (ys : List String) → Unique (xs ++ y ∷ ys) → fresh y xs ≡ true
fresh_of_Unique [] y ys u = refl
fresh_of_Unique (x ∷ xs) y ys (new, u) =
    ground (arith, str_eq_swap y x (fresh_of_append x xs y ys new), fresh_of_Unique xs y ys u)

remove-pop :
    (id : String) (rs : List Request) (d : List (String × ℕ))
    → keys d ≡ ids rs
    → fresh id (ids rs) ≡ false
    → (left : List Request) × (n : ℕ) × (rest : List (String × ℕ)) × (remove id rs ≡ some left)
      × (pop id d ≡ some (n, rest))
      × (keys rest ≡ ids left)
      × (charges d ≡ n + charges rest)
unfolding remove pop
remove-pop id [] d same known = absurd (ground arith)
remove-pop id (r ∷ rs) [] same known = absurd (nil≢cons same)
remove-pop id (r ∷ rs) ((key, m) ∷ d) same known =
    let first : key ≡ r.request_id = head-eq_of_cons-eq same in
    let others : keys d ≡ ids rs = tail-eq_of_cons-eq same in
    elim (Bool-cases (str_eq key id)) [
      | inl this ↦ (rs, m, d, rw (← first, this) refl, rw (this) refl, others, refl)
      | inr other ↦
          let (left, n, rest, removed, popped, match, sum) =
            remove-pop id rs d others (ground (arith, first)) in
          (
            r ∷ left,
            n,
            (key, m) ∷ rest,
            rw (← first, other, removed) refl,
            rw (other, popped) refl,
            λ i. first i ∷ match i,
            omega (arith, sum),
          )
    ]

remove_missing : (id : String) (rs : List Request) → fresh id (ids rs) ≡ true → remove id rs ≡ none
unfolding remove
remove_missing id [] h = refl
remove_missing id (r ∷ rs) h = elim (Bool-cases (str_eq r.request_id id)) [
  | inl same ↦ absurd (ground arith)
  | inr other ↦ rw (other, remove_missing id rs (ground arith)) refl
]

-- Releasing a running request never raises when the accounts agree: it gives back the budget that
-- was charged for it, keeps the waiting queue, and the accounts agree afterwards.
pub release-Balanced :
    (s : Scheduler) (r : Request)
    → Balanced s
    → fresh r.request_id (ids s.running) ≡ false
    → (s' : Scheduler) × (budget : ℕ) × (release r s ≡ ok tt s')
      × Balanced s'
      × (remove r.request_id s.running ≡ some s'.running)
      × (pop r.request_id s.committed_by_request ≡ some (budget, s'.committed_by_request))
      × (s'.committed_blocks + budget ≡ s.committed_blocks)
      × (s'.waiting ≡ s.waiting)
unfolding release uncommit
release-Balanced s r b known =
    let (left, n, rest, removed, popped, match, sum) =
      remove-pop r.request_id s.running s.committed_by_request b.keyed known in
    let charged = b.charged in
    (
      record s {
        running = left;
        committed_blocks = s.committed_blocks - n;
        committed_by_request = rest;
      },
      n,
      rw (removed, release, popped, uncommit) refl,
      record { charged = omega (arith, charged, sum); keyed = match },
      removed,
      popped,
      omega (arith, charged, sum),
      refl,
    )

-- Releasing or requeueing a request that is not running raises and changes nothing.
pub release_refuses :
    (s : Scheduler) (r : Request)
    → fresh r.request_id (ids s.running) ≡ true
    → (release r s ≡ raise not_running s) × (requeue r s ≡ raise not_running s)
unfolding release requeue
release_refuses s r h =
    let gone = remove_missing r.request_id s.running h in
    (rw (gone, release) refl, rw (requeue, gone, release) refl)

-- Requeueing a running request does what releasing it does, and puts it at the front of the queue.
pub requeue_lem :
    (s s' : Scheduler) (r : Request)
    → release r s ≡ ok tt s'
    → requeue r s ≡ ok tt (record s' { waiting = r ∷ s'.waiting })
unfolding requeue
requeue_lem s s' r h = rw (h, requeue) refl

commit-Balanced :
    (s : Scheduler) (r : Request) (need : ℕ)
    → Balanced s
    → fresh r.request_id (ids s.running) ≡ true
    → Balanced (commit r need s)
unfolding commit
commit-Balanced s r need b new =
    let (sum, names) = put-charges r.request_id need s.committed_by_request (rw (b.keyed) new) in
    let charged = b.charged in
    record {
      charged = omega (arith, sum, charged);
      keyed =
          names ∙ ap (λ ks. ks ++ r.request_id ∷ []) b.keyed ∙ sym (ids-append s.running (r ∷ []));
    }

shift :
    (rs : List Request) (r : Request) (us : List Request)
    → ids rs ++ ids (r ∷ us) ≡ ids (rs ++ r ∷ []) ++ ids us
shift rs r us =
    sym (append_assoc (ids rs) (r.request_id ∷ []) (ids us))
    ∙ ap (λ names. names ++ ids us) (sym (ids-append rs (r ∷ [])))

-- From agreeing accounts, admission keeps them: the committed blocks are the sum of the budgets in
-- the dictionary, whose keys are the ids of the running requests in order, for unique ids.
pub admit_from-Balanced :
    (waiting : List Request) (free : ℕ) (s : Scheduler)
    → Balanced s
    → Unique (ids s.running ++ ids waiting)
    → Balanced ((admit_from waiting free s).0)
unfolding admit_from commit
admit_from-Balanced [] free s b u = record { charged = b.charged; keyed = b.keyed }
admit_from-Balanced (r ∷ waiting) free s b u = elim (Bool-cases (fits s free (need_of s r))) [
  | inr full ↦ rw (admit_from, full) (record { charged = b.charged; keyed = b.keyed })
  | inl room ↦
      rw (admit_from, room)
        (admit_from-Balanced waiting (free - need_of s r) (commit r (need_of s r) s)
          (commit-Balanced s r (need_of s r) b
            (fresh_of_Unique (ids s.running) r.request_id (ids waiting) u))
          (subst Unique (shift s.running r waiting) u))
]
