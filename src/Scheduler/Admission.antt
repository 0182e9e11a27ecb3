-- ===== src/Scheduler/Admission.antt =====
-- `admit`: first in, first out, within the budget, and up to the first request that does not fit.
use llm_infer.Prelude.{
  ℕ, ◌+◌, ◌-◌, ◌≤◌, ◌<◌, ◌≡◌, refl, ap, sym, ◌∙◌, ◌⊎◌, inl, inr, true, false, none, some, List, [],
  ◌∷◌, ◌++◌, arith, Bool-cases, ok,
}
use mathlib.Core.List.{append-nil, append_assoc, cons≢nil, head-eq_of_cons-eq}
use llm_infer.Serving.Request.{Request}
use llm_infer.Scheduler.{Scheduler, max_blocks_for, need_of, fits, commit, admit_from, admit}

-- The needs of requests, added up.
abbrev pub total : (Request → ℕ) → List Request → ℕ
total need [] = 0
total need (r ∷ rs) = need r + total need rs

pub total-append :
    (need : Request → ℕ) (rs us : List Request)
    → total need (rs ++ us) ≡ total need rs + total need us
total-append need [] us = omega arith
total-append need (r ∷ rs) us = omega (arith, total-append need rs us)

-- What `admit` does to the scheduler `s`, with `free` blocks free: `out` holds the scheduler after it
-- and the admitted requests.
pub record Admits (s : Scheduler) (free : ℕ) (waiting : List Request)
    (out : Scheduler × List Request) : Type 0 where
  pub in_order : waiting ≡ out.1 ++ out.0.waiting
  pub appended : out.0.running ≡ s.running ++ out.1
  pub same_pool :
      (out.0.num_blocks ≡ s.num_blocks)
      × (out.0.block_size ≡ s.block_size)
      × (out.0.preemption ≡ s.preemption)
  pub charged : out.0.committed_blocks ≡ s.committed_blocks + total (need_of s) out.1
  -- Head-of-line blocking: what waits at the front does not fit now.
  pub blocked :
      (out.0.waiting ≡ [])
      ⊎ ((r : Request) × (rest : List Request) × (out.0.waiting ≡ r ∷ rest)
          × (fits out.0 (free - total (need_of s) out.1) (need_of s r) ≡ false))
  -- The budget of the discipline is kept: the pool's size, or the blocks that are free.
  pub reserved :
      s.preemption ≡ false
      → s.committed_blocks ≤ s.num_blocks
      → out.0.committed_blocks ≤ s.num_blocks
  pub footprint : s.preemption ≡ true → total (need_of s) out.1 ≤ free

-- The loop stops.
stop-Admits :
    (s : Scheduler) (free : ℕ) (waiting : List Request)
    → ((waiting ≡ [])
        ⊎ ((r : Request) × (rest : List Request) × (waiting ≡ r ∷ rest)
            × (fits s free (need_of s r) ≡ false)))
    → Admits s free waiting (record s { waiting = waiting }, [])
stop-Admits s free waiting full = record {
  in_order = refl;
  appended = sym (append-nil s.running);
  same_pool = (refl, refl, refl);
  charged = omega arith;
  blocked = elim full [
    | inl none_left ↦ inl none_left
    | inr (r, rest, front, tight) ↦
        let all : free - 0 ≡ free = omega arith in inr (r, rest, front, rw all tight)
  ];
  reserved = λ _ h. h;
  footprint = λ _. omega arith;
}

-- The loop goes on with a request that fits.
next-Admits :
    (r : Request) (waiting : List Request) (free : ℕ) (s : Scheduler)
    (out : Scheduler × List Request)
    → fits s free (need_of s r) ≡ true
    → Admits (commit r (need_of s r) s) (free - need_of s r) waiting out
    → Admits s free (r ∷ waiting) (out.0, r ∷ out.1)
unfolding commit
next-Admits r waiting free s out room a =
    let n = need_of s r in
    let less : free - n - total (need_of s) out.1 ≡ free - (n + total (need_of s) out.1) =
      omega arith in
    record {
      in_order = ap (◌∷◌ r) a.in_order;
      appended = a.appended ∙ append_assoc s.running (r ∷ []) out.1;
      same_pool = a.same_pool;
      charged = omega (arith, a.charged);
      blocked = elim a.blocked [
        | inl none_left ↦ inl none_left
        | inr (w, rest, front, tight) ↦ inr (w, rest, front, rw (← less) tight)
      ];
      reserved = λ mode h. a.reserved mode (reserve mode);
      footprint = λ mode. preempt mode (a.footprint mode);
    }
  where
    reserve : s.preemption ≡ false → s.committed_blocks + need_of s r ≤ s.num_blocks
    reserve mode = ground arith

    preempt :
        s.preemption ≡ true
        → total (need_of s) out.1 ≤ free - need_of s r
        → need_of s r + total (need_of s) out.1 ≤ free
    preempt mode h = ground arith

admit_from-Admits :
    (waiting : List Request) (free : ℕ) (s : Scheduler)
    → Admits s free waiting (admit_from waiting free s)
unfolding admit_from
admit_from-Admits [] free s = stop-Admits s free [] (inl refl)
admit_from-Admits (r ∷ waiting) free s = elim (Bool-cases (fits s free (need_of s r))) [
  | inr full ↦
      rw (admit_from, full) (stop-Admits s free (r ∷ waiting) (inr (r, waiting, refl, full)))
  | inl room ↦
      rw (admit_from, room)
        (next-Admits r waiting free s _ room
          (admit_from-Admits waiting (free - need_of s r) (commit r (need_of s r) s)))
]

-- What `admit` does in reserve mode to the scheduler `s`: `s'` is the scheduler after it, and
-- `admitted` are the admitted requests.
pub record Reserves (s s' : Scheduler) (admitted : List Request) : Type 0 where
  pub in_order : s.waiting ≡ admitted ++ s'.waiting
  pub appended : s'.running ≡ s.running ++ admitted
  pub same_pool : (s'.num_blocks ≡ s.num_blocks) × (s'.block_size ≡ s.block_size)
  pub charged :
      s'.committed_blocks ≡ s.committed_blocks + total (max_blocks_for s.block_size) admitted
  pub blocked :
      (s'.waiting ≡ [])
      ⊎ ((r : Request) × (rest : List Request) × (s'.waiting ≡ r ∷ rest)
          × (s.num_blocks < s'.committed_blocks + max_blocks_for s.block_size r))
  pub kept : s.committed_blocks ≤ s.num_blocks → s'.committed_blocks ≤ s.num_blocks

total_same :
    (f g : Request → ℕ) (rs : List Request) → ((r : Request) → f r ≡ g r) → total f rs ≡ total g rs
total_same f g [] h = refl
total_same f g (r ∷ rs) h = omega (arith, h r, total_same f g rs h)

need_of_reserve :
    (s : Scheduler)
    → s.preemption ≡ false
    → (r : Request) → need_of s r ≡ max_blocks_for s.block_size r
need_of_reserve s mode r = rw mode refl

tight_reserve :
    (s : Scheduler) (free need : ℕ)
    → s.preemption ≡ false
    → fits s free need ≡ false
    → s.num_blocks < s.committed_blocks + need
tight_reserve s free need mode h = ground arith

Admits-Reserves :
    (s s' : Scheduler) (admitted : List Request)
    → s.preemption ≡ false
    → Admits s 0 s.waiting (s', admitted)
    → Reserves s s' admitted
Admits-Reserves s s' admitted mode a =
    let need = need_of_reserve s mode in
    let (pool, size, same) = a.same_pool in
    record {
      in_order = a.in_order;
      appended = a.appended;
      same_pool = (pool, size);
      charged =
          a.charged
          ∙ ap (λ n. s.committed_blocks + n)
              (total_same (need_of s) (max_blocks_for s.block_size) admitted need);
      blocked = elim a.blocked [
        | inl none_left ↦ inl none_left
        | inr (r, rest, front, tight) ↦ inr (
          r,
          rest,
          front,
          omega (
            arith,
            tight_reserve s' (0 - total (need_of s) admitted) (need_of s r) (same ∙ mode) tight,
            pool,
            need r,
          ),
        )
      ];
      kept = a.reserved mode;
    }

-- In reserve mode `admit` never raises; it admits a leading run of the queue in order, charges each
-- admitted request's `max_blocks_for`, keeps the committed blocks within the pool if they were, and
-- stops only at the end of the queue or at a request whose `max_blocks_for` with the committed
-- blocks is more than the pool has.
pub admit_reserve :
    (s : Scheduler)
    → s.preemption ≡ false
    → (s' : Scheduler) × (admitted : List Request) × (admit none s ≡ ok admitted s')
      × Reserves s s' admitted
unfolding admit
admit_reserve s mode =
    let (s', admitted) = admit_from s.waiting 0 s in
    (
      s',
      admitted,
      rw mode refl,
      Admits-Reserves s s' admitted mode (admit_from-Admits s.waiting 0 s),
    )

-- Given the number of free blocks `admit` never raises in either mode, admits a leading run of the
-- queue, in preemption mode with footprints that fit in the free blocks together, and stops only at
-- a request that does not fit.
pub admit_free :
    (s : Scheduler) (free : ℕ)
    → (out : Scheduler × List Request) × (admit (some free) s ≡ ok out.1 out.0)
      × Admits s free s.waiting out
unfolding admit
admit_free s free = (admit_from s.waiting free s, refl, admit_from-Admits s.waiting free s)

-- With nothing committed, a first request that fits in the pool is among the admitted.
first_admitted :
    (s s' : Scheduler) (r : Request) (rest admitted : List Request)
    → s.committed_blocks ≡ 0
    → s.waiting ≡ r ∷ rest
    → max_blocks_for s.block_size r ≤ s.num_blocks
    → Reserves s s' admitted
    → (more : List Request) × (admitted ≡ r ∷ more)
first_admitted s s' r rest [] idle front fit a =
    let left : r ∷ rest ≡ s'.waiting = sym front ∙ a.in_order in
    elim a.blocked [
      | inl none_left ↦ absurd (cons≢nil (left ∙ none_left))
      | inr (w, ws, first, tight) ↦
          let same : r ≡ w = head-eq_of_cons-eq (left ∙ first) in
          let need = ap (max_blocks_for s.block_size) same in
          absurd (omega (arith, a.charged, tight, need))
    ]
first_admitted s s' r rest (x ∷ more) idle front fit a =
    (more, ap (λ y. y ∷ more) (sym (head-eq_of_cons-eq (sym front ∙ a.in_order))))

-- In reserve mode, with nothing committed, `admit` does not raise and admits a request at the front
-- of the queue that fits in the pool, before any other.
pub admit_progress :
    (s : Scheduler) (r : Request) (rest : List Request)
    → s.preemption ≡ false
    → s.committed_blocks ≡ 0
    → s.waiting ≡ r ∷ rest
    → max_blocks_for s.block_size r ≤ s.num_blocks
    → (s' : Scheduler) × (more : List Request) × (admit none s ≡ ok (r ∷ more) s')
admit_progress s r rest mode idle front fit =
    let (s', admitted, run, reserves) = admit_reserve s mode in
    let (more, first) = first_admitted s s' r rest admitted idle front fit reserves in
    (s', more, run ∙ ap (λ rs. ok rs s') first)
