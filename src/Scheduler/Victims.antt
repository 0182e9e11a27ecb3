-- ===== src/Scheduler/Victims.antt =====
-- `preemption_victim`: the latest running request that may be evicted.
use llm_infer.Prelude.{
  ◌≡◌, refl, ap, ◌⊎◌, inl, inr, String, true, false, Bool-cases, Option, none, some, List, [], ◌∷◌,
  ◌++◌, All,
}
use llm_infer.Serving.Request.{Request}
use llm_infer.Scheduler.{Scheduler, eligible, last_eligible, preemption_victim}

-- The requests that may not be evicted: finished ones, and the one that needs the blocks.
abbrev pub AllIneligible : Option String → List Request → Type 0
AllIneligible exclude = All (λ r. eligible exclude r ≡ false)

abbrev pub Victim : Option String → List Request → Option Request → Type 0
Victim exclude running out =
    ((out ≡ none) × AllIneligible exclude running)
    ⊎ ((v : Request) × (before after : List Request) × (out ≡ some v)
        × (running ≡ before ++ v ∷ after)
        × (eligible exclude v ≡ true)
        × AllIneligible exclude after)

last_eligible-Victim :
    (exclude : Option String) (running : List Request)
    → Victim exclude running (last_eligible exclude running)
unfolding last_eligible
last_eligible-Victim exclude [] = inl (refl, tt)
last_eligible-Victim exclude (r ∷ rs) = elim (last_eligible-Victim exclude rs) [
  | inr (v, before, after, is_v, split, may, later) ↦
      inr (v, r ∷ before, after, rw (is_v, last_eligible) refl, ap (◌∷◌ r) split, may, later)
  | inl (out, none_may) ↦ elim (Bool-cases (eligible exclude r)) [
    | inl may ↦ inr (r, [], rs, rw (out, last_eligible, may) refl, refl, may, none_may)
    | inr not_may ↦ inl (rw (out, last_eligible, not_may) refl, (not_may, none_may))
  ]
]

-- The victim is the last running request that is unfinished and not the excluded one, and there is
-- none only when no running request is such.
pub preemption_victim-Victim :
    (exclude : Option String) (s : Scheduler)
    → Victim exclude s.running (preemption_victim exclude s)
preemption_victim-Victim exclude s = last_eligible-Victim exclude s.running
