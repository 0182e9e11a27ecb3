-- ===== src/Serving/Server/AsyncEngine/Admissible.antt =====
-- The check of a request's shape before it reaches the loop thread.
use llm_infer.Prelude.{
  ◌≡◌, refl, ◌⊎◌, inl, inr, Bool-cases, [], ◌∷◌, ◌++◌, ltb, length, too_large, ok, raise,
}
use llm_infer.Serving.Request.{Request}
use llm_infer.Scheduler.{Scheduler, max_blocks_for, add}
use llm_infer.Serving.Server.AsyncEngine.{assert_admissible}

-- `assert_admissible` on the shape of a request and `Scheduler.add` refuse the same requests:
-- either both raise and leave the scheduler as it is, or neither raises, and then the request is
-- queued last.
pub assert_admissible-add :
    (r : Request) (s : Scheduler)
    → let checked = assert_admissible (length r.prompt_ids) r.max_new_tokens s in
      ((checked ≡ raise too_large s) × (add r s ≡ raise too_large s))
      ⊎ ((checked ≡ ok tt s) × (add r s ≡ ok tt (record s { waiting = s.waiting ++ r ∷ [] })))
unfolding assert_admissible add
assert_admissible-add r s = elim (Bool-cases (ltb s.num_blocks (max_blocks_for s.block_size r))) [
  | inl large ↦ inl (simp (large) refl, simp (large) refl)
  | inr fits ↦ inr (simp (fits) refl, simp (fits) refl)
]
