-- ===== src/Serving/Engine/Registration.antt =====
-- What a refused request leaves behind in the engine.
use text.Mathlib.TextEquality.{eq_iff}
use llm_infer.Prelude.{
  ◌<◌, ◌≡◌, refl, ap, ◌∙◌, String, Bool, true, false, List, [], ◌∷◌, ◌++◌, arith, lt→ltb, too_large,
  duplicate_request, raise,
}
use llm_infer.Serving.Request.{Request}
use llm_infer.Scheduler.{max_blocks_for, add}
use llm_infer.Serving.Engine.{Engine, names_member, grouped, add_request}

names_member-append : (id : String) (ks : List String) → names_member id (ks ++ id ∷ []) ≡ true
names_member-append id [] = ground (arith, eq_iff id id)
names_member-append id (key ∷ ks) = ground (arith, names_member-append id ks)

add_refuses :
    (r : Request) (e : Engine)
    → e.scheduler.num_blocks < max_blocks_for e.scheduler.block_size r
    → add r e.scheduler ≡ raise too_large e.scheduler
unfolding add
add_refuses r e large =
    rw (lt→ltb e.scheduler.num_blocks (max_blocks_for e.scheduler.block_size r) large, add) refl

-- A request without a prefix group and with a new id that is too large for the pool is refused with
-- the scheduler unchanged but its id registered, so that adding any request without a group and
-- with that id is refused as a duplicate afterwards.
pub add_request_leak :
    (caching : Bool) (r retry : Request) (e : Engine)
    → grouped r ≡ false
    → grouped retry ≡ false
    → names_member r.request_id e.registered ≡ false
    → e.scheduler.num_blocks < max_blocks_for e.scheduler.block_size r
    → retry.request_id ≡ r.request_id
    → (e' : Engine) × (add_request caching r e ≡ raise too_large e')
      × (e'.scheduler ≡ e.scheduler)
      × (add_request caching retry e' ≡ raise duplicate_request e')
unfolding add_request
add_request_leak caching r retry e alone retry_alone new large same =
    let e' : Engine = record e { registered = e.registered ++ r.request_id ∷ [] } in
    let known : names_member retry.request_id (e.registered ++ r.request_id ∷ []) ≡ true =
      ap (λ id. names_member id (e.registered ++ r.request_id ∷ [])) same
      ∙ names_member-append r.request_id e.registered in
    (
      e',
      simp (alone, new, add_refuses r e large, add_request),
      refl,
      simp (retry_alone, known, add_request),
    )
