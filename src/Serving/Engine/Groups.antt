-- ===== src/Serving/Engine/Groups.antt =====
-- `_prefill_shared_group` of llm_infer/serving/engine_prefill.py, on an engine without preemption: one
-- member of the group prefills the prompt, and the others fork its table. The release of members
-- that their first token finishes is in Serving/Finish.

pub mod Forks
use text.Mathlib.Text.{◌==◌ as str_eq}
use llm_infer.Prelude.{
  ℕ, Bool, true, false, not, ◌||◌, Option, none, some, List, [], ◌∷◌, if◌then◌else◌, length,
  list_eq, index_error, bad_state, Outcome, ok, raise,
}
use llm_infer.KvCache.Pool.{Pool}
use llm_infer.KvCache.BlockTable.{BlockTable, fork_shared}
use llm_infer.Serving.Request.{Request, record_token}
use llm_infer.Serving.Engine.Prefill.{PromptModel, has_table, cache_prompt_chunk}

pub record Group : Type 0 where
  pub members : List Request
  pub pool : Pool

abbrev pub prompts_differ : List ℕ → List Request → Bool
prompts_differ prompt [] = false
prompts_differ prompt (r ∷ rs) = not (list_eq r.prompt_ids prompt) || prompts_differ prompt rs

abbrev pub with_tables : List Request → List Request
with_tables [] = []
with_tables (r ∷ rs) = if has_table r then r ∷ with_tables rs else with_tables rs

-- `none` stands for more than one active leader.
abbrev pub lead_of : Request → List Request → Option Request
lead_of first [] = some first
lead_of first (leader ∷ []) = some leader
lead_of first (leader ∷ other ∷ leaders) = none

abbrev pub others_of : Request → List Request → List Request
others_of leader [] = []
others_of leader (r ∷ rs) =
    if str_eq r.request_id leader.request_id then others_of leader rs else r ∷ others_of leader rs

-- A member with its fork of the leader's table.
abbrev pub sharing : ℕ → BlockTable → Request → Request
sharing cached fork r = record r {
  block_table = some (record fork { owner = some r.request_id });
  prompt_cached_tokens = cached;
  prefilled = true;
}

abbrev pub ahead : Request → Outcome Group (Unit {0}) → Outcome Group (Unit {0})
ahead r (ok _ g) = ok tt (record g { members = r ∷ g.members })
ahead r (raise err g) = raise err (record g { members = r ∷ g.members })

unfoldable pub fork_members : ℕ → BlockTable → List Request → Pool → Outcome Group (Unit {0})
unfolding fork_shared
fork_members cached t [] p = ok tt (record { members = []; pool = p })
fork_members cached t (r ∷ rs) p = elim (fork_shared t p) [
  | raise err p' ↦ raise err (record { members = r ∷ rs; pool = p' })
  | ok fork p' ↦ ahead (sharing cached fork r) (fork_members cached t rs p')
]

-- `_record` for each member; the tokens are sampled before.
unfoldable pub record_each : (Request → ℕ) → List Request → Pool → Outcome Group (Unit {0})
unfolding record_token
record_each sample [] p = ok tt (record { members = []; pool = p })
record_each sample (r ∷ rs) p = elim (record_token (sample r) none r) [
  | raise err r' ↦ raise err (record { members = r' ∷ rs; pool = p })
  | ok _ r' ↦ ahead r' (record_each sample rs p)
]

abbrev pub with_interval : ℕ × ℕ → Outcome Group (Unit {0}) → Outcome Group (ℕ × ℕ)
with_interval interval (ok _ g) = ok interval g
with_interval interval (raise err g) = raise err g

unfoldable pub share_table :
    (Request → ℕ) → Request → List Request → Pool → Option BlockTable → Outcome Group (Unit {0})
unfolding fork_members record_each
share_table sample leader others p none =
    raise bad_state (record { members = leader ∷ others; pool = p })
share_table sample leader others p (some t) =
    elim (fork_members leader.prompt_cached_tokens t others p) [
      | raise err g ↦ raise err (record g { members = leader ∷ g.members })
      | ok _ g ↦ record_each sample (leader ∷ g.members) g.pool
    ]

module _ {L : Type 0} where
  -- The leader has the logits of the whole prompt.
  abbrev pub share :
      (L → Request → ℕ) → L → Request → List Request → Pool → Outcome Group (Unit {0})
  share sample logits r others p =
      share_table (sample logits)
        (record r { prompt_cached_tokens = length r.prompt_ids; prefilled = true }) others p
        r.block_table

  unfoldable pub prefill_leader :
      ℕ
      → Option ℕ
      → PromptModel L
      → (L → Request → ℕ)
      → Request
      → List Request
      → Pool
      → Outcome Group (ℕ × ℕ)
  unfolding cache_prompt_chunk share_table
  prefill_leader block_size chunk m sample leader others p =
      elim (cache_prompt_chunk block_size chunk m (record { request = leader; pool = p })) [
        | raise err s ↦ raise err (record { members = s.request ∷ others; pool = s.pool })
        | ok (none, interval) s ↦
            ok interval (record { members = s.request ∷ others; pool = s.pool })
        | ok (some logits, interval) s ↦
            with_interval interval (share sample logits s.request others s.pool)
      ]

  unfoldable pub prefill_shared_group :
      ℕ → Option ℕ → PromptModel L → (L → Request → ℕ) → Group → Outcome Group (ℕ × ℕ)
  unfolding prefill_leader
  prefill_shared_group block_size chunk m sample g = elim g.members [
    | [] ↦ raise index_error g
    | r ∷ rs ↦
        if prompts_differ r.prompt_ids (r ∷ rs)
        then raise bad_state g
        else elim (lead_of r (with_tables (r ∷ rs))) [
          | none ↦ raise bad_state g
          | some leader ↦
              prefill_leader block_size chunk m sample leader (others_of leader (r ∷ rs)) g.pool
        ]
  ]
