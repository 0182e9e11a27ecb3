-- ===== src/Serving/Engine/Prefill.antt =====
-- llm_infer/serving/engine_prefill.py for one request outside a prefix group, on an engine without
-- preemption: the seed from the prefix cache, and the prompt in chunks, one for each step. The
-- model's two prefill methods are a parameter, and so is the sampling of a row of logits. The
-- release of a request that its first token finishes is in Serving/Finish.
pub mod Chunks
pub mod Forwards
pub mod Seeding
use llm_infer.Prelude.{
  ℕ, zero, suc, ◌+◌, ◌-◌, min, String, Bool, true, false, not, ◌&&◌, Option, none, some, List, [],
  ◌∷◌, ltb, ◌==◌, if◌then◌else◌, length, bad_state, Outcome, ok, raise,
}
use llm_infer.KvCache.PrefixCache.{PrefixCacheHit, lookup}
use llm_infer.KvCache.Pool.{Pool, shared, unshared}
use llm_infer.KvCache.BlockTable.{BlockTable, Held, empty_table}
use llm_infer.Serving.Request.{Request, record_token}
use llm_infer.Serving.Engine.{grouped}

-- `prefill` and `prefill_chunk`, the second from a position for a number of tokens. `L` is what they
-- give of the last row of logits.
pub record PromptModel (L : Type 0) : Type 0 where
  pub prefill : List ℕ → Held → Outcome Held L
  pub prefill_chunk : List ℕ → ℕ → ℕ → Held → Outcome Held L

pub record Prefilling : Type 0 where
  pub request : Request
  pub pool : Pool

-- `self.cache.new_request()` with its owner, if the request has no table.
abbrev pub own_table : ℕ → Request → BlockTable
own_table block_size r = elim r.block_table [
  | some t ↦ t
  | none ↦ empty_table block_size (some r.request_id)
]

abbrev pub seeded : ℕ → Request → PrefixCacheHit → Request
seeded block_size r hit = record r {
  block_table = some (record {
    block_size = block_size;
    blocks = hit.block_ids;
    filled = hit.tokens;
    owner = some r.request_id;
  });
  prompt_cached_tokens = hit.tokens;
}

abbrev pub has_table : Request → Bool
has_table r = elim r.block_table [ none ↦ false | some t ↦ true ]

abbrev pub seed_from :
    ℕ → Request → Outcome Pool (Option PrefixCacheHit) → Outcome Prefilling (Unit {0})
seed_from block_size r (raise err p) = raise err (record { request = r; pool = p })
seed_from block_size r (ok none p) = ok tt (record { request = r; pool = p })
seed_from block_size r (ok (some hit) p) =
    ok tt (record { request = seeded block_size r hit; pool = p })

unfoldable pub apply_prefix_cache_hit : ℕ → Prefilling → Outcome Prefilling (Unit {0})
unfolding lookup
apply_prefix_cache_hit block_size s = elim s.pool.prefix_cache [
  | none ↦ ok tt s
  | some store ↦
      if not (has_table s.request) && not (grouped s.request)
      then seed_from block_size s.request
          (unshared (lookup s.request.prompt_ids (shared s.pool store)))
      else ok tt s
]

-- `self.prefill_chunk_size or len(request.prompt_ids)`
abbrev pub or_all : Option ℕ → ℕ → ℕ
or_all none total = total
or_all (some zero) total = total
or_all (some (suc c)) total = suc c

abbrev pub recorded : ℕ × ℕ → Pool → Outcome Request (Unit {0}) → Outcome Prefilling (ℕ × ℕ)
recorded interval p (ok _ r) = ok interval (record { request = r; pool = p })
recorded interval p (raise err r) = raise err (record { request = r; pool = p })

module _ {L : Type 0} where
  abbrev pub forwarded : PromptModel L → List ℕ → ℕ → ℕ → Held → Outcome Held L
  forwarded m prompt start count h =
      if (start == 0) && (start + count == length prompt)
      then m.prefill prompt h
      else m.prefill_chunk prompt start count h

  -- After the forward: the logits if the prompt is complete, and the chunk.
  abbrev pub cached_up_to :
      Request → ℕ → ℕ → Outcome Held L → Outcome Prefilling (Option L × (ℕ × ℕ))
  cached_up_to r start end (raise err h) =
      raise err (record { request = record r { block_table = some h.table }; pool = h.pool })
  cached_up_to r start end (ok logits h) =
      ok (if ltb end (length r.prompt_ids) then none else some logits, (start, end))
        (record {
          request = record r { block_table = some h.table; prompt_cached_tokens = end };
          pool = h.pool;
        })

  unfoldable pub cache_prompt_chunk :
      ℕ → Option ℕ → PromptModel L → Prefilling → Outcome Prefilling (Option L × (ℕ × ℕ))
  cache_prompt_chunk block_size chunk m s =
      let r = s.request in
      let t = own_table block_size r in
      let start = r.prompt_cached_tokens in
      let remaining = length r.prompt_ids - start in
      let count = min (or_all chunk (length r.prompt_ids)) remaining in
      let begun : Prefilling = record s { request = record r { block_table = some t } } in
      if not (t.filled == start)
      then raise bad_state begun
      else if ltb remaining 1
      then raise bad_state begun
      else cached_up_to begun.request start (start + count)
          (forwarded m r.prompt_ids start count (record { table = t; pool = s.pool }))

  unfoldable pub prefill_one :
      ℕ → Option ℕ → PromptModel L → (L → ℕ) → Prefilling → Outcome Prefilling (ℕ × ℕ)
  unfolding cache_prompt_chunk record_token
  prefill_one block_size chunk m sample s = elim (cache_prompt_chunk block_size chunk m s) [
    | raise err s' ↦ raise err s'
    | ok (none, interval) s' ↦ ok interval s'
    | ok (some logits, interval) s' ↦
        recorded interval s'.pool
          (record_token (sample logits) none (record (s'.request) { prefilled = true }))
  ]

  unfoldable pub prefill_request :
      ℕ → Option ℕ → PromptModel L → (L → ℕ) → Prefilling → Outcome Prefilling (ℕ × ℕ)
  unfolding apply_prefix_cache_hit prefill_one
  prefill_request block_size chunk m sample s = elim (apply_prefix_cache_hit block_size s) [
    | raise err s' ↦ raise err s'
    | ok _ s' ↦ prefill_one block_size chunk m sample s'
  ]

  -- The prefills of some steps, as long as the request is not decode-ready: the chunks.
  unfoldable pub prefill_steps :
      ℕ → ℕ → Option ℕ → PromptModel L → (L → ℕ) → Prefilling → Outcome Prefilling (List (ℕ × ℕ))
  unfolding prefill_request
  prefill_steps zero block_size chunk m sample s = ok [] s
  prefill_steps (suc n) block_size chunk m sample s = elim s.request.prefilled [
    | true ↦ ok [] s
    | false ↦ elim (prefill_request block_size chunk m sample s) [
      | raise err s' ↦ raise err s'
      | ok interval s' ↦ elim (prefill_steps n block_size chunk m sample s') [
        | raise err s'' ↦ raise err s''
        | ok intervals s'' ↦ ok (interval ∷ intervals) s''
      ]
    ]
  ]
