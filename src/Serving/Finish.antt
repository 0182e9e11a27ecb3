-- ===== src/Serving/Finish.antt =====
-- The end of a request, `_release_finished_in` of llm_infer/serving/engine_decode.py: its cached prefix
-- is donated to the prefix cache, and then its block table is freed. `release_table`, which drops the
-- state of a backend, is not in the model.
pub mod Donation
use llm_infer.Prelude.{
  ℕ, ◌+◌, ◌*◌, ◌/◌, Bool, true, false, Option, none, some, List, ◌++◌, ltb, if◌then◌else◌, length,
  take, Outcome, ok, raise,
}
use llm_infer.KvCache.PrefixCache.{PrefixCacheStore, donate}
use llm_infer.KvCache.Pool.{Pool, shared, unshared}
use llm_infer.KvCache.BlockTable.{BlockTable, Held, holding, release}
use llm_infer.Serving.Request.{Request}

-- `cached_tokens`: the whole blocks that the table has filled.
abbrev pub cached_tokens : BlockTable → ℕ
cached_tokens t = t.filled / t.block_size * t.block_size

unfoldable pub donate_to_prefix_cache : Request → BlockTable → Pool → Outcome Pool (Unit {0})
donate_to_prefix_cache r t p = elim p.prefix_cache [
  | none ↦ ok tt p
  | some store ↦
      if ltb (cached_tokens t) t.block_size
      then ok tt p
      else unshared (
          donate (take (cached_tokens t) (r.prompt_ids ++ r.generated))
            (take (cached_tokens t / t.block_size) t.blocks) (shared p store))
]

-- What happens to the table of a finished request.
unfoldable pub finish_table : Request → BlockTable → Pool → Outcome Held (Unit {0})
unfolding donate_to_prefix_cache
finish_table r t p = elim (donate_to_prefix_cache r t p) [
  | ok _ p' ↦ release (record { table = t; pool = p' })
  | raise e p' ↦ raise e (record { table = t; pool = p' })
]
