-- ===== src/Tests/Prefilling.antt =====
-- A prompt of seven tokens whose first four are cached.
use llm_infer.Prelude.{ℕ, ◌+◌, ◌≡◌, ◌⊎◌, refl, false, none, some, List, [], ◌∷◌, length, arith, ok}
use llm_infer.KvCache.Pool.Budget.{Books}
use llm_infer.KvCache.BlockTable.{Held}
use llm_infer.KvCache.PrefixCache.Lookups.{Longest}
use llm_infer.Serving.Request.{Request}
use llm_infer.Serving.Engine.Prefill.{
  PromptModel, Prefilling, apply_prefix_cache_hit, prefill_steps,
}
use llm_infer.Serving.Engine.Prefill.Seeding.{Seeded, apply_prefix_cache_hit-Seeded}
use llm_infer.Serving.Engine.Prefill.Forwards.{Fills}
use llm_infer.Serving.Engine.Prefill.Chunks.{Prefilled, prefill_steps-Prefilled}
use llm_infer.Tests.{small_store, small_pool, held_tables, shared_pool, shared_pool-Books}

abbrev pub prompted : List ℕ → Request
prompted prompt = record {
  request_id = "a";
  prompt_ids = prompt;
  max_new_tokens = 5;
  eos_token_ids = 0 ∷ [];
  prefix_group_id = none;
  block_table = none;
  prompt_cached_tokens = 0;
  prefilled = false;
  finished = false;
  generated = [];
}

abbrev longer_turn : Request
longer_turn = prompted (5 ∷ 6 ∷ 7 ∷ 8 ∷ 9 ∷ 9 ∷ 9 ∷ [])

abbrev new_turn : Prefilling
new_turn = record { request = longer_turn; pool = shared_pool }

-- After the hit the request shares the cached blocks.
abbrev seeded_turn : Prefilling
seeded_turn = record {
  request = record longer_turn {
    block_table =
        some (record { block_size = 2; blocks = 0 ∷ 1 ∷ []; filled = 4; owner = some "a" });
    prompt_cached_tokens = 4;
  };
  pool = record {
    allocator = record small_pool { refcounts = 3 ∷ 2 ∷ 0 ∷ 0 ∷ [] };
    prefix_cache = some (record small_store { hits = 1; hit_tokens = 4 });
  };
}

-- A model that fills the table and gives the position it has reached.
abbrev pub counting : PromptModel ℕ
counting = record {
  prefill = λ prompt h.
      ok (length prompt) (record h { table = record (h.table) { filled = length prompt } });
  prefill_chunk = λ prompt start count h.
      ok (start + count) (record h { table = record (h.table) { filled = start + count } });
}

abbrev OfSizeTwo : List ℕ → Held → Type 0
OfSizeTwo prompt h = h.table.block_size ≡ 2

counting-Fills : Fills counting OfSizeTwo
counting-Fills = record {
  whole = λ prompt h room at some_tokens. (
    length prompt,
    record h { table = record (h.table) { filled = length prompt } },
    refl,
    refl,
    room,
  );
  part = λ prompt start count h room at some_tokens within. (
    start + count,
    record h { table = record (h.table) { filled = start + count } },
    refl,
    refl,
    room,
  );
}

seeds : apply_prefix_cache_hit 2 new_turn ≡ ok tt seeded_turn
unfolding apply_prefix_cache_hit llm_infer.KvCache.Allocator.retain
seeds = refl

two_chunks :
    (s' : Prefilling) × (prefill_steps 5 2 (some 2) counting (λ l. l) new_turn
      ≡ ok ((4, 6) ∷ (6, 7) ∷ []) s')
unfolding prefill_steps llm_infer.KvCache.Allocator.retain
two_chunks = (_, refl)

apply_prefix_cache_hit-Seeded_example :
    (s' : Prefilling) × (apply_prefix_cache_hit 2 new_turn ≡ ok tt s')
    × (((s'.request ≡ longer_turn)
          × Books s'.pool held_tables
          × Longest 2 small_store.entries longer_turn.prompt_ids 0)
        ⊎ Seeded longer_turn small_store held_tables s')
apply_prefix_cache_hit-Seeded_example =
    apply_prefix_cache_hit-Seeded longer_turn shared_pool small_store held_tables refl
      shared_pool-Books refl refl

prefill_steps-Prefilled_example :
    (intervals : List (ℕ × ℕ)) × (s' : Prefilling) × (prefill_steps 2 2
        (some 2)
        counting
        (λ l. l)
        new_turn
      ≡ ok intervals s')
    × Prefilled counting OfSizeTwo 2 (some 2) (λ l. l) seeded_turn.request intervals s'
prefill_steps-Prefilled_example =
    prefill_steps-Prefilled counting OfSizeTwo counting-Fills 2 2 (some 2) (λ l. l) new_turn
      seeded_turn.request seeded_turn.pool refl seeds refl refl (omega arith) (omega arith) refl
      refl (omega arith)
