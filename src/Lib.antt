-- ===== src/Lib.antt =====
-- llm-infer: the KV-cache memory manager, the scheduler, the life of a request and the server's
-- streams.
--
-- The engine serves generation requests in a batch. Each request has a block table, which maps its
-- token positions to slots of a paged cache; an allocator counts the owners of each physical block;
-- a prefix cache keeps the blocks of finished requests for later prompts and gives them back when
-- the pool runs dry; a scheduler admits requests within a budget of blocks. The server runs the
-- engine in a loop of its own and hands each request's tokens to a stream, which its client reads.
--
-- The files, and the code that each models:
--   * Prelude and below: Boolean tests, lists, counting and `Outcome` over native numbers.
--   * KvCache/Allocator: llm_infer/kv_cache/block_allocator.py, `BlockAllocator` but `allocate`,
--     whose part after the eviction step is `hand_out`.
--   * KvCache/PrefixCache: llm_infer/kv_cache/prefix_cache.py, `PrefixCacheStore`.
--   * KvCache/Pool: `BlockAllocator.allocate` with the eviction source that the prefix cache registers.
--   * KvCache/BlockTable: llm_infer/kv_cache/block_table.py, `BlockTable`; its `free` is `release`.
--   * KvCache/Paged: llm_infer/kv_cache/paged_kv_cache.py, `prepare_write`, `write`, `read` and
--     `append_cost`; Plans below it: `plan_pages`, `plan_read_many` and `read_many_plan`.
--   * Model/Decode: llm_infer/model/decode.py, `greedy_decode`.
--   * Serving/Request: llm_infer/serving/request.py, `Request`; its `record` is `record_token`.
--   * Serving/Finish: the end of a request in llm_infer/serving/engine_decode.py,
--     `_donate_to_prefix_cache` and what `_release_finished_in` does to the table.
--   * Serving/Speculative: llm_infer/serving/speculative.py, `PromptLookupDraft.draft` as
--     `draft_tokens`.
--   * Serving/Recorder: the loops of llm_infer/serving/engine_decode.py that record tokens.
--   * Serving/Speculation: `_draft_for`, `_decode_budget` and `_decode_speculative` of the same file,
--     up to the release of a finished request; the model's forward is a parameter.
--   * Serving/Windows: the deferred decode windows of the same file, `_decode_window_step` (in Batches
--     below it), `_flush_decode_window`, `_drain_decode_window` and `_consume_window_flush`; the
--     forward is a parameter, and the host's copy of the tokens is the tokens. The engine has no prefix
--     cache there, and blocks and budgets are not in that state, so that a release cannot raise.
--   * Serving/Engine: the state of llm_infer/serving/engine.py that admission and preemption use, and
--     `add_request`.
--   * Serving/Engine/Preemption: llm_infer/serving/engine_preemption.py, `_blocks_to_grow`, `_preempt`
--     and `_ensure_pool_room`, and `_make_decode_room` of llm_infer/serving/engine_decode.py.
--   * Serving/Engine/Prefill: llm_infer/serving/engine_prefill.py, `_apply_prefix_cache_hit`,
--     `_cache_prompt_chunk` and `_prefill_one`, with `_prefill_requests` for a request by itself, and
--     `_prefill_shared_group` in Serving/Engine/Groups; the model's `prefill` and `prefill_chunk` are a
--     parameter, and so is the sampling.
--   * Serving/Engine/Results, Session and Abort: `StepResult` and `abort` of
--     llm_infer/serving/engine.py, in Abort on the scheduler and the pool after the drain,
--     in Session over the windows and the stash, without blocks, budgets and a prefix cache.
--   * Serving/Server/AsyncEngine: llm_infer/serving/server/async_engine.py, `AsyncInferenceEngine`, over
--     any engine; its consumer, `stream`, is in Consumers below it.
--   * Serving/Server/Streaming: llm_infer/serving/server/streaming.py, on a token stream that is a list
--     of items and possibly an exception after them.
--   * Serving/Server/Metrics: llm_infer/serving/server/metrics.py, `Counter`, `Gauge` and `Histogram`.
--   * Serving/Server/Detokenizer and Serving/Server/Stop: llm_infer/serving/server/detokenizer.py and
--     llm_infer/serving/server/stop.py, the text of a stream and its stop strings. The model passes
--     the text of `feed` on as `receive`.
--   * Scheduler: llm_infer/scheduler/scheduler.py, `Scheduler`.
--   * Serving/Budget: no code of its own; the scheduler's `max_blocks_for` against the block tables.
--   * Tests: concrete pools, stores, tables and queues on which the theorems are applied.
-- Below a component, the files are named for what they prove: Validity, Laws, Ownership, Books.
--
-- State is passed explicitly. A method that may raise gives an `Outcome`: `ok` with a value and the
-- state, or `raise` with an error and the state as the code leaves it, with whatever it has
-- changed before. Loops are recursions on lists, and on a count of rounds that the code fixes
-- beforehand (`range` in `prepare_write`, `max_new_tokens` in `greedy_decode`). The two loops that
-- evict until there is room run on fuel, one round more than there are running requests: each
-- round takes one of these away, so the error `out_of_rounds`, which stands for too little fuel,
-- does not arise from a valid engine.
--
-- Block ids, token ids and counts are natural numbers; what the read plans put in tensors of
-- 32-bit integers overflows or wraps as it does there. Negative arguments, which the code
-- refuses, do not occur. Subtraction stops at 0: the one difference that can be negative, the
-- length of an empty prompt less one in `lookup`, floors to a cap below the block size in both.
-- A request is told apart by its id, which the engine keeps unique, where the code compares
-- objects. A dictionary is an association list in insertion order. A stream of the server is held
-- under a handle, so that what it has received outlives its registration, and a step relation
-- interleaves the calls of the handlers and the consumers with those of the loop. An event that is
-- sent, and a line of the metrics, is its kind with the parts that vary; the numbers that the
-- metrics add and compare are a parameter. What a slot holds is a
-- parameter, and so are the model, by the argmax of its last row of logits, and the tokenizer's
-- `decode`. A text is the list of its code points.
--
-- Not in the model: tensors, sampling and random draws, devices, kernels, traces and profiles, the
-- HTTP routes, batched writes, a backend's own state for a table (`release_table`), the engine's
-- `step` as a whole, the batched prefill, and the recompute after a preemption.
pub mod Prelude
pub mod KvCache
pub mod Model
pub mod Scheduler
pub mod Serving
mod Tests
