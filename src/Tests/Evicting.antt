-- ===== src/Tests/Evicting.antt =====
-- Two running requests in a pool of three blocks.
use llm_infer.Prelude.{
  ℕ, ◌*◌, ◌≡◌, refl, inl, String, false, true, none, some, List, [], ◌∷◌, length, arith, ok, raise,
  too_large, duplicate_request,
}
use llm_infer.KvCache.BlockTable.Ownership.{TableIsValid}
use llm_infer.Serving.Request.{Request}
use llm_infer.Serving.Engine.{Engine, add_request}
use llm_infer.Serving.Engine.Abort.{abort}
use llm_infer.Serving.Engine.Abort.Released.{Aborted, abort-Aborted}
use llm_infer.Serving.Engine.Registration.{add_request_leak}
use llm_infer.Serving.Engine.Preemption.{
  blocks_to_grow, preempt, ensure_pool_room, make_decode_room,
}
use llm_infer.Serving.Engine.Preemption.Validity.{EngineIsValid}
use llm_infer.Serving.Engine.Preemption.Victims.{Preempted, preempt-Preempted}
use llm_infer.Serving.Engine.Preemption.Room.{Roomy, ensure_pool_room-Roomy}
use llm_infer.Serving.Engine.Preemption.Batch.{Fits, make_decode_room-Fits}

abbrev decoding : String → List ℕ → Request
decoding id blocks = record {
  request_id = id;
  prompt_ids = 1 ∷ [];
  max_new_tokens = 5;
  eos_token_ids = 0 ∷ [];
  prefix_group_id = none;
  block_table =
      some
        (record { block_size = 2; blocks = blocks; filled = length blocks * 2; owner = some id });
  prompt_cached_tokens = 1;
  prefilled = true;
  finished = false;
  generated = 4 ∷ 4 ∷ [];
}

abbrev first_request : Request
first_request = decoding "a" (0 ∷ [])

abbrev second_request : Request
second_request = decoding "b" (1 ∷ 2 ∷ [])

-- All blocks are held, and both requests' last blocks are full.
abbrev full_engine : Engine
full_engine = record {
  scheduler = record {
    num_blocks = 3;
    block_size = 2;
    preemption = true;
    waiting = [];
    running = first_request ∷ second_request ∷ [];
    committed_blocks = 3;
    committed_by_request = ("a", 1) ∷ ("b", 2) ∷ [];
  };
  pool = record {
    allocator = record {
      num_blocks = 3;
      free_list = [];
      refcounts = 1 ∷ 1 ∷ 1 ∷ [];
      observed = false;
      events = [];
    };
    prefix_cache = none;
  };
  registered = "a" ∷ "b" ∷ [];
  preemption_count = 0;
}

first-TableIsValid :
    TableIsValid (record { block_size = 2; blocks = 0 ∷ []; filled = 2; owner = some "a" })
first-TableIsValid = record {
  sized = omega arith;
  distinct = λ b. ground arith;
  fits = omega arith;
}

second-TableIsValid :
    TableIsValid (record { block_size = 2; blocks = 1 ∷ 2 ∷ []; filled = 4; owner = some "b" })
second-TableIsValid = record {
  sized = omega arith;
  distinct = λ b. ground arith;
  fits = omega arith;
}

full_engine-EngineIsValid : EngineIsValid full_engine
full_engine-EngineIsValid = record {
  balanced = record { charged = refl; keyed = refl };
  unique = (refl, (refl, tt));
  running_live = ((refl, first-TableIsValid), ((refl, second-TableIsValid), tt));
  queued = tt;
  uncached = refl;
  books = record {
    store_valid = tt;
    accounts = record {
      valid = record { sized = refl; exact = λ b. ground arith };
      held = λ b. ground arith;
    };
  };
}

preempt-Preempted_example :
    (e' : Engine) × (preempt second_request full_engine ≡ ok tt e')
    × Preempted full_engine e' second_request (first_request ∷ []) []
preempt-Preempted_example =
    preempt-Preempted full_engine second_request (first_request ∷ []) [] full_engine-EngineIsValid
      refl

-- The first request needs a second block: the other one is evicted.
grows : blocks_to_grow first_request 1 full_engine ≡ ok 1 full_engine
unfolding blocks_to_grow llm_infer.KvCache.Paged.append_cost llm_infer.KvCache.Paged.count_shared
grows = refl

ensure_pool_room-Roomy_example :
    (e' : Engine) × (ensure_pool_room first_request 1 full_engine ≡ ok tt e')
    × Roomy first_request 1 full_engine e'
ensure_pool_room-Roomy_example =
    ensure_pool_room-Roomy full_engine first_request 1 1 full_engine-EngineIsValid (inl refl) grows
      (omega arith)

-- Each of the two would append one token, in a new block.
make_decode_room-Fits_example :
    (e' : Engine) × (batch : List Request) × (make_decode_room (λ r. 1) ("a" ∷ "b" ∷ []) full_engine
      ≡ ok batch e')
    × Fits (λ r. 1) ("a" ∷ "b" ∷ []) full_engine e' batch
make_decode_room-Fits_example =
    make_decode_room-Fits (λ (r : Request). 1) ("a" ∷ "b" ∷ []) full_engine
      full_engine-EngineIsValid

-- With nine new tokens a request may come to hold five blocks.
abbrev too_long : Request
too_long = record (decoding "c" []) { max_new_tokens = 9 }

add_request_leak_example :
    (e' : Engine) × (add_request true too_long full_engine ≡ raise too_large e')
    × (e'.scheduler ≡ full_engine.scheduler)
    × (add_request true (decoding "c" []) e' ≡ raise duplicate_request e')
add_request_leak_example =
    add_request_leak true too_long (decoding "c" []) full_engine refl refl refl (omega arith) refl

abort-Aborted_example :
    (e' : Engine) × (abort "b" full_engine ≡ ok true e')
    × Aborted full_engine e' second_request (first_request ∷ []) []
unfolding llm_infer.Serving.Engine.find
abort-Aborted_example =
    abort-Aborted full_engine second_request (first_request ∷ []) [] full_engine-EngineIsValid refl
      refl refl
