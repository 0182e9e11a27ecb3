-- ===== src/Serving/Engine/Prefill/Chunks.antt =====
-- The prompt of a request, in chunks over as many steps as it takes.
use llm_infer.Prelude.{
  ℕ, zero, suc, ◌+◌, ◌-◌, ◌*◌, ◌≤◌, ◌<◌, ◌≡◌, refl, ap, subst, ◌∙◌, inl, inr, Bool, true, false,
  ◌||◌, Bool-cases, Option-cases, Option, none, some, List, [], ◌∷◌, ◌++◌, arith, ltb, ltb→lt,
  not-ltb→le, leb, min, length, if◌then◌else◌, Outcome, ok,
}
use llm_infer.KvCache.BlockTable.{BlockTable, Held}
use llm_infer.KvCache.Pool.{Pool}
use llm_infer.Serving.Request.{Request, stops, record_token}
use llm_infer.Serving.Engine.Prefill.{
  PromptModel, Prefilling, own_table, or_all, apply_prefix_cache_hit, cache_prompt_chunk,
  prefill_one, prefill_request, prefill_steps,
}
use llm_infer.Serving.Engine.Prefill.Forwards.{moved, Fills, Forward, cache_prompt_chunk_lem}

-- Chunks that follow one another between two positions, all of size `c` but the last one.
abbrev pub Chunked : ℕ → ℕ → ℕ → List (ℕ × ℕ) → Type 0
Chunked c from to [] = from ≡ to
Chunked c from to ((start, end) ∷ intervals) =
    (start ≡ from) × (end ≡ from + min c (to - from)) × (from < to) × Chunked c end to intervals

fewer :
    (n c start total : ℕ)
    → start + min c (total - start) < total
    → total - start ≤ suc n * c
    → total - (start + min c (total - start)) ≤ n * c
fewer n c start total below enough =
    let more : suc n * c ≡ c + n * c = grind arith in omega (arith, more)

module _ {L : Type 0} (m : PromptModel L) (Room : List ℕ → Held → Type 0) where
  -- The request that has sampled its first token after a whole prompt.
  pub record Prefilled (size : ℕ) (chunk : Option ℕ) (sample : L → ℕ) (r : Request)
      (intervals : List (ℕ × ℕ)) (s' : Prefilling) : Type 0 where
    pub table : BlockTable
    pub logits : L
    pub source :
        (start count : ℕ) × (start + count ≡ length r.prompt_ids)
        × Forward m Room r.prompt_ids start count logits (record { table = table; pool = s'.pool })
    pub recorded :
        record_token (sample logits) none (record r {
          block_table = some table;
          prompt_cached_tokens = length r.prompt_ids;
          prefilled = true;
        })
        ≡ ok tt s'.request
    pub ready : s'.request.prefilled ≡ true
    pub filled : table.filled ≡ length r.prompt_ids
    pub room : Room r.prompt_ids (record { table = table; pool = s'.pool })
    pub chunks :
        Chunked
          (or_all chunk (length r.prompt_ids))
          r.prompt_cached_tokens
          (length r.prompt_ids)
          intervals

  module _ (fills : Fills m Room) where
    prefill_steps_done :
        (n size : ℕ) (chunk : Option ℕ) (sample : L → ℕ) (s : Prefilling)
        → s.request.prefilled ≡ true
        → prefill_steps n size chunk m sample s ≡ ok [] s
    unfolding prefill_steps
    prefill_steps_done zero size chunk sample s done = refl
    prefill_steps_done (suc n) size chunk sample s done = simp (done, prefill_steps)

    record_token_lem :
        (t : ℕ) (r : Request)
        → r.finished ≡ false
        → (r' : Request) × (record_token t none r ≡ ok tt r') × (r'.prefilled ≡ r.prefilled)
    unfolding record_token
    record_token_lem t r going = (
      record r {
        generated = r.generated ++ t ∷ [];
        finished = stops r t none || leb r.max_new_tokens (length (r.generated ++ t ∷ []));
      },
      simp (going) refl,
      refl,
    )

    abbrev answered : ℕ → ℕ → Prefilling → L → Bool → Outcome Prefilling (Option L × (ℕ × ℕ))
    answered start end s l more = ok (if more then none else some l, (start, end)) s

    prefill_one_more :
        (size : ℕ) (chunk : Option ℕ) (sample : L → ℕ) (s s' : Prefilling) (interval : ℕ × ℕ)
        → cache_prompt_chunk size chunk m s ≡ ok (none, interval) s'
        → prefill_one size chunk m sample s ≡ ok interval s'
    unfolding prefill_one
    prefill_one_more size chunk sample s s' interval h = rw (h, prefill_one) refl

    prefill_one_last :
        (size : ℕ) (chunk : Option ℕ) (sample : L → ℕ) (s s' : Prefilling) (interval : ℕ × ℕ)
        (l : L) (r' : Request)
        → cache_prompt_chunk size chunk m s ≡ ok (some l, interval) s'
        → record_token (sample l) none (record (s'.request) { prefilled = true }) ≡ ok tt r'
        → prefill_one size chunk m sample s ≡ ok interval (record { request = r'; pool = s'.pool })
    unfolding prefill_one
    prefill_one_last size chunk sample s s' interval l r' h k = simp (h, k, prefill_one)

    prefill_steps_next :
        (n size : ℕ) (chunk : Option ℕ) (sample : L → ℕ) (s s₀ s₁ s₂ : Prefilling)
        (interval : ℕ × ℕ) (intervals : List (ℕ × ℕ))
        → s.request.prefilled ≡ false
        → apply_prefix_cache_hit size s ≡ ok tt s₀
        → prefill_one size chunk m sample s₀ ≡ ok interval s₁
        → prefill_steps n size chunk m sample s₁ ≡ ok intervals s₂
        → prefill_steps (suc n) size chunk m sample s ≡ ok (interval ∷ intervals) s₂
    unfolding prefill_steps prefill_request
    prefill_steps_next n size chunk sample s s₀ s₁ s₂ interval intervals new seed one rest =
        simp (new, seed, one, rest, prefill_request, prefill_steps)

    -- A request with a table is not seeded again.
    moved_lem :
        (size : ℕ) (r : Request) (t : BlockTable) (end : ℕ) (p : Pool)
        → apply_prefix_cache_hit size (record { request = moved r t end; pool = p })
          ≡ ok tt (record { request = moved r t end; pool = p })
    unfolding apply_prefix_cache_hit
    moved_lem size r t end p = elim (Option-cases p.prefix_cache) [
      | inl off ↦ simp (off) refl
      | inr (store, on) ↦ simp (on) refl
    ]

    -- A request that is not finished is seeded without an exception, if there is something to seed
    -- it from, and then its table, or a new one, is filled as far as its prompt is cached, which is
    -- not to the end. It is prefilled over at least as many steps as what is left has chunks, and
    -- the model's forwards fill the table as far as they are told. Then no step raises; the chunks
    -- follow one another from the cached position to the end of the prompt, all of the configured
    -- size but the last one; the table holds the whole prompt, the request is decode-ready, and it
    -- has recorded the token sampled from the logits that the forward of the last tokens of the
    -- prompt gave with this table, and no other.
    pub prefill_steps-Prefilled :
        (n size : ℕ) (chunk : Option ℕ) (sample : L → ℕ) (s : Prefilling) (r : Request) (p : Pool)
        → s.request.prefilled ≡ false
        → apply_prefix_cache_hit size s ≡ ok tt (record { request = r; pool = p })
        → Room r.prompt_ids (record { table = own_table size r; pool = p })
        → (own_table size r).filled ≡ r.prompt_cached_tokens
        → r.prompt_cached_tokens < length r.prompt_ids
        → 1 ≤ or_all chunk (length r.prompt_ids)
        → r.prefilled ≡ false
        → r.finished ≡ false
        → length r.prompt_ids - r.prompt_cached_tokens ≤ n * or_all chunk (length r.prompt_ids)
        → (intervals : List (ℕ × ℕ)) × (s' : Prefilling) × (prefill_steps n size chunk m sample s
            ≡ ok intervals s')
          × Prefilled size chunk sample r intervals s'
    unfolding prefill_steps prefill_one
    prefill_steps-Prefilled zero size chunk sample s r p unready seed room at short positive new
          going enough =
        absurd (omega arith)
    prefill_steps-Prefilled (suc n) size chunk sample s r p unready seed room at short positive new
          going enough =
        let start = r.prompt_cached_tokens in
        let total = length r.prompt_ids in
        let c = or_all chunk total in
        let end = start + min c (total - start) in
        let (l, h', run, filled, room', forward) =
          cache_prompt_chunk_lem m Room fills size chunk r p room at short positive in
        let s₀ : Prefilling = record { request = r; pool = p } in
        let s₁ : Prefilling = record { request = moved r h'.table end; pool = h'.pool } in
        elim (Bool-cases (ltb end total)) [
          | inl more ↦
              let part = run ∙ ap (answered start end s₁ l) more in
              let below = ltb→lt end total more in
              let (intervals, s₂, steps, done) =
                prefill_steps-Prefilled n size chunk sample s₁ (moved r h'.table end) h'.pool new
                  (moved_lem size r h'.table end h'.pool) room' filled below positive new going
                  (fewer n c start total below enough) in
              (
                (start, end) ∷ intervals,
                s₂,
                prefill_steps_next n size chunk sample s s₀ s₁ s₂ (start, end) intervals unready
                    seed (prefill_one_more size chunk sample s₀ s₁ (start, end) part) steps,
                record {
                  table = done.table;
                  logits = done.logits;
                  source = done.source;
                  recorded = done.recorded;
                  ready = done.ready;
                  filled = done.filled;
                  room = done.room;
                  chunks = (refl, refl, short, done.chunks);
                },
              )
          | inr complete ↦
              let whole = run ∙ ap (answered start end s₁ l) complete in
              let at_end : end ≡ total = omega (arith, not-ltb→le end total complete) in
              let (r', token, kept) =
                record_token_lem (sample l) (record (moved r h'.table end) { prefilled = true })
                  going in
              let s₂ : Prefilling = record { request = r'; pool = h'.pool } in
              (
                (start, end) ∷ [],
                s₂,
                prefill_steps_next n size chunk sample s s₀ s₂ s₂ (start, end) [] unready seed
                    (prefill_one_last size chunk sample s₀ s₁ (start, end) l r' whole token)
                    (prefill_steps_done n size chunk sample s₂ kept),
                record {
                  table = h'.table;
                  logits = l;
                  source = (start, end - start, omega (arith, at_end, short), forward);
                  recorded =
                      subst
                        (λ e.
                          record_token (sample l) none
                            (record (moved r h'.table e) { prefilled = true })
                          ≡ ok tt r')
                        at_end token;
                  ready = kept;
                  filled = filled ∙ at_end;
                  room = room';
                  chunks = (refl, refl, short, at_end);
                },
              )
        ]
