-- ===== src/Serving/Engine/Prefill/Forwards.antt =====
-- One chunk of a prompt.
use llm_infer.Prelude.{
  ℕ, ◌+◌, ◌-◌, ◌≤◌, ◌<◌, ◌≡◌, ap, sym, subst, ◌∙◌, ◌⊎◌, inl, inr, true, false, ◌&&◌, Bool-cases,
  Option, none, some, List, arith, ltb, ◌==◌, ==_iff, min, length, if◌then◌else◌, ok,
}
use llm_infer.KvCache.BlockTable.{BlockTable, Held}
use llm_infer.KvCache.Pool.{Pool}
use llm_infer.Serving.Request.{Request}
use llm_infer.Serving.Engine.Prefill.{
  PromptModel, own_table, or_all, forwarded, cached_up_to, cache_prompt_chunk,
}

-- The request after a chunk.
abbrev pub moved : Request → BlockTable → ℕ → Request
moved r t end = record r { block_table = some t; prompt_cached_tokens = end }

module _ {L : Type 0} (m : PromptModel L) (Room : List ℕ → Held → Type 0) where
  -- The model's forwards fill the table as far as they are told, where `Room` holds, and keep it.
  pub record Fills : Type 0 where
    pub whole :
        (prompt : List ℕ) (h : Held)
        → Room prompt h
        → h.table.filled ≡ 0
        → 1 ≤ length prompt
        → (l : L) × (h' : Held) × (m.prefill prompt h ≡ ok l h')
          × (h'.table.filled ≡ length prompt)
          × Room prompt h'
    pub part :
        (prompt : List ℕ) (start count : ℕ) (h : Held)
        → Room prompt h
        → h.table.filled ≡ start
        → 1 ≤ count
        → start + count ≤ length prompt
        → (l : L) × (h' : Held) × (m.prefill_chunk prompt start count h ≡ ok l h')
          × (h'.table.filled ≡ start + count)
          × Room prompt h'

  -- A forward from `start` for `count` tokens gave `l` and left `h'`.
  abbrev pub Forward : List ℕ → ℕ → ℕ → L → Held → Type 0
  Forward prompt start count l h' =
      (h : Held) × (h.table.filled ≡ start)
      × (((start ≡ 0) × (start + count ≡ length prompt) × (m.prefill prompt h ≡ ok l h'))
          ⊎ (m.prefill_chunk prompt start count h ≡ ok l h'))

  module _ (fills : Fills) where
    forwarded_lem :
        (prompt : List ℕ) (start count : ℕ) (h : Held)
        → Room prompt h
        → h.table.filled ≡ start
        → 1 ≤ count
        → start + count ≤ length prompt
        → (l : L) × (h' : Held) × (forwarded m prompt start count h ≡ ok l h')
          × (h'.table.filled ≡ start + count)
          × Room prompt h'
          × Forward prompt start count l h'
    forwarded_lem prompt start count h room at some_tokens within =
        elim (Bool-cases ((start == 0) && (start + count == length prompt))) [
          | inr part ↦
              let (l, h', run, filled, room') =
                fills.part prompt start count h room at some_tokens within in
              (l, h', rw (part) run, filled, room', (h, at, inr run))
          | inl all ↦
              let first : start ≡ 0 = ground arith in
              let last : start + count ≡ length prompt = ground arith in
              let (l, h', run, filled, room') =
                fills.whole prompt h room (at ∙ first) (omega arith) in
              (l, h', rw (all) run, filled ∙ sym last, room', (h, at, inl (first, last, run)))
        ]

    pub cache_prompt_chunk_lem :
        (size : ℕ) (chunk : Option ℕ) (r : Request) (p : Pool)
        → Room r.prompt_ids (record { table = own_table size r; pool = p })
        → (own_table size r).filled ≡ r.prompt_cached_tokens
        → r.prompt_cached_tokens < length r.prompt_ids
        → 1 ≤ or_all chunk (length r.prompt_ids)
        → let start = r.prompt_cached_tokens in
          let total = length r.prompt_ids in
          let end = start + min (or_all chunk total) (total - start) in
          (l : L) × (h' : Held) × (cache_prompt_chunk size chunk m
              (record { request = r; pool = p })
            ≡ ok
                (if ltb end total then none else some l, (start, end))
                (record { request = moved r h'.table end; pool = h'.pool }))
          × (h'.table.filled ≡ end)
          × Room r.prompt_ids h'
          × Forward r.prompt_ids start (end - start) l h'
    unfolding cache_prompt_chunk
    cache_prompt_chunk_lem size chunk r p room at short positive =
        let start = r.prompt_cached_tokens in
        let total = length r.prompt_ids in
        let count = min (or_all chunk total) (total - start) in
        let h : Held = record { table = own_table size r; pool = p } in
        let (l, h', run, filled, room', forward) =
          forwarded_lem r.prompt_ids start count h room at (omega arith) (omega arith) in
        let same : ((own_table size r).filled == start) ≡ true = (==_iff _ _).1 at in
        let left : ltb (total - start) 1 ≡ false = ground arith in
        let counted : count ≡ start + count - start = omega arith in
        (
          l,
          h',
          simp (same, left)
              (ap
                (cached_up_to (record r { block_table = some (own_table size r) }) start
                  (start + count))
                run),
          filled,
          room',
          subst (λ k. Forward r.prompt_ids start k l h') counted forward,
        )
