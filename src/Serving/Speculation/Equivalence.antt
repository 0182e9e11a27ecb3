-- ===== src/Serving/Speculation/Equivalence.antt =====
-- A speculative turn is some turns of plain greedy decoding.
use llm_infer.Prelude.{
  ℕ, zero, suc, ◌+◌, ◌≤◌, min, ◌≡◌, refl, ap, sym, ◌∙◌, inl, inr, true, false, Bool-cases, Option,
  some, List, [], ◌∷◌, ◌++◌, arith, ◌==◌, length, length-append, Outcome, ok,
}
use llm_infer.KvCache.Pool.{Pool}
use llm_infer.KvCache.Pool.Budget.{Books}
use llm_infer.KvCache.BlockTable.{BlockTable, Held, ceil_div}
use llm_infer.KvCache.BlockTable.Ownership.{TableIsValid, trim_to_length-Books}
use llm_infer.Serving.Request.{Request, last_token}
use llm_infer.Serving.Request.Recording.{served, served-finished}
use llm_infer.Serving.Recorder.{record_tokens}
use llm_infer.Serving.Recorder.Greedy.{next_state, served_step, record_tokens-served}
use llm_infer.Serving.Speculation.{
  Turn, turned, trimmed, emitted_tokens, settle_draft, decode_speculative,
}
use llm_infer.Serving.Speculation.Emission.{verified, emitted_tokens-Emits}

abbrev with_table : Request → Option BlockTable → Request
with_table r t = record r { block_table = t }

-- Serving alone neither reads nor writes the table.
served-with_table :
    (model : List ℕ → ℕ) (n : ℕ) (r : Request) (t : Option BlockTable)
    → served model n (with_table r t) ≡ with_table (served model n r) t
unfolding served
served-with_table model zero r t = refl
served-with_table model (suc n) r t = elim (Bool-cases r.finished) [
  | inl done ↦
      served-finished model (suc n) (with_table r t) done
      ∙ ap (λ u. with_table u t) (sym (served-finished model (suc n) r done))
  | inr going ↦
      served_step model n (with_table r t) going
      ∙ served-with_table model n (next_state r (model (r.prompt_ids ++ r.generated))) t
      ∙ ap (λ u. with_table u t) (sym (served_step model n r going))
]

served-prompt :
    (model : List ℕ → ℕ) (n : ℕ) (r : Request) → (served model n r).prompt_ids ≡ r.prompt_ids
unfolding served
served-prompt model zero r = refl
served-prompt model (suc n) r = elim (Bool-cases r.finished) [
  | inl done ↦ ap (λ (u : Request). u.prompt_ids) (served-finished model (suc n) r done)
  | inr going ↦
      ap (λ (u : Request). u.prompt_ids) (served_step model n r going)
      ∙ served-prompt model n (next_state r (model (r.prompt_ids ++ r.generated)))
]

-- A request that is not finished has recorded every token.
unfinished-length :
    (model : List ℕ → ℕ) (n : ℕ) (r : Request)
    → (served model n r).finished ≡ false
    → length (served model n r).generated ≡ length r.generated + n
unfolding served
unfinished-length model zero r h = omega arith
unfinished-length model (suc n) r h = elim (Bool-cases r.finished) [
  | inl done ↦
      let same = served-finished model (suc n) r done in
      let over : true ≡ false = sym done ∙ ap (λ (u : Request). u.finished) (sym same) ∙ h in
      absurd (cc)
  | inr going ↦
      let t = model (r.prompt_ids ++ r.generated) in
      let same = served_step model n r going in
      let rest =
        unfinished-length model n (next_state r t)
          (ap (λ (u : Request). u.finished) (sym same) ∙ h) in
      ap (λ (u : Request). length u.generated) same
      ∙ omega (arith, rest, length-append r.generated (t ∷ []))
]

-- How a turn ends: in a valid table on exact books, trimmed if the request goes on.
record Ended (others : List (List ℕ)) (r : Request) (h : Held) (turn : Turn) : Type 0 where
  pub table : BlockTable
  pub request_is : turn.request ≡ with_table r (some table)
  pub valid : TableIsValid table
  pub books : Books turn.pool (table.blocks ∷ others)
  pub filled_is : table.filled ≡ h.table.filled
  pub exact : r.finished ≡ false → length table.blocks ≡ ceil_div table.filled table.block_size

trimmed-Ended :
    (others : List (List ℕ)) (r : Request) (h : Held)
    → TableIsValid h.table
    → Books h.pool (h.table.blocks ∷ others)
    → (turn : Turn) × (trimmed r h ≡ ok tt turn) × Ended others r h turn
trimmed-Ended others r h v b = elim (Bool-cases r.finished) [
  | inl done ↦ (
    turned r h,
    rw (done) refl,
    record {
      table = h.table;
      request_is = refl;
      valid = v;
      books = b;
      filled_is = refl;
      exact = λ going. absurd (cc);
    },
  )
  | inr going ↦
      let (h', run, is, size, v', b', _) = trim_to_length-Books h.table h.pool others v b in
      let kept : h'.table.filled ≡ h.table.filled = ap (λ (t : BlockTable). t.filled) is in
      let sized : h'.table.block_size ≡ h.table.block_size =
        ap (λ (t : BlockTable). t.block_size) is in
      (
        turned r h',
        simp (going, run, trimmed),
        record {
          table = h'.table;
          request_is = refl;
          valid = v';
          books = b';
          filled_is = kept;
          exact = λ _. size ∙ rw (kept, sized) refl;
        },
      )
]

-- The held table with its length set for `n` tokens and `k` emitted ones.
abbrev shortened : ℕ → ℕ → Held → Held
shortened n k h = record h { table = record (h.table) { filled = min (n + k) h.table.filled } }

settle_draft-Ended :
    (others : List (List ℕ)) (ts : List ℕ) (n : ℕ) (r r' : Request) (h : Held)
    → record_tokens ts (with_table r (some ((shortened n (length ts) h).table))) ≡ ok tt r'
    → 1 ≤ length ts
    → TableIsValid h.table
    → Books h.pool (h.table.blocks ∷ others)
    → (turn : Turn) × (settle_draft ts n r h ≡ ok tt turn)
      × Ended others r' (shortened n (length ts) h) turn
unfolding settle_draft
settle_draft-Ended others ts n r r' h run more v b =
    let left : (length ts == 0) ≡ false = ground arith in
    let v' : TableIsValid ((shortened n (length ts) h).table) = record {
      sized = v.sized;
      distinct = v.distinct;
      fits = omega (arith, v.fits);
    } in
    let (turn, ends, e) = trimmed-Ended others r' (shortened n (length ts) h) v' b in
    (turn, simp (left, run, ends, settle_draft), e)

-- One speculative turn on a request with a table and a last token never raises, where the forward
-- returns the model's argmax rows and a valid table on exact books with room for the last token and
-- the draft, and the table held all but the last token: the request is then, but for its table, the
-- request served alone for `k` tokens, with `k` at least one and at most one more than the draft's;
-- its table stays valid on exact books; and if it is not finished, the table holds all but its last
-- token, in the least number of blocks.
pub decode_speculative-served :
    (model : List ℕ → ℕ) (decode_tokens : List ℕ → Held → Outcome Held (List ℕ))
    (others : List (List ℕ)) (draft : List ℕ) (r : Request) (p : Pool) (t : BlockTable) (last : ℕ)
    (h : Held)
    → r.block_table ≡ some t
    → last_token r ≡ some last
    → decode_tokens (last ∷ draft) (record { table = t; pool = p })
      ≡ ok (verified model (r.prompt_ids ++ r.generated) draft) h
    → TableIsValid h.table
    → Books h.pool (h.table.blocks ∷ others)
    → h.table.filled ≡ t.filled + suc (length draft)
    → t.filled + 1 ≡ length (r.prompt_ids ++ r.generated)
    → (k : ℕ) × (turn : Turn) × (table : BlockTable) × (decode_speculative decode_tokens draft
          (record { request = r; pool = p })
        ≡ ok tt turn)
      × (1 ≤ k)
      × (k ≤ suc (length draft))
      × (turn.request ≡ record (served model k r) { block_table = some table })
      × TableIsValid table
      × Books turn.pool (table.blocks ∷ others)
      × ((served model k r).finished ≡ false
          → (table.filled + 1 ≡ length (r.prompt_ids ++ (served model k r).generated))
            × (length table.blocks ≡ ceil_div table.filled table.block_size))
unfolding decode_speculative
decode_speculative-served model decode_tokens others draft r p t last h some_table some_last run v b
      grew cached =
    let context = r.prompt_ids ++ r.generated in
    let ts = emitted_tokens r.eos_token_ids draft (verified model context draft) in
    let e = emitted_tokens-Emits model r.eos_token_ids context draft in
    let r' = with_table r (some ((shortened t.filled (length ts) h).table)) in
    let recorded : record_tokens ts r'
        ≡ ok tt (with_table (served model (length ts) r) r'.block_table) =
      record_tokens-served model ts r' e.greedy
      ∙ ap (ok tt) (served-with_table model (length ts) r r'.block_table) in
    let (turn, ends, end) = settle_draft-Ended others ts t.filled r _ h recorded e.some_token v b in
    (
      length ts,
      turn,
      end.table,
      simp (some_table, some_last, run, ends, decode_speculative),
      e.some_token,
      e.bounded,
      end.request_is,
      end.valid,
      end.books,
      λ going. (
        omega (
          arith,
          end.filled_is,
          e.bounded,
          unfinished-length model (length ts) r going,
          length-append r.prompt_ids r.generated,
          length-append r.prompt_ids (served model (length ts) r).generated,
        ),
        end.exact going,
      ),
    )
