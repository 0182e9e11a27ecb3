-- ===== src/Serving/Server/Detokenizer.antt =====
-- llm_infer/serving/server/detokenizer.py: from token ids to text, a part at a time. A text is the list
-- of its code points. The tokenizer's `decode` is a parameter.
use llm_infer.Prelude.{ℕ, Bool, false, List, [], ◌∷◌, ◌++◌, ◌==◌, if◌then◌else◌, length, take, drop}

-- U+FFFD
abbrev pub replacement : ℕ
replacement = 65533

abbrev pub ends_open : List ℕ → Bool
ends_open [] = false
ends_open (c ∷ []) = c == replacement
ends_open (c ∷ d ∷ text) = ends_open (d ∷ text)

pub record Detokenizer : Type 0 where
  pub token_ids : List ℕ
  pub prefix_offset : ℕ
  pub read_offset : ℕ

abbrev pub fresh_detokenizer : Detokenizer
fresh_detokenizer = record { token_ids = []; prefix_offset = 0; read_offset = 0 }

unfoldable pub emit : (List ℕ → List ℕ) → List ℕ → Detokenizer → List ℕ × Detokenizer
emit decode window d =
    let emitted = decode (drop d.prefix_offset (take d.read_offset d.token_ids)) in
    (
      drop (length emitted) window,
      record d { prefix_offset = d.read_offset; read_offset = length d.token_ids },
    )

unfoldable pub feed_token : (List ℕ → List ℕ) → ℕ → Detokenizer → List ℕ × Detokenizer
unfolding emit
feed_token decode token_id d =
    let d' = record d { token_ids = d.token_ids ++ token_id ∷ [] } in
    let window = decode (drop d.prefix_offset d'.token_ids) in
    if ends_open window then ([], d') else emit decode window d'

unfoldable pub flush : (List ℕ → List ℕ) → Detokenizer → List ℕ × Detokenizer
unfolding emit
flush decode d = emit decode (decode (drop d.prefix_offset d.token_ids)) d
