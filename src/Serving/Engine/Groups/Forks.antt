-- ===== src/Serving/Engine/Groups/Forks.antt =====
-- The tables of a group that is prefilled together.
use text.Mathlib.Text.{◌==◌ as str_eq}
use text.Mathlib.TextEquality.{eq_iff}
use llm_infer.Prelude.{
  ◌≢◌, inl, inr, Bool-cases, ℕ, ◌≡◌, refl, ap, ◌∙◌, true, false, ◌||◌, Option, none, some, List, [],
  ◌∷◌, ◌++◌, map, arith, leb, length, replicate, owned-append, ok,
}
use llm_infer.KvCache.Pool.{Pool}
use llm_infer.KvCache.Pool.Budget.{Books}
use llm_infer.KvCache.Pool.Sharing.{Books-same}
use llm_infer.KvCache.BlockTable.{BlockTable}
use llm_infer.KvCache.BlockTable.Ownership.{TableIsValid, fork_shared-Books}
use llm_infer.Serving.Request.{Request, stops, record_token}
use llm_infer.Serving.Engine.Prefill.{PromptModel, Prefilling, cache_prompt_chunk}
use llm_infer.Serving.Engine.Groups.{
  Group, prompts_differ, with_tables, lead_of, others_of, sharing, fork_members, record_each,
  share_table, share, prefill_leader, prefill_shared_group,
}

fork_members-Books :
    (cached : ℕ) (t : BlockTable) (rs : List Request) (p : Pool) (tables : List (List ℕ))
    → TableIsValid t
    → Books p (t.blocks ∷ tables)
    → (p' : Pool) × (fork_members cached t rs p
        ≡ ok tt (record { members = map (sharing cached t) rs; pool = p' }))
      × Books p' (replicate (length rs) t.blocks ++ t.blocks ∷ tables)
unfolding fork_members
fork_members-Books cached t [] p tables v books = (p, refl, books)
fork_members-Books cached t (r ∷ rs) p tables v books =
    let (p₁, fork, books₁, _) = fork_shared-Books t p tables v books in
    let (p₂, run, books₂) = fork_members-Books cached t rs p₁ (t.blocks ∷ tables) v books₁ in
    (
      p₂,
      simp (fork, run, fork_members) refl,
      Books-same _ _
          (λ b. omega (
            arith,
            owned-append b (replicate (length rs) t.blocks) (t.blocks ∷ t.blocks ∷ tables),
            owned-append b (replicate (length rs) t.blocks) (t.blocks ∷ tables),
          ))
          books₂,
    )

abbrev pub Unfinished : List Request → Type 0
Unfinished [] = Unit {0}
Unfinished (r ∷ rs) = (r.finished ≡ false) × Unfinished rs

-- A request has recorded the token that is sampled for it, and is as before but for its end.
pub record Gained (sample : Request → ℕ) (r r' : Request) : Type 0 where
  pub name : r'.request_id ≡ r.request_id
  pub table : r'.block_table ≡ r.block_table
  pub cached : r'.prompt_cached_tokens ≡ r.prompt_cached_tokens
  pub ready : r'.prefilled ≡ r.prefilled
  pub token : r'.generated ≡ r.generated ++ sample r ∷ []

abbrev AllGained : (Request → ℕ) → List Request → List Request → Type 0
AllGained sample [] [] = Unit {0}
AllGained sample (r ∷ rs) (r' ∷ rs') = Gained sample r r' × AllGained sample rs rs'
AllGained sample [] (r' ∷ rs') = ⊥
AllGained sample (r ∷ rs) [] = ⊥

record_each-Gained :
    (sample : Request → ℕ) (rs : List Request) (p : Pool)
    → Unfinished rs
    → (rs' : List Request) × (record_each sample rs p ≡ ok tt (record { members = rs'; pool = p }))
      × AllGained sample rs rs'
unfolding record_each record_token
record_each-Gained sample [] p going = ([], refl, tt)
record_each-Gained sample (r ∷ rs) p (first, going) =
    let (rs', run, each) = record_each-Gained sample rs p going in
    let token = sample r in
    let r' : Request = record r {
      generated = r.generated ++ token ∷ [];
      finished = stops r token none || leb r.max_new_tokens (length (r.generated ++ token ∷ []));
    } in
    let one : record_token token none r ≡ ok tt r' = simp (first, record_token) refl in
    (
      r' ∷ rs',
      simp (one, run, record_each) refl,
      (record { name = refl; table = refl; cached = refl; ready = refl; token = refl }, each),
    )

sharing-Unfinished :
    (cached : ℕ) (t : BlockTable) (rs : List Request)
    → Unfinished rs
    → Unfinished (map (sharing cached t) rs)
sharing-Unfinished cached t [] going = tt
sharing-Unfinished cached t (r ∷ rs) (first, going) = (first, sharing-Unfinished cached t rs going)

-- A member that starts to decode: it has the table, its prompt of `n` tokens is cached, and it has
-- the token that is sampled for it with that table.
pub record Started (sample : Request → ℕ) (n : ℕ) (t : BlockTable) (r r' : Request) : Type 0 where
  pub name : r'.request_id ≡ r.request_id
  pub table : r'.block_table ≡ some t
  pub cached : r'.prompt_cached_tokens ≡ n
  pub ready : r'.prefilled ≡ true
  pub token :
      r'.generated
      ≡ r.generated
        ++ sample (record r { block_table = some t; prompt_cached_tokens = n; prefilled = true })
          ∷ []

-- The members that share a table, each under its own name.
abbrev pub AllStarted : (Request → ℕ) → ℕ → BlockTable → List Request → List Request → Type 0
AllStarted sample n t [] [] = Unit {0}
AllStarted sample n t (r ∷ rs) (r' ∷ rs') =
    Started sample n (record t { owner = some r.request_id }) r r' × AllStarted sample n t rs rs'
AllStarted sample n t [] (r' ∷ rs') = ⊥
AllStarted sample n t (r ∷ rs) [] = ⊥

Gained-Started :
    (sample : Request → ℕ) (n : ℕ) (t : BlockTable) (rs rs' : List Request)
    → AllGained sample (map (sharing n t) rs) rs'
    → AllStarted sample n t rs rs'
Gained-Started sample n t [] [] each = tt
Gained-Started sample n t [] (r' ∷ rs') each = absurd each
Gained-Started sample n t (r ∷ rs) [] each = absurd each
Gained-Started sample n t (r ∷ rs) (r' ∷ rs') (g, each) = (
  record { name = g.name; table = g.table; cached = g.cached; ready = g.ready; token = g.token },
  Gained-Started sample n t rs rs' each,
)

-- The group after its prefill, the leader first.
pub record Sampled (sample : Request → ℕ) (t : BlockTable) (leader : Request)
    (others members : List Request) : Type 0 where
  pub first : Request
  pub later : List Request
  pub split : members ≡ first ∷ later
  pub leads : Started sample (length leader.prompt_ids) t leader first
  pub follow : AllStarted sample (length leader.prompt_ids) t others later

abbrev pub AllOther : Request → List Request → Type 0
AllOther leader [] = Unit {0}
AllOther leader (r ∷ rs) = (r.request_id ≢ leader.request_id) × AllOther leader rs

not_leader :
    (leader r : Request)
    → r.request_id ≢ leader.request_id
    → str_eq r.request_id leader.request_id ≡ false
not_leader leader r other = elim (Bool-cases (str_eq r.request_id leader.request_id)) [
  | inl same ↦ absurd (other ((eq_iff r.request_id leader.request_id).0 same))
  | inr differ ↦ differ
]

others_of-other :
    (leader : Request) (rs : List Request) → AllOther leader rs → others_of leader rs ≡ rs
others_of-other leader [] other = refl
others_of-other leader (r ∷ rs) (new, other) =
    rw (not_leader leader r new) (ap (◌∷◌ r) (others_of-other leader rs other))

others_of_lem :
    (leader : Request) (before after : List Request)
    → AllOther leader before
    → AllOther leader after
    → others_of leader (before ++ leader ∷ after) ≡ before ++ after
others_of_lem leader [] after _ other =
    let own : str_eq leader.request_id leader.request_id ≡ true =
      (eq_iff leader.request_id leader.request_id).1 refl in
    rw (own) (others_of-other leader after other)
others_of_lem leader (r ∷ before) after (new, other) rest =
    rw (not_leader leader r new) (ap (◌∷◌ r) (others_of_lem leader before after other rest))

-- The leader that has prefilled the last chunk.
abbrev pub prefilled_leader : Request → Request
prefilled_leader r = record r { prompt_cached_tokens = length r.prompt_ids; prefilled = true }

gained-Sampled :
    (sample : Request → ℕ) (t : BlockTable) (r : Request) (others rs : List Request)
    → r.block_table ≡ some t
    → AllGained sample (prefilled_leader r ∷ map (sharing (length r.prompt_ids) t) others) rs
    → Sampled sample t r others rs
gained-Sampled sample t r others [] table each = absurd each
gained-Sampled sample t r others (r' ∷ rs) table (g, each) = record {
  first = r';
  later = rs;
  split = refl;
  leads = record {
    name = g.name;
    table = g.table ∙ table;
    cached = g.cached;
    ready = g.ready;
    token =
        g.token
        ∙ ap
            (λ b.
              r.generated
              ++ sample (record r {
                block_table = b;
                prompt_cached_tokens = length r.prompt_ids;
                prefilled = true;
              })
                ∷ [])
            table;
  };
  follow = Gained-Started sample (length r.prompt_ids) t others rs each;
}

share_table_lem :
    (sample : Request → ℕ) (leader : Request) (others : List Request) (p p' : Pool) (t : BlockTable)
    (g : Group)
    → let forks = map (sharing leader.prompt_cached_tokens t) others in
      (fork_members leader.prompt_cached_tokens t others p
        ≡ ok tt (record { members = forks; pool = p' }))
      → record_each sample (leader ∷ forks) p' ≡ ok tt g
      → share_table sample leader others p (some t) ≡ ok tt g
unfolding share_table
share_table_lem sample leader others p p' t g run recorded = rw (run, share_table) recorded

module _ {L : Type 0} where
  share_lem :
      (sample : L → Request → ℕ) (l : L) (r : Request) (others : List Request) (p : Pool)
      (t : BlockTable) (tables : List (List ℕ))
      → r.block_table ≡ some t
      → TableIsValid t
      → Books p (t.blocks ∷ tables)
      → r.finished ≡ false
      → Unfinished others
      → (g : Group) × (share sample l r others p ≡ ok tt g)
        × Books g.pool (replicate (length others) t.blocks ++ t.blocks ∷ tables)
        × Sampled (sample l) t r others g.members
  share_lem sample l r others p t tables table v books going others_going =
      let n = length r.prompt_ids in
      let (p', run, books') = fork_members-Books n t others p tables v books in
      let (rs, recorded, each) =
        record_each-Gained (sample l) (prefilled_leader r ∷ map (sharing n t) others) p'
          (going, sharing-Unfinished n t others others_going) in
      let g : Group = record { members = rs; pool = p' } in
      let leader = prefilled_leader r in
      (
        g,
        ap (share_table (sample l) leader others p) table
            ∙ share_table_lem (sample l) leader others p p' t g run recorded,
        books',
        gained-Sampled (sample l) t r others rs table each,
      )

  prefill_leader_lem :
      (size : ℕ) (chunk : Option ℕ) (m : PromptModel L) (sample : L → Request → ℕ)
      (leader : Request) (others : List Request) (p : Pool) (l : L) (interval : ℕ × ℕ)
      (s : Prefilling) (g : Group)
      → cache_prompt_chunk size chunk m (record { request = leader; pool = p })
        ≡ ok (some l, interval) s
      → share sample l s.request others s.pool ≡ ok tt g
      → prefill_leader size chunk m sample leader others p ≡ ok interval g
  unfolding prefill_leader
  prefill_leader_lem size chunk m sample leader others p l interval s g h k =
      simp (h, k, prefill_leader) refl

  -- A prefix group has one prompt and at most one member with a table; its leader, the member with
  -- the table or the first one, differs in its id from the others, and this step caches the last
  -- chunk of the leader, after which its table is valid, the refcounts are exact, and no member is
  -- finished. Then the step does not raise. The leader keeps its table, and every other member, in
  -- the order of the group, has the same blocks in a table under its own name; each is decode-ready
  -- with its whole prompt cached, and has as its one new token the one that is sampled for it with
  -- that table; and the refcounts are exact with one owner more of the leader's blocks for each
  -- other member.
  pub prefill_shared_group-Sampled :
      (size : ℕ) (chunk : Option ℕ) (m : PromptModel L) (sample : L → Request → ℕ) (first : Request)
      (rest before after : List Request) (p : Pool) (leader : Request) (l : L) (interval : ℕ × ℕ)
      (s : Prefilling) (t : BlockTable) (tables : List (List ℕ))
      → prompts_differ first.prompt_ids (first ∷ rest) ≡ false
      → lead_of first (with_tables (first ∷ rest)) ≡ some leader
      → first ∷ rest ≡ before ++ leader ∷ after
      → AllOther leader before
      → AllOther leader after
      → cache_prompt_chunk size chunk m (record { request = leader; pool = p })
        ≡ ok (some l, interval) s
      → s.request.block_table ≡ some t
      → TableIsValid t
      → Books s.pool (t.blocks ∷ tables)
      → s.request.finished ≡ false
      → Unfinished (before ++ after)
      → (g : Group) × (prefill_shared_group size chunk m sample
            (record { members = first ∷ rest; pool = p })
          ≡ ok interval g)
        × Books g.pool (replicate (length (before ++ after)) t.blocks ++ t.blocks ∷ tables)
        × Sampled (sample l) t s.request (before ++ after) g.members
  unfolding prefill_shared_group
  prefill_shared_group-Sampled size chunk m sample first rest before after p leader l interval s t
        tables same led split unlike unlike' chunked table v books going others_going =
      let others : others_of leader (first ∷ rest) ≡ before ++ after =
        ap (others_of leader) split ∙ others_of_lem leader before after unlike unlike' in
      let (g, shared, books', each) =
        share_lem sample l s.request (before ++ after) s.pool t tables table v books going
          others_going in
      let led_run =
        prefill_leader_lem size chunk m sample leader (before ++ after) p l interval s g chunked
          shared in
      (g, rw (same, led, others) led_run, books', each)
