-- ===== src/Serving/Server/AsyncEngine/Streams.antt =====
-- One stream: open, ended, or cut off by a consumer whose event loop is closed.
use llm_infer.Prelude.{
  ℕ, suc, ◌+◌, ◌≤◌, ◌<◌, ◌≡◌, refl, ap, sym, subst, ◌∙◌, ◌⊎◌, inl, inr, Bool, true, false,
  Bool-cases, Option, none, some, List, [], ◌∷◌, ◌++◌, arith, tally, ◌==◌, Error,
}
use llm_infer.Serving.Server.AsyncEngine.{TokenStreamItem, Stream, update, put_item, failed}

-- The ends of the stream on a queue, and whether one stands last.
abbrev pub marks : List (Option (List TokenStreamItem)) → ℕ
marks [] = 0
marks (none ∷ q) = suc (marks q)
marks (some b ∷ q) = marks q

abbrev pub ends_last : List (Option (List TokenStreamItem)) → Bool
ends_last [] = false
ends_last (none ∷ []) = true
ends_last (some b ∷ []) = false
ends_last (x ∷ y ∷ q) = ends_last (y ∷ q)

abbrev pub IsOpen : Stream → Type 0
IsOpen s = (marks s.queue ≡ 0) × (s.error ≡ none)

abbrev pub IsEnded : Stream → Type 0
IsEnded s = (marks s.queue ≡ 1) × (ends_last s.queue ≡ true)

abbrev pub IsSilent : Stream → Type 0
IsSilent s = (s.loop_closed ≡ true) × (marks s.queue ≡ 0)

-- A stream that `n` places refer to.
abbrev pub Held : Stream → ℕ → Type 0
Held s n = ((n ≡ 1) × IsOpen s) ⊎ ((n ≡ 0) × (IsEnded s ⊎ IsSilent s))

marks-end : (q : List (Option (List TokenStreamItem))) → marks (q ++ none ∷ []) ≡ suc (marks q)
marks-end [] = refl
marks-end (none ∷ q) = ap suc (marks-end q)
marks-end (some b ∷ q) = marks-end q

marks-burst :
    (q : List (Option (List TokenStreamItem))) (b : List TokenStreamItem)
    → marks (q ++ some b ∷ []) ≡ marks q
marks-burst [] b = refl
marks-burst (none ∷ q) b = ap suc (marks-burst q b)
marks-burst (some c ∷ q) b = marks-burst q b

ends_last-end : (q : List (Option (List TokenStreamItem))) → ends_last (q ++ none ∷ []) ≡ true
ends_last-end [] = refl
ends_last-end (none ∷ []) = refl
ends_last-end (some b ∷ []) = refl
ends_last-end (x ∷ y ∷ q) = ends_last-end (y ∷ q)

pub put_item-closed :
    (item : Option (List TokenStreamItem)) (s : Stream) → s.loop_closed ≡ true → put_item item s ≡ s
put_item-closed item s h = simp (h) refl

pub put_item-open :
    (item : Option (List TokenStreamItem)) (s : Stream)
    → s.loop_closed ≡ false
    → put_item item s ≡ record s { queue = s.queue ++ item ∷ [] }
put_item-open item s h = simp (h) refl

put_item-IsEnded :
    (s : Stream) → marks s.queue ≡ 0 → IsEnded (put_item none s) ⊎ IsSilent (put_item none s)
put_item-IsEnded s h = elim (Bool-cases s.loop_closed) [
  | inl gone ↦ inr (subst IsSilent (sym (put_item-closed none s gone)) (gone, h))
  | inr there ↦ inl (
      subst IsEnded (sym (put_item-open none s there))
        (omega (arith, marks-end s.queue), ends_last-end s.queue))
]

-- The end of an open stream, without and with an error.
pub end-Held : (s : Stream) → Held s 1 → Held (put_item none s) 0
end-Held s (inl (_, (clear, fine))) = inr (refl, put_item-IsEnded s clear)
end-Held s (inr (gone, _)) = absurd (omega arith)

pub failed-Held : (err : Error) (s : Stream) → Held s 1 → Held (failed err s) 0
failed-Held err s (inl (_, (clear, fine))) =
    inr (refl, put_item-IsEnded (record s { error = some err }) clear)
failed-Held err s (inr (gone, _)) = absurd (omega arith)

pub burst-Held :
    (b : List TokenStreamItem) (s : Stream) (n : ℕ)
    → 1 ≤ n
    → Held s n
    → Held (put_item (some b) s) n
burst-Held b s n pos (inl (one, (clear, fine))) = elim (Bool-cases s.loop_closed) [
  | inl gone ↦
      subst (λ t. Held t n) (sym (put_item-closed (some b) s gone)) (inl (one, (clear, fine)))
  | inr there ↦
      subst (λ t. Held t n) (sym (put_item-open (some b) s there))
        (inl (one, (marks-burst s.queue b ∙ clear, fine)))
]
burst-Held b s n pos (inr (gone, _)) = absurd (omega arith)

-- Places that refer to the streams below `next`, `n h` of them to the stream `h`.
pub record Books (next : ℕ) (n : ℕ → ℕ) (cells : ℕ → Stream) : Type 0 where
  pub each : (h : ℕ) → h < next → Held (cells h) (n h)
  pub beyond : (h : ℕ) → next ≤ h → n h ≡ 0

pub Books-same :
    (next : ℕ) (n n' : ℕ → ℕ) (cells : ℕ → Stream)
    → ((h : ℕ) → n' h ≡ n h)
    → Books next n cells
    → Books next n' cells
Books-same next n n' cells e b = record {
  each = λ h lt. subst (Held (cells h)) (sym (e h)) (b.each h lt);
  beyond = λ h le. e h ∙ b.beyond h le;
}

pub update_self : (h : ℕ) (s : Stream) (cells : ℕ → Stream) → update h s cells h ≡ s
update_self h s cells = ground arith

pub update_ne :
    (h k : ℕ) (s : Stream) (cells : ℕ → Stream) → (h == k) ≡ false → update h s cells k ≡ cells k
update_ne h k s cells e = rw (e) refl

Held-one : (s : Stream) (n : ℕ) → 1 ≤ n → Held s n → (n ≡ 1) × Held s 1
Held-one s n pos (inl (one, open_still)) = (one, inl (refl, open_still))
Held-one s n pos (inr (gone, _)) = absurd (omega arith)

-- One place less: its stream is closed.
pub close-Books :
    (next : ℕ) (n n' : ℕ → ℕ) (cells : ℕ → Stream) (h : ℕ) (s : Stream)
    → ((k : ℕ) → tally (h == k) + n' k ≡ n k)
    → (Held (cells h) 1 → Held s 0)
    → Books next n cells
    → Books next n' (update h s cells)
close-Books next n n' cells h s e close b = record {
  each = λ k lt. elim (Bool-cases (h == k)) [
    | inl same ↦
        let is : h ≡ k = ground arith in
        subst (λ j. Held (update h s cells j) (n' j)) is
          (subst (λ t. Held t (n' h)) (sym (update_self h s cells))
            (let (one, held) =
                Held-one (cells h) (n h) (ground (arith, e h)) (b.each h (ground arith)) in
              let none_left : 0 ≡ n' h = ground (arith, e h, one) in
              subst (Held s) none_left (close held)))
    | inr other ↦
        subst (λ t. Held t (n' k)) (sym (update_ne h k s cells other))
          (subst (Held (cells k)) (ground (arith, e k)) (b.each k lt))
  ];
  beyond = λ k le. omega (arith, e k, b.beyond k le);
}

-- A change of one stream that stays held as it is.
pub quiet-Books :
    (next : ℕ) (n : ℕ → ℕ) (cells : ℕ → Stream) (h : ℕ) (s : Stream)
    → (Held (cells h) (n h) → Held s (n h))
    → Books next n cells
    → Books next n (update h s cells)
quiet-Books next n cells h s quiet b = record {
  each = λ k lt. elim (Bool-cases (h == k)) [
    | inl same ↦
        let is : h ≡ k = ground arith in
        subst (λ j. Held (update h s cells j) (n j)) is
          (subst (λ t. Held t (n h)) (sym (update_self h s cells))
            (quiet (b.each h (ground arith))))
    | inr other ↦ subst (λ t. Held t (n k)) (sym (update_ne h k s cells other)) (b.each k lt)
  ];
  beyond = b.beyond;
}

-- A burst for a stream that some place refers to.
pub burst-Books :
    (next : ℕ) (n : ℕ → ℕ) (cells : ℕ → Stream) (h : ℕ) (items : List TokenStreamItem)
    → 1 ≤ n h
    → Books next n cells
    → Books next n (update h (put_item (some items) (cells h)) cells)
burst-Books next n cells h items pos b =
    quiet-Books next n cells h _ (burst-Held items (cells h) (n h) pos) b
