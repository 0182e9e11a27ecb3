-- ===== src/Prelude/Counts.antt =====
-- How often a number stands in a list, in lists of lists, and sums over a range of numbers.
use Prim.Native.Nat.{ℕ, zero, suc, ◌+◌, ◌≤◌, ◌<◌}
use mathlib.Core.Path.{◌≡◌, refl}
use mathlib.Core.Bool.{Bool, true, false, ◌||◌}
use mathlib.Core.List.{List, [], ◌∷◌, ◌++◌}
use native.Mathlib.Omega.{arith}
use llm_infer.Prelude.Tests.{◌==◌, leb, ltb, if◌then◌else◌}
use llm_infer.Prelude.Lists.{length, take, drop, range}

abbrev pub tally : Bool → ℕ
tally true = 1
tally false = 0

abbrev pub count : ℕ → List ℕ → ℕ
count b [] = 0
count b (x ∷ xs) = tally (x == b) + count b xs

-- `b in xs`
abbrev pub member : ℕ → List ℕ → Bool
member b [] = false
member b (x ∷ xs) = x == b || member b xs

pub member-count : (b : ℕ) (xs : List ℕ) → member b xs ≡ ltb 0 (count b xs)
member-count b [] = refl
member-count b (x ∷ xs) = ground (arith, member-count b xs)

pub count-append : (b : ℕ) (xs ys : List ℕ) → count b (xs ++ ys) ≡ count b xs + count b ys
count-append b [] ys = omega arith
count-append b (x ∷ xs) ys = ground (arith, count-append b xs ys)

pub count-take-drop :
    (b n : ℕ) (xs : List ℕ) → count b (take n xs) + count b (drop n xs) ≡ count b xs
count-take-drop b zero xs = omega arith
count-take-drop b (suc n) [] = refl
count-take-drop b (suc n) (x ∷ xs) = ground (arith, count-take-drop b n xs)

pub count-range : (b i n : ℕ) → count b (range i n) ≡ (if leb i b then tally (ltb b (i + n)) else 0)
count-range b i zero = ground arith
count-range b i (suc n) = ground (arith, count-range b (suc i) n)

pub length-range : (i n : ℕ) → length (range i n) ≡ n
length-range i zero = refl
length-range i (suc n) = omega (arith, length-range (suc i) n)

-- How many of the lists hold a number, with multiplicity.
abbrev pub owned : ℕ → List (List ℕ) → ℕ
owned b [] = 0
owned b (t ∷ ts) = count b t + owned b ts

pub owned-append : (b : ℕ) (ts us : List (List ℕ)) → owned b (ts ++ us) ≡ owned b ts + owned b us
owned-append b [] us = omega arith
owned-append b (t ∷ ts) us = omega (arith, owned-append b ts us)

abbrev pub sum_below : ℕ → (ℕ → ℕ) → ℕ
sum_below zero f = 0
sum_below (suc n) f = f n + sum_below n f

pub sum_below_add :
    (n : ℕ) (f g h : ℕ → ℕ)
    → ((i : ℕ) → h i ≡ f i + g i)
    → sum_below n h ≡ sum_below n f + sum_below n g
sum_below_add zero f g h e = omega arith
sum_below_add (suc n) f g h e = omega (arith, e n, sum_below_add n f g h e)

pub sum_below_eq :
    (n : ℕ) (f g : ℕ → ℕ) → ((i : ℕ) → i < n → f i ≡ g i) → sum_below n f ≡ sum_below n g
sum_below_eq zero f g e = refl
sum_below_eq (suc n) f g e =
    omega (arith, e n (omega arith), sum_below_eq n f g (λ i h. e i (omega arith)))

pub sum_below_point : (n x : ℕ) → sum_below n (λ b. tally (x == b)) ≡ tally (ltb x n)
sum_below_point zero x = ground arith
sum_below_point (suc n) x = ground (arith, sum_below_point n x)

pub sum_below_zero : (n : ℕ) → sum_below n (λ _. 0) ≡ 0
sum_below_zero zero = refl
sum_below_zero (suc n) = omega (arith, sum_below_zero n)

pub sum_below_le : (n : ℕ) (f g : ℕ → ℕ) → ((i : ℕ) → f i ≤ g i) → sum_below n f ≤ sum_below n g
sum_below_le zero f g e = omega arith
sum_below_le (suc n) f g e = omega (arith, e n, sum_below_le n f g e)

pub sum_below_one : (n : ℕ) → sum_below n (λ _. 1) ≡ n
sum_below_one zero = refl
sum_below_one (suc n) = omega (arith, sum_below_one n)

-- A list of numbers below `n` has the length that its counts add up to.
pub length-sum_counts :
    (n : ℕ) (xs : List ℕ)
    → ((b : ℕ) → n ≤ b → count b xs ≡ 0)
    → length xs ≡ sum_below n (λ b. count b xs)
length-sum_counts n [] h = omega (arith, sum_below_zero n)
length-sum_counts n (x ∷ xs) h = ground (
  arith,
  sum_below_add n (λ b. tally (x == b)) (λ b. count b xs) (λ b. count b (x ∷ xs)) (λ i. refl),
  sum_below_point n x,
  h x,
  length-sum_counts n xs (λ b k. ground (arith, h b)),
)
