-- ===== src/Order/Accounts/Ordering.antt =====
-- The order in which the accounts are tried: the same accounts, once each.
use webrana_cloud.Base.{
  Bool-cases, Option-cases, length, filter_where, count_where, count_where-append, ℕ, zero, suc,
  ◌+◌, ◌%◌, ◌≡◌, refl, ◌∙◌, subst, inl, inr, Bool, true, false, some, List, [], ◌∷◌, ◌++◌, arith,
}
use webrana_cloud.Order.Records.{DoAccount}
use webrana_cloud.Order.Accounts.{
  SelectionStrategy, least_used, round_robin, random, primary_first, comes_first, insert, ordered,
  drop, take, at, set_at, swap, shuffle, apply_strategy_reordering,
}

abbrev pub AllWhere : {A : Type 0} → (A → Bool) → List A → Type 0
AllWhere q [] = Unit {0}
AllWhere q (x ∷ xs) = (q x ≡ true) × AllWhere q xs

pub filter_where-AllWhere :
    {A : Type 0} (q : A → Bool) (xs : List A) → AllWhere q (filter_where q xs)
filter_where-AllWhere q [] = tt
filter_where-AllWhere q (x ∷ xs) = elim (Bool-cases (q x)) [
  | inl keep ↦ rw keep (keep, filter_where-AllWhere q xs)
  | inr leave ↦ rw leave (filter_where-AllWhere q xs)
]

insert-AllWhere :
    (q : DoAccount → Bool) (x : DoAccount) (ys : List DoAccount)
    → q x ≡ true
    → AllWhere q ys
    → AllWhere q (insert x ys)
insert-AllWhere q x [] h all = (h, tt)
insert-AllWhere q x (y ∷ ys) h (one, rest) = elim (Bool-cases (comes_first x y)) [
  | inl before ↦ rw before (h, (one, rest))
  | inr after ↦ rw after (one, insert-AllWhere q x ys h rest)
]

pub ordered-AllWhere :
    (q : DoAccount → Bool) (xs : List DoAccount) → AllWhere q xs → AllWhere q (ordered xs)
ordered-AllWhere q [] all = tt
ordered-AllWhere q (x ∷ xs) (one, rest) =
    insert-AllWhere q x (ordered xs) one (ordered-AllWhere q xs rest)

drop-AllWhere :
    {A : Type 0} (q : A → Bool) (k : ℕ) (xs : List A) → AllWhere q xs → AllWhere q (drop k xs)
drop-AllWhere q zero xs all = all
drop-AllWhere q (suc k) [] all = tt
drop-AllWhere q (suc k) (x ∷ xs) (_, rest) = drop-AllWhere q k xs rest

take-AllWhere :
    {A : Type 0} (q : A → Bool) (k : ℕ) (xs : List A) → AllWhere q xs → AllWhere q (take k xs)
take-AllWhere q zero xs all = tt
take-AllWhere q (suc k) [] all = tt
take-AllWhere q (suc k) (x ∷ xs) (one, rest) = (one, take-AllWhere q k xs rest)

append-AllWhere :
    {A : Type 0} (q : A → Bool) (xs ys : List A)
    → AllWhere q xs
    → AllWhere q ys
    → AllWhere q (xs ++ ys)
append-AllWhere q [] ys _ all = all
append-AllWhere q (x ∷ xs) ys (one, rest) all = (one, append-AllWhere q xs ys rest all)

at-AllWhere :
    {A : Type 0} (q : A → Bool) (k : ℕ) (xs : List A) {x : A}
    → at k xs ≡ some x
    → AllWhere q xs
    → q x ≡ true
at-AllWhere q k [] h all = cc
at-AllWhere q zero (y ∷ xs) {x} h (one, _) =
    let same : y ≡ x = cc in subst (λ z. q z ≡ true) same one
at-AllWhere q (suc k) (y ∷ xs) h (_, rest) = at-AllWhere q k xs h rest

set_at-AllWhere :
    {A : Type 0} (q : A → Bool) (k : ℕ) (y : A) (xs : List A)
    → q y ≡ true
    → AllWhere q xs
    → AllWhere q (set_at k y xs)
set_at-AllWhere q k y [] h all = tt
set_at-AllWhere q zero y (x ∷ xs) h (_, rest) = (h, rest)
set_at-AllWhere q (suc k) y (x ∷ xs) h (one, rest) = (one, set_at-AllWhere q k y xs h rest)

swap-AllWhere :
    {A : Type 0} (q : A → Bool) (i j : ℕ) (xs : List A) → AllWhere q xs → AllWhere q (swap i j xs)
swap-AllWhere q i j xs all = elim (Option-cases (at i xs)) [
  | inl outside ↦ rw outside all
  | inr (x, here) ↦ elim (Option-cases (at j xs)) [
    | inl outside ↦ rw (here, outside) all
    | inr (y, there) ↦
        rw (here, there)
          (set_at-AllWhere q i y (set_at j x xs) (at-AllWhere q j xs there all)
            (set_at-AllWhere q j x xs (at-AllWhere q i xs here all) all))
  ]
]

shuffle-AllWhere :
    {A : Type 0} (q : A → Bool) (draw : ℕ → ℕ) (i : ℕ) (xs : List A)
    → AllWhere q xs
    → AllWhere q (shuffle draw i xs)
shuffle-AllWhere q draw zero xs all = all
shuffle-AllWhere q draw (suc i) xs all =
    shuffle-AllWhere q draw i (swap (suc i) (draw (suc i)) xs)
      (swap-AllWhere q (suc i) (draw (suc i)) xs all)

pub reordering-AllWhere :
    (q : DoAccount → Bool) (strategy : SelectionStrategy) (draw : ℕ → ℕ) (last : ℕ)
    (xs : List DoAccount)
    → AllWhere q xs
    → AllWhere q (apply_strategy_reordering strategy draw last xs).0
unfolding apply_strategy_reordering
reordering-AllWhere q strategy draw last [] all = tt
reordering-AllWhere q round_robin draw last (x ∷ xs) all =
    let k = suc last % length (x ∷ xs) in
    append-AllWhere q (drop k (x ∷ xs)) (take k (x ∷ xs)) (drop-AllWhere q k (x ∷ xs) all)
      (take-AllWhere q k (x ∷ xs) all)
reordering-AllWhere q random draw last (x ∷ xs) all =
    shuffle-AllWhere q draw (length xs) (x ∷ xs) all
reordering-AllWhere q least_used draw last (x ∷ xs) all = all
reordering-AllWhere q primary_first draw last (x ∷ xs) all = all

drop-take-count :
    {A : Type 0} (q : A → Bool) (k : ℕ) (xs : List A)
    → count_where q (drop k xs) + count_where q (take k xs) ≡ count_where q xs
drop-take-count q zero xs = omega arith
drop-take-count q (suc k) [] = refl
drop-take-count q (suc k) (x ∷ xs) = ground (arith, drop-take-count q k xs)

abbrev one_if : Bool → ℕ
one_if true = 1
one_if false = 0

set_at-count :
    {A : Type 0} (q : A → Bool) (k : ℕ) (y : A) (xs : List A) {x : A}
    → at k xs ≡ some x
    → count_where q (set_at k y xs) + one_if (q x) ≡ count_where q xs + one_if (q y)
set_at-count q k y [] h = cc
set_at-count q zero y (z ∷ xs) {x} h = let same : z ≡ x = cc in rw same (ground arith)
set_at-count q (suc k) y (z ∷ xs) {x} h = let ih = set_at-count q k y xs h in ground arith

at-set_at :
    {A : Type 0} (i j : ℕ) (xs : List A) {x : A} → at i xs ≡ some x → at i (set_at j x xs) ≡ some x
at-set_at i j [] h = cc
at-set_at zero zero (z ∷ xs) h = refl
at-set_at zero (suc j) (z ∷ xs) h = h
at-set_at (suc i) zero (z ∷ xs) h = h
at-set_at (suc i) (suc j) (z ∷ xs) h = at-set_at i j xs h

swap-count :
    {A : Type 0} (q : A → Bool) (i j : ℕ) (xs : List A)
    → count_where q (swap i j xs) ≡ count_where q xs
swap-count q i j xs = elim (Option-cases (at i xs)) [
  | inl outside ↦ rw outside refl
  | inr (x, here) ↦ elim (Option-cases (at j xs)) [
    | inl outside ↦ rw (here, outside) refl
    | inr (y, there) ↦
        let first = set_at-count q j x xs there in
        let second = set_at-count q i y (set_at j x xs) (at-set_at i j xs here) in
        rw (here, there) (omega arith)
  ]
]

shuffle-count :
    {A : Type 0} (q : A → Bool) (draw : ℕ → ℕ) (i : ℕ) (xs : List A)
    → count_where q (shuffle draw i xs) ≡ count_where q xs
shuffle-count q draw zero xs = refl
shuffle-count q draw (suc i) xs =
    shuffle-count q draw i (swap (suc i) (draw (suc i)) xs) ∙ swap-count q (suc i) (draw (suc i)) xs

-- Every strategy tries each account once: the reordering has as many accounts of any kind as before.
pub apply_strategy_reordering-count :
    (strategy : SelectionStrategy) (draw : ℕ → ℕ) (last : ℕ) (q : DoAccount → Bool)
    (xs : List DoAccount)
    → count_where q (apply_strategy_reordering strategy draw last xs).0 ≡ count_where q xs
unfolding apply_strategy_reordering
apply_strategy_reordering-count strategy draw last q [] = refl
apply_strategy_reordering-count round_robin draw last q (x ∷ xs) =
    let k = suc last % length (x ∷ xs) in
    count_where-append q (drop k (x ∷ xs)) (take k (x ∷ xs)) ∙ drop-take-count q k (x ∷ xs)
apply_strategy_reordering-count random draw last q (x ∷ xs) =
    shuffle-count q draw (length xs) (x ∷ xs)
apply_strategy_reordering-count least_used draw last q (x ∷ xs) = refl
apply_strategy_reordering-count primary_first draw last q (x ∷ xs) = refl
