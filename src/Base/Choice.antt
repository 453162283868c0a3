-- ===== src/Base/Choice.antt =====
-- A choice that the database makes among rows.
use webrana_cloud.Base.Logic.{Bool-cases}
use webrana_cloud.Base.Table.{find, filter_where, count_where}
use Prim.Native.Nat.{ℕ, zero, suc, ◌≤◌}
use mathlib.Core.Path.{◌≡◌, refl, ap, ◌∙◌}
use mathlib.Core.Logic.{inl, inr}
use mathlib.Core.Bool.{Bool}
use mathlib.Core.Option.{Option, none, some}
use mathlib.Core.List.{List, [], ◌∷◌}
use native.Mathlib.Omega.{arith}

module _ {A : Type 0} where
  -- `findFirst` without an order, among the rows that match: any of them, by a number that tells
  -- how many to pass over as long as there are more.
  abbrev pub pick : ℕ → List A → Option A
  pick n [] = none
  pick zero (x ∷ xs) = some x
  pick (suc n) (x ∷ xs) = elim (pick n xs) [ none ↦ some x | some y ↦ some y ]

  filter_where-none : (p : A → Bool) (xs : List A) → count_where p xs ≡ 0 → filter_where p xs ≡ []
  filter_where-none p [] h = refl
  filter_where-none p (x ∷ xs) h = ground (arith, filter_where-none p xs)

  pick-one : (n : ℕ) (x : A) → pick n (x ∷ []) ≡ some x
  pick-one zero x = refl
  pick-one (suc n) x = refl

  -- Where at most one row matches, any match is the first.
  pub pick-filter_where :
      (n : ℕ) (p : A → Bool) (xs : List A)
      → count_where p xs ≤ 1
      → pick n (filter_where p xs) ≡ find p xs
  pick-filter_where n p [] h = refl
  pick-filter_where n p (x ∷ xs) h = elim (Bool-cases (p x)) [
    | inl hit ↦
        let rest = filter_where-none p xs (ground (arith, h, hit)) in
        rw hit (ap (λ ys. pick n (x ∷ ys)) rest ∙ pick-one n x)
    | inr miss ↦ rw miss (pick-filter_where n p xs (ground (arith, h, miss)))
  ]
