-- ===== src/Base/Table.antt =====
-- A database table as the list of its rows, newest first. The keys by which rows are found are
-- unique columns, so the first match is the row.
use webrana_cloud.Base.Logic.{if◌then◌else◌, Bool-cases}
use webrana_cloud.Base.Int.{ℤ, pos, ◌+ℤ◌, int_laws}
use Prim.Native.Nat.{ℕ, suc, ◌+◌, ◌<◌}
use mathlib.Core.Path.{◌≡◌, refl, sym, subst}
use mathlib.Core.Logic.{inl, inr}
use mathlib.Core.Bool.{Bool, true, false, not, ◌||◌}
use mathlib.Core.Option.{Option, none, some}
use mathlib.Core.List.{List, [], ◌∷◌, ◌++◌}
use native.Mathlib.Omega.{arith}

module _ {A : Type 0} where
  abbrev pub length : List A → ℕ
  length [] = 0
  length (_ ∷ xs) = suc (length xs)

  -- `findUnique`, and `Array.find`.
  abbrev pub find : (A → Bool) → List A → Option A
  find p [] = none
  find p (x ∷ xs) = if p x then some x else find p xs

  -- `update`: the row with the key is written.
  abbrev pub update_row : (A → Bool) → (A → A) → List A → List A
  update_row p f [] = []
  update_row p f (x ∷ xs) = if p x then f x ∷ xs else x ∷ update_row p f xs

  -- `delete`: the row with the key is removed.
  abbrev pub delete_row : (A → Bool) → List A → List A
  delete_row p [] = []
  delete_row p (x ∷ xs) = if p x then xs else x ∷ delete_row p xs

  -- `updateMany`: all matching rows are written.
  abbrev pub update_where : (A → Bool) → (A → A) → List A → List A
  update_where p f [] = []
  update_where p f (x ∷ xs) = (if p x then f x else x) ∷ update_where p f xs

  -- `Array.filter`, and the `where` of `findMany`.
  abbrev pub filter_where : (A → Bool) → List A → List A
  filter_where p [] = []
  filter_where p (x ∷ xs) = let rest = filter_where p xs in if p x then x ∷ rest else rest

  -- `count`, and the count that `updateMany` and `deleteMany` report.
  abbrev pub count_where : (A → Bool) → List A → ℕ
  count_where p [] = 0
  count_where p (x ∷ xs) = let rest = count_where p xs in if p x then suc rest else rest

  -- `Array.some`.
  abbrev pub some_where : (A → Bool) → List A → Bool
  some_where p [] = false
  some_where p (x ∷ xs) = p x || some_where p xs

  -- The sum of a column.
  abbrev pub sum_of : (A → ℤ) → List A → ℤ
  sum_of f [] = pos 0
  sum_of f (x ∷ xs) = f x +ℤ sum_of f xs

  pub find_sound : (p : A → Bool) (xs : List A) {a : A} → find p xs ≡ some a → p a ≡ true
  find_sound p [] h = cc
  find_sound p (x ∷ xs) {a} h = elim (Bool-cases (p x)) [
    | inl hit ↦ cc (rw hit at h)
    | inr miss ↦ find_sound p xs (rw miss at h)
  ]

  -- Writing a row changes the sum of a column by the difference in that row.
  pub sum_of-update_row :
      (p : A → Bool) (f : A → ℤ) (g : A → A) (xs : List A) {a : A}
      → find p xs ≡ some a
      → sum_of f (update_row p g xs) +ℤ f a ≡ sum_of f xs +ℤ f (g a)
  sum_of-update_row p f g [] h = cc
  sum_of-update_row p f g (x ∷ xs) {a} h = elim (Bool-cases (p x)) [
    | inl hit ↦ rw hit (let same : x ≡ a = cc (rw hit at h) in rw same (grind int_laws))
    | inr miss ↦ rw miss (grind (int_laws, sum_of-update_row p f g xs (rw miss at h)))
  ]

  pub length-filter_where :
      (p : A → Bool) (xs : List A) → length (filter_where p xs) ≡ count_where p xs
  length-filter_where p [] = refl
  length-filter_where p (x ∷ xs) = ground (arith, length-filter_where p xs)

  -- `deleteMany`: all matching rows are removed.
  abbrev pub delete_where : (A → Bool) → List A → List A
  delete_where p xs = filter_where (λ x. not (p x)) xs

  -- A row that is found and kept is still found.
  pub find-filter_where :
      (p q : A → Bool) (xs : List A) {a : A}
      → find p xs ≡ some a
      → q a ≡ true
      → find p (filter_where q xs) ≡ some a
  find-filter_where p q [] h k = cc
  find-filter_where p q (x ∷ xs) {a} h k = elim (Bool-cases (p x)) [
    | inl hit ↦ let same : x ≡ a = cc (rw hit at h) in ground (arith, same)
    | inr miss ↦ ground (arith, find-filter_where p q xs (rw miss at h) k)
  ]

  -- Where no row is found, none is found among fewer.
  pub find-none-filter_where :
      (p q : A → Bool) (xs : List A) → find p xs ≡ none → find p (filter_where q xs) ≡ none
  find-none-filter_where p q [] h = refl
  find-none-filter_where p q (x ∷ xs) h = ground (arith, find-none-filter_where p q xs)

  -- Nothing that was removed is found.
  pub find-delete_where :
      (p q : A → Bool) (xs : List A)
      → ((x : A) → p x ≡ true → q x ≡ true)
      → find p (delete_where q xs) ≡ none
  find-delete_where p q [] h = refl
  find-delete_where p q (x ∷ xs) h = ground (arith, find-delete_where p q xs h, h x)

  -- A row that is found and not matched by an update of other columns is found unchanged.
  pub find-update_where :
      (p q : A → Bool) (f : A → A) (xs : List A) {a : A}
      → ((x : A) → p (f x) ≡ p x)
      → find p xs ≡ some a
      → q a ≡ false
      → find p (update_where q f xs) ≡ some a
  find-update_where p q f [] key h k = cc
  find-update_where p q f (x ∷ xs) {a} key h k = elim (Bool-cases (p x)) [
    | inl hit ↦ let same : x ≡ a = cc (rw hit at h) in ground (arith, same)
    | inr miss ↦ ground (arith, key x, find-update_where p q f xs key (rw miss at h) k)
  ]

  pub count_where-append :
      (p : A → Bool) (xs ys : List A)
      → count_where p (xs ++ ys) ≡ count_where p xs + count_where p ys
  count_where-append p [] ys = omega arith
  count_where-append p (x ∷ xs) ys = ground (arith, count_where-append p xs ys)

  -- Writing other columns changes no count.
  pub count_where-update_row :
      (p q : A → Bool) (f : A → A) (xs : List A)
      → ((x : A) → p (f x) ≡ p x)
      → count_where p (update_row q f xs) ≡ count_where p xs
  count_where-update_row p q f [] h = refl
  count_where-update_row p q f (x ∷ xs) h = ground (arith, count_where-update_row p q f xs h, h x)

  pub count_where-update_where :
      (p q : A → Bool) (f : A → A) (xs : List A)
      → ((x : A) → p (f x) ≡ p x)
      → count_where p (update_where q f xs) ≡ count_where p xs
  count_where-update_where p q f [] h = refl
  count_where-update_where p q f (x ∷ xs) h =
      ground (arith, count_where-update_where p q f xs h, h x)

  -- A property of the row that is found survives a write that keeps the key and the property.
  pub find-update_row_keeps :
      (p q r : A → Bool) (f : A → A) (xs : List A) {a : A}
      → ((x : A) → p (f x) ≡ p x)
      → ((x : A) → q x ≡ true → q (f x) ≡ true)
      → find p xs ≡ some a
      → q a ≡ true
      → (b : A) × (find p (update_row r f xs) ≡ some b) × (q b ≡ true)
  find-update_row_keeps p q r f [] key keep h k = cc
  find-update_row_keeps p q r f (x ∷ xs) {a} key keep h k = elim (Bool-cases (p x)) [
    | inl hit ↦
        let same : x ≡ a = cc (rw hit at h) in
        let good : q x ≡ true = subst (λ y. q y ≡ true) (sym same) k in
        elim (Bool-cases (r x)) [
          | inl write ↦ (f x, ground (arith, key x), keep x good)
          | inr leave ↦ (x, ground arith, good)
        ]
    | inr miss ↦ elim (Bool-cases (r x)) [
      | inl write ↦ (a, ground (arith, key x), k)
      | inr leave ↦
          let (b, e, good) = find-update_row_keeps p q r f xs key keep (rw miss at h) k in
          (b, ground arith, good)
    ]
  ]

  -- Where all matching rows are written, so is the row that is found, if it matches.
  pub find-update_where_hit :
      (p q : A → Bool) (f : A → A) (xs : List A) {a : A}
      → ((x : A) → p (f x) ≡ p x)
      → find p xs ≡ some a
      → q a ≡ true
      → find p (update_where q f xs) ≡ some (f a)
  find-update_where_hit p q f [] key h k = cc
  find-update_where_hit p q f (x ∷ xs) {a} key h k = elim (Bool-cases (p x)) [
    | inl hit ↦ let same : x ≡ a = cc (rw hit at h) in ground (arith, same, key x)
    | inr miss ↦ ground (arith, key x, find-update_where_hit p q f xs key (rw miss at h) k)
  ]

  -- A matching row that is found is counted.
  pub count_where-pos :
      (p q : A → Bool) (xs : List A) {a : A}
      → find p xs ≡ some a
      → q a ≡ true
      → 0 < count_where q xs
  count_where-pos p q [] h k = cc
  count_where-pos p q (x ∷ xs) {a} h k = elim (Bool-cases (p x)) [
    | inl hit ↦ let same : x ≡ a = cc (rw hit at h) in ground (arith, same)
    | inr miss ↦ ground (arith, count_where-pos p q xs (rw miss at h) k)
  ]

  -- The written row is found again by its key.
  pub find-update_row :
      (p : A → Bool) (f : A → A) (xs : List A) {a : A}
      → ((x : A) → p (f x) ≡ p x)
      → find p xs ≡ some a
      → find p (update_row p f xs) ≡ some (f a)
  find-update_row p f [] key h = cc
  find-update_row p f (x ∷ xs) {a} key h = elim (Bool-cases (p x)) [
    | inl hit ↦
        let same : x ≡ a = cc (rw hit at h) in
        let kept : p (f x) ≡ true = cc (key x, hit) in rw hit (rw kept (rw same refl))
    | inr miss ↦ rw miss (rw miss (find-update_row p f xs key (rw miss at h)))
  ]

  -- Writing one row leaves what another key finds.
  pub find-update_row_other :
      (p r : A → Bool) (f : A → A) (xs : List A)
      → ((x : A) → p (f x) ≡ p x)
      → ((x : A) → r x ≡ true → p x ≡ false)
      → find p (update_row r f xs) ≡ find p xs
  find-update_row_other p r f [] key apart = refl
  find-update_row_other p r f (x ∷ xs) key apart = elim (Bool-cases (r x)) [
    | inl hit ↦
        let away : p x ≡ false = apart x hit in
        let still : p (f x) ≡ false = cc (key x, away) in rw hit (rw still (rw away refl))
    | inr miss ↦ rw miss (ground (arith, find-update_row_other p r f xs key apart))
  ]
