-- ===== src/Order/Accounts/Primary.antt =====
-- At most one account is the primary one.
use webrana_cloud.Base.{
  ◌==◌, given, Bool-cases, Option-cases, pure, ◌>>=◌, bind-kept, bind-post, attempt, update_where,
  count_where, find_sound, count_where-update_row, count_where-update_where, ℕ, ◌≤◌, ◌≡◌, refl, sym,
  ap, ◌∙◌, subst, inl, inr, Bool, true, false, not, ◌&&◌, ◌||◌, Option, none, some, List, [], ◌∷◌,
  arith,
}
use webrana_cloud.Order.Records.{DoAccount}
use webrana_cloud.Order.Accounts.{
  AccountError, account_error, Accounts, is_account, find_account, update_account_row,
  AccountCapacity,
}
use webrana_cloud.Order.Accounts.Admin.{
  CreateAccount, UpdateAccount, TokenAnswers, ask_capacity, check_token, is_true, not_primary,
  holds_primary, unset_primaries, new_account, insert_account, create_account, is_other_primary,
  becomes_primary, unset_others, with_token, with_fields, new_token, write_account, update_account,
}

abbrev pub primaries : List DoAccount → ℕ
primaries s = count_where holds_primary s

unset-none : (s : List DoAccount) → primaries (update_where holds_primary not_primary s) ≡ 0
unset-none [] = refl
unset-none (x ∷ s) = ground (arith, unset-none s)

check_token-reads : (a : TokenAnswers) (s : List DoAccount) → (check_token a s).1 ≡ s
check_token-reads a s = elim (Option-cases a.validity) [
  | inl silent ↦ rw silent refl
  | inr (valid, known) ↦ rw known (asked valid)
]
  where
    asked : (valid : Bool) → (ask_capacity a.capacity valid s).1 ≡ s
    asked false = refl
    asked true = elim (Option-cases a.capacity) [
      | inl missing ↦ rw missing refl
      | inr (c, there) ↦ rw there refl
    ]

-- A write that may fail.
attempt-within :
    (q : List DoAccount → Type 0) (c : Bool) (f : List DoAccount → List DoAccount)
    (k : Unit {0} → Accounts (Unit {0})) (s : List DoAccount)
    → q s
    → q (k tt (f s)).1
    → q ((attempt c account_error f >>= k) s).1
attempt-within q true f k s before after = after
attempt-within q false f k s before after = before

attempt-last :
    (q : List DoAccount → Type 0) (c : Bool) (f : List DoAccount → List DoAccount)
    (s : List DoAccount)
    → q s
    → q (f s)
    → q (attempt {E = AccountError} c account_error f s).1
attempt-last q true f s before after = after
attempt-last q false f s before after = before

unset_primaries-count :
    (primary : Bool) (x : DoAccount) (s : List DoAccount)
    → x.is_primary ≡ primary
    → primaries s ≤ 1
    → (primaries (unset_primaries primary s) ≤ 1) × (primaries (x ∷ unset_primaries primary s) ≤ 1)
unset_primaries-count true x s flag h = let none_left = unset-none s in (ground arith, ground arith)
unset_primaries-count false x s flag h = (h, rw flag h)

-- Creating an account leaves at most one primary account, whatever fails.
pub create_account-primaries :
    (encrypt : ℕ → ℕ) (now id : ℕ) (a : TokenAnswers) (unset created : Bool) (dto : CreateAccount)
    (s : List DoAccount)
    → primaries s ≤ 1
    → primaries (create_account encrypt now id a unset created dto s).1 ≤ 1
unfolding create_account
create_account-primaries encrypt now id a unset created dto s h =
    let P : List DoAccount → Type 0 = λ u. primaries u ≤ 1 in
    let same = check_token-reads a s in
    bind-post (λ r. primaries r.1 ≤ 1) (check_token a)
      (λ c.
        (attempt unset account_error (unset_primaries (is_true dto.is_primary)) >>= λ _.
        attempt created account_error (insert_account (new_account encrypt now id a dto c))))
      s
      (λ c _. rw same (
        let x = new_account encrypt now id a dto c in
        let (bare, full) = unset_primaries-count (is_true dto.is_primary) x s refl h in
        attempt-within P unset (unset_primaries (is_true dto.is_primary))
          (λ _. attempt created account_error (insert_account x)) s h
          (attempt-last P created (insert_account x) (unset_primaries (is_true dto.is_primary) s)
            bare full)))
      (λ _ _. rw same h)

-- Every primary account among these has the id.
abbrev OnlyPrimary : ℕ → List DoAccount → Type 0
OnlyPrimary i [] = Unit {0}
OnlyPrimary i (x ∷ s) = ((not x.is_primary || x.id == i) ≡ true) × OnlyPrimary i s

unset_others-OnlyPrimary :
    (i : ℕ) (s : List DoAccount) → OnlyPrimary i (update_where (is_other_primary i) not_primary s)
unset_others-OnlyPrimary i [] = tt
unset_others-OnlyPrimary i (x ∷ s) = (ground arith, unset_others-OnlyPrimary i s)

OnlyPrimary-count :
    (i : ℕ) (s : List DoAccount) → OnlyPrimary i s → primaries s ≤ count_where (is_account i) s
OnlyPrimary-count i [] only = omega arith
OnlyPrimary-count i (x ∷ s) (one, rest) = let ih = OnlyPrimary-count i s rest in ground arith

update_row-OnlyPrimary :
    (i : ℕ) (g : DoAccount → DoAccount) (s : List DoAccount)
    → ((x : DoAccount) → (g x).id ≡ x.id)
    → OnlyPrimary i s
    → OnlyPrimary i (update_account_row i g s)
update_row-OnlyPrimary i g [] key only = tt
update_row-OnlyPrimary i g (x ∷ s) key (one, rest) = elim (Bool-cases (is_account i x)) [
  | inl hit ↦ rw hit (ground (arith, key x), rest)
  | inr miss ↦ rw miss (one, update_row-OnlyPrimary i g s key rest)
]

-- Writing the found row makes no primary account where it makes none of that row.
update_row-primaries :
    (i : ℕ) (g : DoAccount → DoAccount) (s : List DoAccount) {x : DoAccount}
    → find_account i s ≡ some x
    → ((g x).is_primary ≡ true → x.is_primary ≡ true)
    → primaries (update_account_row i g s) ≤ primaries s
update_row-primaries i g [] found keeps = cc
update_row-primaries i g (y ∷ s) {x} found keeps = elim (Bool-cases (is_account i y)) [
  | inl hit ↦
      let same : x ≡ y = cc (rw hit at found) in
      let keeps' = subst (λ z. (g z).is_primary ≡ true → z.is_primary ≡ true) same keeps in
      rw hit (ground (arith, keeps'))
  | inr miss ↦
      let ih = update_row-primaries i g s (rw miss at found) keeps in rw miss (ground arith)
]

abbrev IsUnique : ℕ → List DoAccount → Type 0
IsUnique i s = count_where (is_account i) s ≤ 1

-- The write that makes the account the primary one comes after the others have lost the flag.
becomes-primary :
    (i : ℕ) (g : DoAccount → DoAccount) (s : List DoAccount)
    → ((x : DoAccount) → (g x).id ≡ x.id)
    → IsUnique i s
    → primaries (update_account_row i g (update_where (is_other_primary i) not_primary s)) ≤ 1
becomes-primary i g s key unique =
    let s1 = update_where (is_other_primary i) not_primary s in
    let ours =
      OnlyPrimary-count i (update_account_row i g s1)
        (update_row-OnlyPrimary i g s1 key (unset_others-OnlyPrimary i s)) in
    let same =
      count_where-update_row (is_account i) (is_account i) g s1 (λ x. ap (λ k. k == i) (key x)) in
    let same2 =
      count_where-update_where (is_account i) (is_other_primary i) not_primary s (λ _. refl) in
    omega arith

with_token-keeps :
    (encrypt : ℕ → ℕ) (now : ℕ) (token : Option (ℕ × AccountCapacity)) (x : DoAccount)
    → ((with_token encrypt now token x).id ≡ x.id)
      × ((with_token encrypt now token x).is_primary ≡ x.is_primary)
with_token-keeps encrypt now none x = (refl, refl)
with_token-keeps encrypt now (some (t, c)) x = (refl, refl)

-- Where nothing is unset, the request does not ask for the flag, or the account has it.
stays-primary :
    (flag : Option Bool) (was : Bool)
    → (is_true flag && not was) ≡ false
    → given flag was ≡ true
    → was ≡ true
stays-primary none was h k = k
stays-primary (some false) was h k = cc
stays-primary (some true) true h k = refl
stays-primary (some true) false h k = cc

write_account-primaries :
    (encrypt : ℕ → ℕ) (now : ℕ) (unset saved becomes : Bool) (dto : UpdateAccount) (x : DoAccount)
    (token : Option (ℕ × AccountCapacity)) (s : List DoAccount)
    → becomes_primary dto x ≡ becomes
    → find_account x.id s ≡ some x
    → IsUnique x.id s
    → primaries s ≤ 1
    → primaries (write_account encrypt now unset saved dto x token s).1 ≤ 1
write_account-primaries encrypt now unset saved true dto x token s flag found unique h =
    let g : DoAccount → DoAccount = λ y. with_fields dto (with_token encrypt now token y) in
    let key : (y : DoAccount) → (g y).id ≡ y.id = λ y. (with_token-keeps encrypt now token y).0 in
    let s1 = update_where (is_other_primary x.id) not_primary s in
    let bare : primaries s1 ≤ 1 =
      let ours = OnlyPrimary-count x.id s1 (unset_others-OnlyPrimary x.id s) in
      let same =
        count_where-update_where (is_account x.id) (is_other_primary x.id) not_primary s
          (λ _. refl) in
      omega arith in
    rw flag (
      attempt-within (λ u. primaries u ≤ 1) unset (unset_others true x.id)
        (λ _. attempt saved account_error (update_account_row x.id g)) s h
        (attempt-last (λ u. primaries u ≤ 1) saved (update_account_row x.id g) s1 bare
          (becomes-primary x.id g s key unique)))
write_account-primaries encrypt now unset saved false dto x token s flag found unique h =
    let g : DoAccount → DoAccount = λ y. with_fields dto (with_token encrypt now token y) in
    let keeps : (g x).is_primary ≡ true → x.is_primary ≡ true = λ k.
      stays-primary dto.is_primary x.is_primary flag
        (sym (ap (given dto.is_primary) (with_token-keeps encrypt now token x).1) ∙ k) in
    let fewer = update_row-primaries x.id g s found keeps in
    rw flag (
      attempt-within (λ u. primaries u ≤ 1) unset (unset_others false x.id)
        (λ _. attempt saved account_error (update_account_row x.id g)) s h
        (attempt-last (λ u. primaries u ≤ 1) saved (update_account_row x.id g) s h (omega arith)))

new_token-reads :
    (a : TokenAnswers) (token : Option ℕ) (s : List DoAccount) → (new_token a token s).1 ≡ s
new_token-reads a none s = refl
new_token-reads a (some t) s =
    bind-kept (λ u. u) (check_token a) (λ c. pure (some (t, c))) s (λ _ _. refl)
    ∙ check_token-reads a s

-- Updating an account leaves at most one primary account, where ids are unique, whatever fails.
pub update_account-primaries :
    (encrypt : ℕ → ℕ) (now : ℕ) (a : TokenAnswers) (unset saved : Bool) (i : ℕ)
    (dto : UpdateAccount) (s : List DoAccount)
    → count_where (is_account i) s ≤ 1
    → primaries s ≤ 1
    → primaries (update_account encrypt now a unset saved i dto s).1 ≤ 1
unfolding update_account
update_account-primaries encrypt now a unset saved i dto s unique h =
    elim (Option-cases (find_account i s)) [
      | inl missing ↦ rw missing h
      | inr (x, found) ↦
          let mine : i ≡ x.id = ground (arith, find_sound (is_account i) s found) in
          let found' = subst (λ k. find_account k s ≡ some x) mine found in
          let unique' = subst (λ k. IsUnique k s) mine unique in
          let same = new_token-reads a dto.access_token s in
          rw found (
            bind-post (λ r. primaries r.1 ≤ 1) (new_token a dto.access_token)
              (λ token. write_account encrypt now unset saved dto x token) s
              (λ token _. rw same (
                write_account-primaries encrypt now unset saved (becomes_primary dto x) dto x token
                  s refl found' unique' h))
              (λ _ _. rw same h))
    ]
