-- ===== src/Billing/Wallet/Ledger.antt =====
-- What holds of the wallet tables between two calls, and how posting a transaction keeps it.
use webrana_cloud.Base.{
  ◌==◌, if◌then◌else◌, Bool-cases, ℤ, pos, ◌+ℤ◌, ◌≤ℤ◌, int_laws, find, update_row, ℕ, ◌≤◌, ◌<◌, ◌≡◌,
  refl, inl, inr, none, some, List, [], ◌∷◌, arith,
}
use webrana_cloud.Billing.Wallet.{
  UserWallet, WalletTransaction, WalletStore, of_user, has_id, with_balance,
}

-- What the recorded transactions of a wallet add up to.
abbrev pub ledger : ℕ → List WalletTransaction → ℤ
ledger k [] = pos 0
ledger k (t ∷ ts) = if t.wallet_id == k then t.amount +ℤ ledger k ts else ledger k ts

-- Below the bound, ids fall along the table and no user has two wallets; every balance is the sum
-- of the wallet's transactions, and not negative.
abbrev pub Explains : List WalletTransaction → ℕ → List UserWallet → Type 0
Explains ts n [] = Unit
Explains ts n (w ∷ ws) =
    (w.id < n)
    × (find (of_user w.user_id) ws ≡ none)
    × (w.balance ≡ ledger w.id ts)
    × (pos 0 ≤ℤ w.balance)
    × Explains ts w.id ws

-- The audit trail: each transaction starts from the sum of the wallet's earlier ones, ends at that
-- sum with its amount, and never below zero.
abbrev pub Audited : ℕ → List WalletTransaction → Type 0
Audited n [] = Unit
Audited n (t ∷ ts) =
    (t.wallet_id < n)
    × (t.balance_before ≡ ledger t.wallet_id ts)
    × (t.balance_after ≡ t.balance_before +ℤ t.amount)
    × (pos 0 ≤ℤ t.balance_after)
    × Audited n ts

pub record IsValid (s : WalletStore) : Type 0 where
  pub explained : Explains s.transactions s.next_id s.wallets
  pub audited : Audited s.next_id s.transactions

-- A wallet that is found has an id below the table's bound.
pub found-below :
    (u : ℕ) (ts : List WalletTransaction) (n : ℕ) (ws : List UserWallet) {w : UserWallet}
    → Explains ts n ws
    → find (of_user u) ws ≡ some w
    → w.id < n
found-below u ts n [] h e = cc
found-below u ts n (x ∷ ws) {w} h e = elim (Bool-cases (of_user u x)) [
  | inl hit ↦ let same : x ≡ w = cc (rw hit at e) in rw (← same) h.0
  | inr miss ↦ omega (arith, found-below u ts x.id ws h.4 (rw miss at e), h.0)
]

-- The balance that is found is the sum of the wallet's transactions, and not negative.
pub found-explained :
    (u : ℕ) (ts : List WalletTransaction) (n : ℕ) (ws : List UserWallet) {w : UserWallet}
    → Explains ts n ws
    → find (of_user u) ws ≡ some w
    → (w.balance ≡ ledger w.id ts) × (pos 0 ≤ℤ w.balance)
found-explained u ts n [] h e = cc
found-explained u ts n (x ∷ ws) {w} h e = elim (Bool-cases (of_user u x)) [
  | inl hit ↦ let same : x ≡ w = cc (rw hit at e) in rw (← same) (h.2, h.3)
  | inr miss ↦ found-explained u ts x.id ws h.4 (rw miss at e)
]

-- A transaction of another wallet explains nothing new.
pub Explains-skip :
    (t : WalletTransaction) (ts : List WalletTransaction) (n : ℕ) (ws : List UserWallet)
    → n ≤ t.wallet_id
    → Explains ts n ws
    → Explains (t ∷ ts) n ws
Explains-skip t ts n [] le h = tt
Explains-skip t ts n (x ∷ ws) le h =
    ground (arith, Explains-skip t ts x.id ws (omega (arith, h.0)) h.4)

pub Explains-mono :
    (ts : List WalletTransaction) (n m : ℕ) (ws : List UserWallet)
    → n ≤ m
    → Explains ts n ws
    → Explains ts m ws
Explains-mono ts n m [] le h = tt
Explains-mono ts n m (x ∷ ws) le h = ground arith

pub Audited-mono : (n m : ℕ) (ts : List WalletTransaction) → n ≤ m → Audited n ts → Audited m ts
Audited-mono n m [] le h = tt
Audited-mono n m (t ∷ ts) le h = ground (arith, Audited-mono n m ts le h.4)

-- An id that no wallet has yet has no transactions.
pub ledger-fresh : (n : ℕ) (ts : List WalletTransaction) → Audited n ts → ledger n ts ≡ pos 0
ledger-fresh n [] h = refl
ledger-fresh n (t ∷ ts) h = ground (arith, ledger-fresh n ts h.4)

-- Writing a balance adds and removes no user.
find-none-write :
    (u k : ℕ) (b : ℤ) (ws : List UserWallet)
    → find (of_user u) ws ≡ none
    → find (of_user u) (update_row (has_id k) (with_balance b) ws) ≡ none
find-none-write u k b [] e = refl
find-none-write u k b (x ∷ ws) e = ground (arith, find-none-write u k b ws)

-- Posting a transaction to the wallet that was found keeps the table explained.
pub Explains-write :
    (u : ℕ) (t : WalletTransaction) (ts : List WalletTransaction) (n : ℕ) (ws : List UserWallet)
    (b : ℤ) {w : UserWallet}
    → Explains ts n ws
    → find (of_user u) ws ≡ some w
    → t.wallet_id ≡ w.id
    → b ≡ w.balance +ℤ t.amount
    → pos 0 ≤ℤ b
    → Explains (t ∷ ts) n (update_row (has_id w.id) (with_balance b) ws)
Explains-write u t ts n [] b h e k p q = tt
Explains-write u t ts n (x ∷ ws) b {w} h e k p q = elim (Bool-cases (of_user u x)) [
  | inl hit ↦
      let same : x ≡ w = cc (rw hit at e) in
      let skip : Explains (t ∷ ts) x.id ws =
        Explains-skip t ts x.id ws (rw (k, same) (omega arith)) h.4 in
      grind (int_laws, skip, same, h.2)
  | inr miss ↦
      let e' : find (of_user u) ws ≡ some w = rw miss at e in
      let below : w.id < x.id = found-below u ts x.id ws h.4 e' in
      grind (
        int_laws,
        below,
        find-none-write x.user_id w.id b ws h.1,
        Explains-write u t ts x.id ws b h.4 e' k p q,
      )
]
