-- ===== src/Billing/Deposit/Others.antt =====
-- Calls of the wallet service for something else than a deposit.
use webrana_cloud.Base.{
  Bool-cases, Option-cases, pos, leb_ℤ, ℕ, ◌≡◌, refl, inl, inr, Bool, false, arith,
}
use webrana_cloud.Billing.Wallet.{
  WalletTransaction, WalletStore, BalanceParams, find_wallet, get_or_create_wallet, add_balance,
  deduct_balance, get_wallet_by_id, refund_params, refund_balance,
}
use webrana_cloud.Billing.Wallet.History.{WalletCall, open_wallet, add, deduct, refund, call}
use webrana_cloud.Billing.Deposit.Credits.{is_deposit_type, credited}

-- Whether a wallet call names a deposit as its reference. A refund never does.
abbrev pub for_deposit : WalletCall → Bool
for_deposit (open_wallet user) = false
for_deposit (add commits p) = is_deposit_type p.reference_type
for_deposit (deduct commits p) = is_deposit_type p.reference_type
for_deposit (refund commits t) = false

-- A call for something else records no credit of a deposit.
credited-add :
    (k : ℕ) (commits : Bool) (p : BalanceParams) (w : WalletStore)
    → is_deposit_type p.reference_type ≡ false
    → credited k (add_balance commits p w).1 ≡ credited k w
unfolding add_balance
credited-add k commits p w other = elim (Bool-cases (leb_ℤ p.amount (pos 0))) [
  | inl bad ↦ rw bad refl
  | inr good ↦ elim (Option-cases (find_wallet p.user_id w)) [
    | inl new ↦ rw (good, new) (ground (arith, other))
    | inr (x, old) ↦ rw (good, old) (ground (arith, other))
  ]
]

credited-deduct :
    (k : ℕ) (commits : Bool) (p : BalanceParams) (w : WalletStore)
    → is_deposit_type p.reference_type ≡ false
    → credited k (deduct_balance commits p w).1 ≡ credited k w
unfolding deduct_balance
credited-deduct k commits p w other = elim (Bool-cases (leb_ℤ p.amount (pos 0))) [
  | inl bad ↦ rw bad refl
  | inr good ↦ elim (Option-cases (find_wallet p.user_id w)) [
    | inl missing ↦ rw (good, missing) refl
    | inr (x, old) ↦ rw (good, old) (ground (arith, other))
  ]
]

credited-refund :
    (k : ℕ) (commits : Bool) (t : WalletTransaction) (w : WalletStore)
    → credited k (refund_balance commits t w).1 ≡ credited k w
unfolding refund_balance
credited-refund k commits t w = elim (Option-cases (get_wallet_by_id t.wallet_id w)) [
  | inl missing ↦ rw missing refl
  | inr (x, found) ↦ rw found (credited-add k commits (refund_params x t) w refl)
]

credited-open :
    (k user : ℕ) (w : WalletStore) → credited k (get_or_create_wallet user w).1 ≡ credited k w
unfolding get_or_create_wallet
credited-open k user w = elim (Option-cases (find_wallet user w)) [
  | inl new ↦ rw new refl
  | inr (x, old) ↦ rw old refl
]

pub credited-call :
    (k : ℕ) (c : WalletCall) (w : WalletStore)
    → for_deposit c ≡ false
    → credited k (call c w) ≡ credited k w
credited-call k (open_wallet user) w other = credited-open k user w
credited-call k (add commits p) w other = credited-add k commits p w other
credited-call k (deduct commits p) w other = credited-deduct k commits p w other
credited-call k (refund commits t) w other = credited-refund k commits t w
