-- ===== src/Billing/Wallet.antt =====
-- The wallet service (apps/billing-service/src/modules/wallet/wallet.service.ts). Ids are only
-- compared, so they are numbers; a fresh one is given out by a counter, as `uuid()` gives out an
-- unused one. Free text (`description`), JSON (`metadata`) and row timestamps are left out.
pub mod Ledger
pub mod Methods
pub mod Refund
pub mod History
use webrana_cloud.Base.{
  ◌==◌, ℤ, pos, ◌+ℤ◌, ◌-ℤ◌, neg, abs, ltb_ℤ, leb_ℤ, Action, pure, gets, or_raise, transaction,
  ◌>>=◌, ◌>>◌, raise_if, modify, find, update_row, ℕ, suc, ◌+◌, Bool, Option, none, some, List, [],
  ◌∷◌,
}

pub data TransactionType : Type 0 where
  credit debit : TransactionType

pub data ReferenceType : Type 0 where
  deposit deposit_bonus welcome_bonus vps_order vps_renewal : ReferenceType
  provision_failed_refund admin_adjustment : ReferenceType

pub record UserWallet : Type 0 where
  pub id : ℕ
  pub user_id : ℕ
  pub balance : ℤ
  pub version : ℕ

pub record WalletTransaction : Type 0 where
  pub id : ℕ
  pub wallet_id : ℕ
  pub type : TransactionType
  pub amount : ℤ
  pub balance_before : ℤ
  pub balance_after : ℤ
  pub reference_type : ReferenceType
  pub reference_id : Option ℕ

-- The tables `user_wallets` and `wallet_transactions`.
pub record WalletStore : Type 0 where
  pub wallets : List UserWallet
  pub transactions : List WalletTransaction
  pub next_id : ℕ

abbrev pub empty_store : WalletStore
empty_store = record { wallets = []; transactions = []; next_id = 0 }

pub data WalletError : Type 0 where
  amount_not_positive wallet_not_found aborted : WalletError
  insufficient_balance : ℤ → ℤ → WalletError

-- `AddBalanceParams` and `DeductBalanceParams`.
pub record BalanceParams : Type 0 where
  pub user_id : ℕ
  pub amount : ℤ
  pub reference_type : ReferenceType
  pub reference_id : Option ℕ

abbrev pub Wallets : Type 0 → Type 0
Wallets A = Action WalletStore WalletError A

abbrev pub of_user : ℕ → UserWallet → Bool
of_user user w = w.user_id == user

abbrev pub has_id : ℕ → UserWallet → Bool
has_id k w = w.id == k

abbrev pub find_wallet : ℕ → WalletStore → Option UserWallet
find_wallet user s = find (of_user user) s.wallets

abbrev pub new_wallet : ℕ → ℕ → UserWallet
new_wallet id user = record { id = id; user_id = user; balance = pos 0; version = 0 }

-- `userWallet.create`.
abbrev pub create_wallet : ℕ → Wallets UserWallet
create_wallet user s =
    let w = new_wallet s.next_id user in
    pure w (record s { wallets = w ∷ s.wallets; next_id = suc s.next_id })

-- A missing wallet is created: the upsert, and the first step of `addBalance`.
abbrev pub ensure_wallet : ℕ → Option UserWallet → Wallets UserWallet
ensure_wallet user none = create_wallet user
ensure_wallet user (some w) = pure w

unfoldable pub get_or_create_wallet : ℕ → Wallets UserWallet
get_or_create_wallet user = do ensure_wallet user (← gets (find_wallet user))

unfoldable pub get_balance : ℕ → Wallets ℤ
unfolding get_or_create_wallet
get_balance user = do w ← get_or_create_wallet user; pure w.balance

unfoldable pub has_sufficient_balance : ℕ → ℤ → Wallets Bool
unfolding get_balance
has_sufficient_balance user amount = do balance ← get_balance user; pure (leb_ℤ amount balance)

abbrev pub with_balance : ℤ → UserWallet → UserWallet
with_balance after w = record w { balance = after; version = w.version + 1 }

-- `userWallet.update` with `version: { increment: 1 }`.
abbrev pub write_balance : ℕ → ℤ → WalletStore → WalletStore
write_balance k after s = record s {
  wallets = update_row (has_id k) (with_balance after) s.wallets;
}

abbrev pub new_transaction : ℕ → ℕ → TransactionType → ℤ → ℤ → ℤ → BalanceParams → WalletTransaction
new_transaction id wallet type amount before after p = record {
  id = id;
  wallet_id = wallet;
  type = type;
  amount = amount;
  balance_before = before;
  balance_after = after;
  reference_type = p.reference_type;
  reference_id = p.reference_id;
}

-- `walletTransaction.create`.
abbrev pub create_transaction :
    ℕ → TransactionType → ℤ → ℤ → ℤ → BalanceParams → Wallets WalletTransaction
create_transaction wallet type amount before after p s =
    let t = new_transaction s.next_id wallet type amount before after p in
    pure t (record s { transactions = t ∷ s.transactions; next_id = suc s.next_id })

-- The end of both transactions: the new balance and its record.
abbrev pub post : UserWallet → TransactionType → ℤ → ℤ → BalanceParams → Wallets WalletTransaction
post w type amount after p = do
  modify (write_balance w.id after)
  create_transaction w.id type amount w.balance after p

add_balance_tx : BalanceParams → Wallets WalletTransaction
add_balance_tx p = do
  w ← ensure_wallet p.user_id (← gets (find_wallet p.user_id))
  post w credit p.amount (w.balance +ℤ p.amount) p

-- `commits` says whether the database commits the transaction.
unfoldable pub add_balance : Bool → BalanceParams → Wallets WalletTransaction
unfolding add_balance_tx
add_balance commits p = do
  raise_if (leb_ℤ p.amount (pos 0)) amount_not_positive
  transaction commits aborted (add_balance_tx p)

deduct_balance_tx : BalanceParams → Wallets WalletTransaction
deduct_balance_tx p = do
  w ← or_raise (← gets (find_wallet p.user_id)) wallet_not_found
  raise_if (ltb_ℤ w.balance p.amount) (insufficient_balance w.balance p.amount)
  post w debit (neg p.amount) (w.balance -ℤ p.amount) p

unfoldable pub deduct_balance : Bool → BalanceParams → Wallets WalletTransaction
unfolding deduct_balance_tx
deduct_balance commits p = do
  raise_if (leb_ℤ p.amount (pos 0)) amount_not_positive
  transaction commits aborted (deduct_balance_tx p)

unfoldable pub reserve_balance : Bool → BalanceParams → Wallets WalletTransaction
unfolding deduct_balance
reserve_balance commits p = deduct_balance commits p

abbrev pub get_wallet_by_id : ℕ → WalletStore → Option UserWallet
get_wallet_by_id k s = find (has_id k) s.wallets

abbrev pub refund_params : UserWallet → WalletTransaction → BalanceParams
refund_params w original = record {
  user_id = w.user_id;
  amount = abs original.amount;
  reference_type = provision_failed_refund;
  reference_id = original.reference_id;
}

unfoldable pub refund_balance : Bool → WalletTransaction → Wallets WalletTransaction
unfolding add_balance
refund_balance commits original = do
  w ← or_raise (← gets (get_wallet_by_id original.wallet_id)) wallet_not_found
  add_balance commits (refund_params w original)
