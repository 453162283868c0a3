-- ===== src/Billing/Wallet/History.antt =====
-- Any sequence of calls of the wallet service, from any valid tables.
use webrana_cloud.Base.{
  Option-cases, pos, neg, abs, ◌≤ℤ◌, ℕ, ◌≡◌, inl, inr, Bool, some, List, [], ◌∷◌,
}
use webrana_cloud.Billing.Wallet.{
  UserWallet, WalletTransaction, WalletStore, empty_store, BalanceParams, find_wallet,
  get_or_create_wallet, add_balance, deduct_balance, get_wallet_by_id, refund_balance,
}
use webrana_cloud.Billing.Wallet.Ledger.{ledger, IsValid, found-explained}
use webrana_cloud.Billing.Wallet.Methods.{
  get_or_create_wallet-IsValid, add_balance-Posts, deduct_balance-Posts, refund_balance-Posts,
  Posts-IsValid,
}

-- A call of a public method that writes, with the database's answer to its transaction.
pub data WalletCall : Type 0 where
  open_wallet : ℕ → WalletCall
  add deduct : Bool → BalanceParams → WalletCall
  refund : Bool → WalletTransaction → WalletCall

abbrev pub call : WalletCall → WalletStore → WalletStore
call (open_wallet user) s = (get_or_create_wallet user s).1
call (add commits p) s = (add_balance commits p s).1
call (deduct commits p) s = (deduct_balance commits p s).1
call (refund commits t) s = (refund_balance commits t s).1

abbrev pub calls : List WalletCall → WalletStore → WalletStore
calls [] s = s
calls (c ∷ cs) s = calls cs (call c s)

refund_balance-IsValid :
    (commits : Bool) (t : WalletTransaction) (s : WalletStore)
    → IsValid s
    → IsValid (refund_balance commits t s).1
refund_balance-IsValid commits t s v = elim (Option-cases (get_wallet_by_id t.wallet_id s)) [
  | inl missing ↦ unfold refund_balance in rw missing v
  | inr (w, found) ↦
      Posts-IsValid w.user_id (abs t.amount) s (refund_balance commits t s) v
        (refund_balance-Posts commits t s v found)
]

pub call-IsValid : (c : WalletCall) (s : WalletStore) → IsValid s → IsValid (call c s)
call-IsValid (open_wallet user) s v = get_or_create_wallet-IsValid user s v
call-IsValid (add commits p) s v =
    Posts-IsValid p.user_id p.amount s (add_balance commits p s) v (add_balance-Posts commits p s v)
call-IsValid (deduct commits p) s v =
    Posts-IsValid p.user_id (neg p.amount) s (deduct_balance commits p s) v
      (deduct_balance-Posts commits p s v)
call-IsValid (refund commits t) s v = refund_balance-IsValid commits t s v

pub calls-IsValid : (cs : List WalletCall) (s : WalletStore) → IsValid s → IsValid (calls cs s)
calls-IsValid [] s v = v
calls-IsValid (c ∷ cs) s v = calls-IsValid cs (call c s) (call-IsValid c s v)

-- After any calls on empty tables, the balance of each user with a wallet is the sum of that
-- wallet's recorded transactions, and it is not negative.
pub calls_balance :
    (cs : List WalletCall) (u : ℕ) {w : UserWallet}
    → find_wallet u (calls cs empty_store) ≡ some w
    → (w.balance ≡ ledger w.id (calls cs empty_store).transactions) × (pos 0 ≤ℤ w.balance)
calls_balance cs u e =
    let s = calls cs empty_store in
    found-explained u s.transactions s.next_id s.wallets
      (calls-IsValid cs empty_store (record { explained = tt; audited = tt })).explained e
