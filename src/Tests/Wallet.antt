-- ===== src/Tests/Wallet.antt =====
-- The wallet service on concrete tables.
use webrana_cloud.Base.{
  pos, ◌+ℤ◌, ◌-ℤ◌, neg, ◌≤ℤ◌, ok, is_ok, ◌≡◌, refl, true, false, some, List, [], ◌∷◌, arith,
}
use webrana_cloud.Billing.Wallet.{
  credit, debit, deposit, vps_order, UserWallet, WalletTransaction, WalletStore, empty_store,
  BalanceParams, new_transaction, post, add_balance, deduct_balance, refund_balance,
}
use webrana_cloud.Billing.Wallet.Ledger.{ledger, IsValid}
use webrana_cloud.Billing.Wallet.Methods.{balance_of, Posts, deduct_balance-Posts}
use webrana_cloud.Billing.Wallet.Refund.{deduct_balance-covered, refund-deduct}
use webrana_cloud.Billing.Wallet.History.{WalletCall, add, deduct, calls, calls_balance}

abbrev top_up : BalanceParams
top_up = record { user_id = 7; amount = pos 50000; reference_type = deposit; reference_id = some 1 }

abbrev order : BalanceParams
order = record {
  user_id = 7;
  amount = pos 20000;
  reference_type = vps_order;
  reference_id = some 2;
}

abbrev day : List WalletCall
day = add true top_up ∷ deduct false order ∷ deduct true order ∷ []

abbrev wallet : UserWallet
wallet = record { id = 0; user_id = 7; balance = pos 50000; version = 1 }

abbrev pub funded : WalletStore
funded = record {
  wallets = wallet ∷ [];
  transactions = new_transaction 1 0 credit (pos 50000) (pos 0) (pos 50000) top_up ∷ [];
  next_id = 2;
}

pub funded-IsValid : IsValid funded
unfolding ◌+ℤ◌
funded-IsValid = record {
  explained = (omega arith, refl, refl, omega arith, tt);
  audited = (omega arith, refl, refl, omega arith, tt);
}

-- A rolled-back deduction changes nothing.
day-balance : balance_of 7 (calls day empty_store) ≡ pos 30000
unfolding add_balance deduct_balance ◌+ℤ◌ ◌-ℤ◌
day-balance = refl

calls_balance_example :
    (pos 30000 ≡ ledger 0 (calls day empty_store).transactions) × (pos 0 ≤ℤ pos 30000)
unfolding add_balance deduct_balance ◌+ℤ◌ ◌-ℤ◌
calls_balance_example =
    calls_balance day 7 {w = record { id = 0; user_id = 7; balance = pos 30000; version = 2 }} refl

deduct_balance-Posts_example : Posts 7 (neg (pos 20000)) funded (deduct_balance true order funded)
deduct_balance-Posts_example = deduct_balance-Posts true order funded funded-IsValid

deduct_balance-covered_example :
    deduct_balance true order funded
    ≡ post wallet debit (neg (pos 20000)) (pos 50000 -ℤ pos 20000) order funded
deduct_balance-covered_example =
    deduct_balance-covered order funded {w = wallet} refl (omega arith) (omega arith)

refund-deduct_example :
    (t : WalletTransaction) × ((deduct_balance true order funded).0 ≡ ok t)
    × (is_ok (refund_balance true t (deduct_balance true order funded).1).0 ≡ true)
    × IsValid (refund_balance true t (deduct_balance true order funded).1).1
    × (balance_of 7 (refund_balance true t (deduct_balance true order funded).1).1
        ≡ balance_of 7 funded)
refund-deduct_example =
    refund-deduct order funded {w = wallet} funded-IsValid refl (omega arith) (omega arith)
