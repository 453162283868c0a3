-- ===== src/Billing/Deposit/Deliveries.antt =====
-- `processPaidDeposit` of the deposit service, which the payment webhook calls.
use webrana_cloud.Base.{
  ◌==◌, if◌then◌else◌, is_some, ℤ, pos, ◌+ℤ◌, Result, ok, err, pure, raise, catch_with, ◌>>◌,
  attempt, find, update_row, update_where, count_where, ℕ, Bool, true, false, not, ◌&&◌, Option,
  none, some,
}
use webrana_cloud.Billing.Wallet.{
  ReferenceType, WalletStore, WalletError, BalanceParams, add_balance,
}
use webrana_cloud.Billing.Deposit.{
  paid, failed, Deposit, DepositStore, DepositError, database_error, wallet_error, Deposits,
  has_deposit_id, has_reference, write_deposits,
}

-- Which writes of a delivery of the webhook the database takes.
pub record DeliveryWrites : Type 0 where
  pub claim_saved : Bool
  pub bonus_saved : Bool
  pub credit_commits : Bool
  pub failure_saved : Bool

-- The conditional update of `processPaidDeposit`, where the database takes it: the row is taken if
-- it is still unprocessed.
abbrev pub is_unclaimed : ℕ → Deposit → Bool
is_unclaimed k d = has_deposit_id k d && not (is_some d.processed_at)

abbrev pub mark_paid : ℕ → Deposit → Deposit
mark_paid now d = record d { processed_at = some now; status = paid; paid_at = some now }

unfoldable pub claim : ℕ → ℕ → DepositStore → ℕ × DepositStore
claim now k s = (
  count_where (is_unclaimed k) s.deposits,
  write_deposits (update_where (is_unclaimed k) (mark_paid now)) s,
)

abbrev pub deposit_params : Deposit → BalanceParams
deposit_params d = record {
  user_id = d.user_id;
  amount = d.amount;
  reference_type = ReferenceType.deposit;
  reference_id = some d.id;
}

-- A call of the wallet service from the deposit service.
abbrev pub lift_wallet :
    {A : Type 0}
    → Result WalletError A × WalletStore
    → DepositStore
    → Result DepositError A × DepositStore
lift_wallet (ok a, w) s = (ok a, record s { wallet = w })
lift_wallet (err e, w) s = (err (wallet_error e), record s { wallet = w })

abbrev pub with_bonus : ℤ → Deposit → Deposit
with_bonus bonus d = record d { bonus_amount = bonus; total_credit = d.amount +ℤ bonus }

-- The `try` block: the bonus is 0, so the second credit is never made.
unfoldable pub credit_deposit : DeliveryWrites → Deposit → Deposits Bool
credit_deposit a d = do
  attempt a.bonus_saved database_error
      (write_deposits (update_row (has_deposit_id d.id) (with_bonus (pos 0))))
  (λ s. lift_wallet (add_balance a.credit_commits (deposit_params d) s.wallet) s)
  pure true

abbrev pub mark_failed : Deposit → Deposit
mark_failed d = record d { status = failed }

-- From the successful claim on: the credit, and its handler.
unfoldable pub settle_deposit : DeliveryWrites → Deposit → Deposits Bool
unfolding credit_deposit
settle_deposit a d = catch_with (credit_deposit a d) (λ e. do
  attempt a.failure_saved database_error
      (write_deposits (update_row (has_deposit_id d.id) mark_failed))
  raise e)

-- After the look-up has returned an unprocessed row.
unfoldable pub process_found : ℕ → DeliveryWrites → Deposit → Deposits Bool
unfolding claim settle_deposit
process_found now a d s =
    let (n, s') = claim now d.id s in
    if not a.claim_saved
    then (err database_error, s)
    else if n == 0
    then (ok true, s')
    else settle_deposit a d s'

-- By what the look-up has returned.
abbrev pub process_row : ℕ → DeliveryWrites → Option Deposit → Deposits Bool
process_row now a none s = (ok false, s)
process_row now a (some d) s =
    if is_some d.processed_at then (ok true, s) else process_found now a d s

unfoldable pub process_paid_deposit : ℕ → DeliveryWrites → ℕ → Deposits Bool
process_paid_deposit now a reference s =
    process_row now a (find (has_reference reference) s.deposits) s
