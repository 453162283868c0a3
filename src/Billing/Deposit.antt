-- ===== src/Billing/Deposit.antt =====
-- The deposit service (apps/billing-service/src/modules/wallet/deposit.service.ts), over the wallet
-- service. What the payment gateway answers is an argument, and so is whether the database takes a
-- write; a look-up that fails raises before anything is written. Times are milliseconds. A child has
-- `processPaidDeposit`.
pub mod Deliveries
pub mod Credits
pub mod Others
pub mod Webhooks
pub mod Rollback
pub mod Retry
use webrana_cloud.Base.{
  ltb, ◌==◌, if◌then◌else◌, ℤ, pos, ltb_ℤ, ok, err, Action, pure, raise, gets, or_raise, catch_with,
  ◌>>=◌, ◌>>◌, raise_if, modify, attempt, find, update_row, delete_row, update_where, count_where,
  some_where, ℕ, suc, ◌+◌, ◌*◌, Bool, true, false, not, ◌&&◌, Option, none, some, List, ◌∷◌,
}
use webrana_cloud.Billing.Wallet.{WalletStore, WalletError}

pub data DepositStatus : Type 0 where
  pending paid expired failed : DepositStatus

abbrev pub is_pending : DepositStatus → Bool
is_pending pending = true
is_pending _ = false

pub record Deposit : Type 0 where
  pub id : ℕ
  pub user_id : ℕ
  pub amount : ℤ
  pub bonus_amount : ℤ
  pub total_credit : ℤ
  pub status : DepositStatus
  pub payment_method : Option ℕ
  pub payment_code : Option ℕ
  pub tripay_reference : Option ℕ
  pub processed_at : Option ℕ
  pub expires_at : ℕ
  pub paid_at : Option ℕ

-- The table `deposits` and the wallet tables, which are in one database.
pub record DepositStore : Type 0 where
  pub deposits : List Deposit
  pub next_deposit : ℕ
  pub wallet : WalletStore

pub data DepositError : Type 0 where
  invalid_deposit_amount channel_not_found deposit_not_found : DepositError
  access_denied deposit_expired gateway_error database_error : DepositError
  wallet_error : WalletError → DepositError

abbrev pub Deposits : Type 0 → Type 0
Deposits A = Action DepositStore DepositError A

-- `depositExpiryHours` and `minDepositAmount`.
pub record DepositConfig : Type 0 where
  pub deposit_expiry_hours : ℕ
  pub min_deposit_amount : ℤ

-- The fields of `CreateDepositDto` that decide something.
pub record CreateDepositDto : Type 0 where
  pub amount : ℤ
  pub payment_method : ℕ

-- What `tripayService.createTransaction` returns of use.
pub record TripayTransaction : Type 0 where
  pub reference : ℕ
  pub pay_code : ℕ

-- Which writes of a `createDeposit` the database takes.
pub record CreateWrites : Type 0 where
  pub row_saved : Bool
  pub payment_saved : Bool
  pub row_deleted : Bool

abbrev pub has_deposit_id : ℕ → Deposit → Bool
has_deposit_id k d = d.id == k

abbrev pub same_reference : Option ℕ → ℕ → Bool
same_reference none r = false
same_reference (some r') r = r' == r

abbrev pub has_reference : ℕ → Deposit → Bool
has_reference r d = same_reference d.tripay_reference r

abbrev pub write_deposits : (List Deposit → List Deposit) → DepositStore → DepositStore
write_deposits f s = record s { deposits = f s.deposits }

abbrev pub new_deposit : DepositConfig → ℕ → ℕ → ℕ → CreateDepositDto → Deposit
new_deposit config now id user dto = record {
  id = id;
  user_id = user;
  amount = dto.amount;
  bonus_amount = pos 0;
  total_credit = dto.amount;
  status = pending;
  payment_method = none;
  payment_code = none;
  tripay_reference = none;
  processed_at = none;
  expires_at = now + config.deposit_expiry_hours * 3600000;
  paid_at = none;
}

-- `deposit.create`.
abbrev pub create_row : DepositConfig → ℕ → Bool → ℕ → CreateDepositDto → Deposits Deposit
create_row config now saved user dto s =
    let d = new_deposit config now s.next_deposit user dto in
    if saved
    then (ok d, record s { deposits = d ∷ s.deposits; next_deposit = suc s.next_deposit })
    else (err database_error, s)

abbrev pub delete_deposit : ℕ → DepositStore → DepositStore
delete_deposit k = write_deposits (delete_row (has_deposit_id k))

-- The rollback, after which the exception goes on unless the rollback raises its own.
abbrev pub roll_back : {A : Type 0} → Bool → ℕ → DepositError → Deposits A
roll_back deleted k e = do attempt deleted database_error (delete_deposit k); raise e

-- The gateway's answer, passed on or thrown.
abbrev pub answered : {A : Type 0} → Option A → Deposits A
answered a = or_raise a gateway_error

abbrev pub paid_by : CreateDepositDto → TripayTransaction → Deposit → Deposit
paid_by dto t d = record d {
  tripay_reference = some t.reference;
  payment_code = some t.pay_code;
  payment_method = some dto.payment_method;
}

-- The `try` block of `createDeposit`: the row gets the gateway's reference.
abbrev pub attach_payment :
    Bool → Deposit → CreateDepositDto → Option TripayTransaction → Deposits Deposit
attach_payment saved d dto created = do
  t ← answered created
  attempt saved database_error (write_deposits (update_row (has_deposit_id d.id) (paid_by dto t)))
  pure (paid_by dto t d)

-- `channels` and `created` are the gateway's answers; `none` is an exception of its client.
unfoldable pub create_deposit :
    DepositConfig
    → ℕ
    → Option (List ℕ)
    → Option TripayTransaction
    → CreateWrites
    → ℕ
    → CreateDepositDto
    → Deposits Deposit
create_deposit config now channels created a user dto = do
  raise_if (ltb_ℤ dto.amount config.min_deposit_amount) invalid_deposit_amount
  d ← create_row config now a.row_saved user dto
  codes ← answered channels
  if some_where (λ c. c == dto.payment_method) codes
      then catch_with (attach_payment a.payment_saved d dto created) (roll_back a.row_deleted d.id)
      else roll_back a.row_deleted d.id channel_not_found

unfoldable pub get_deposit_by_id : ℕ → Option ℕ → Deposits Deposit
get_deposit_by_id k user = do
  d ← or_raise (← gets (λ s. find (has_deposit_id k) s.deposits)) deposit_not_found
  raise_if (elim user [ none ↦ false | some u ↦ not (d.user_id == u) ]) access_denied
  pure d

abbrev pub is_due : ℕ → Deposit → Bool
is_due now d = is_pending d.status && ltb d.expires_at now

abbrev pub mark_expired : Deposit → Deposit
mark_expired d = record d { status = expired }

unfoldable pub mark_expired_deposits : ℕ → DepositStore → ℕ × DepositStore
mark_expired_deposits now s =
    (count_where (is_due now) s.deposits, write_deposits (update_where (is_due now) mark_expired) s)

unfoldable pub cancel_deposit : ℕ → ℕ → Deposits Deposit
cancel_deposit k user = do
  d ← or_raise (← gets (λ s. find (has_deposit_id k) s.deposits)) deposit_not_found
  raise_if (not (d.user_id == user)) access_denied
  raise_if (not (is_pending d.status)) deposit_expired
  modify (write_deposits (update_row (has_deposit_id k) mark_expired))
  pure (mark_expired d)
