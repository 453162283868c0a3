-- ===== src/Tests/Deposit.antt =====
-- The deposit service on concrete tables.
use webrana_cloud.Base.{
  pos, ◌+ℤ◌, ok, err, count_where, ◌+◌, ◌≤◌, ◌≡◌, refl, ◌⊎◌, true, false, none, some, [], ◌∷◌,
  arith,
}
use webrana_cloud.Billing.Wallet.{empty_store, add_balance}
use webrana_cloud.Billing.Wallet.Ledger.{IsValid}
use webrana_cloud.Billing.Wallet.Methods.{balance_of}
use webrana_cloud.Billing.Deposit.Deliveries.{
  DeliveryWrites, claim, settle_deposit, process_found, process_paid_deposit,
}
use webrana_cloud.Billing.Deposit.{
  Deposit, DepositStore, database_error, DepositConfig, CreateDepositDto, CreateWrites,
  has_deposit_id, new_deposit, paid_by, create_deposit,
}
use webrana_cloud.Billing.Deposit.Credits.{credited, processed}
use webrana_cloud.Billing.Deposit.Rollback.{Creates, create_deposit-Creates}
use webrana_cloud.Billing.Deposit.Webhooks.{
  System, claim_step, look_up, take, finish, create, Reach, start, next, empty_system,
  credited_once,
}
use webrana_cloud.Billing.Deposit.Retry.{process_paid_deposit-again, process_paid_deposit-credits}

abbrev config : DepositConfig
config = record { deposit_expiry_hours = 24; min_deposit_amount = pos 10000 }

abbrev request : CreateDepositDto
request = record { amount = pos 50000; payment_method = 3 }

abbrev unpaid : Deposit
unpaid =
    paid_by request (record { reference = 77; pay_code = 5 }) (new_deposit config 1000 0 7 request)

abbrev opened : DepositStore
opened = record { deposits = unpaid ∷ []; next_deposit = 1; wallet = empty_store }

abbrev well : DeliveryWrites
well = record {
  claim_saved = true;
  bonus_saved = true;
  credit_commits = true;
  failure_saved = true;
}

abbrev uncredited : DeliveryWrites
uncredited = record well { credit_commits = false }

abbrev saving : CreateWrites
saving = record { row_saved = true; payment_saved = true; row_deleted = true }

empty-IsValid : IsValid empty_store
empty-IsValid = record { explained = tt; audited = tt }

process_paid_deposit-credits_example :
    let (result, s') = process_paid_deposit 2000 well 77 opened in
    (result ≡ ok true)
    × IsValid s'.wallet
    × (balance_of 7 s'.wallet ≡ balance_of 7 empty_store +ℤ pos 50000)
process_paid_deposit-credits_example =
    process_paid_deposit-credits 77 2000 well opened {d = unpaid} empty-IsValid refl refl
      (omega arith) refl refl refl

process_paid_deposit-again_example :
    let s' = (process_paid_deposit 2000 uncredited 77 opened).1 in
    (process_paid_deposit 2000 uncredited 77 opened ≡ (err database_error, opened))
    ⊎ (process_paid_deposit 3000 well 77 s' ≡ (ok true, s'))
process_paid_deposit-again_example =
    process_paid_deposit-again 77 2000 3000 uncredited well opened refl

-- So a credit that the database did not commit is lost: the next delivery reports success.
lost_credit :
    let s' = (process_paid_deposit 2000 uncredited 77 opened).1 in
    (process_paid_deposit 3000 well 77 s').1.wallet ≡ empty_store
unfolding process_paid_deposit process_found settle_deposit add_balance claim
lost_credit = refl

create_deposit-Creates_example :
    Creates config 1000
      (some (3 ∷ []))
      none
      saving
      7
      request
      opened
      (create_deposit config 1000 (some (3 ∷ [])) none saving 7 request opened)
create_deposit-Creates_example =
    create_deposit-Creates config 1000 (some (3 ∷ [])) none saving 7 request opened

-- Two workers look the same deposit up, both try to claim it, and one credits it.
abbrev created : System
created = record empty_system { store = opened }

abbrev looked_up : System
looked_up = record created { found = unpaid ∷ unpaid ∷ [] }

abbrev claimed_by_one : System
claimed_by_one = claim_step 2000 unpaid (unpaid ∷ []) looked_up

abbrev claimed_by_both : System
claimed_by_both = claim_step 2001 unpaid [] claimed_by_one

abbrev credited_one : System
credited_one = record claimed_by_both {
  store = (settle_deposit well unpaid claimed_by_both.store).1;
  claimed = [];
}

race : Reach empty_system credited_one
unfolding create_deposit claim
race =
    next
      (next
        (next
          (next
            (next
              (next start (
                create empty_system config 1000 (some (3 ∷ []))
                  (some (record { reference = 77; pay_code = 5 })) saving 7 request))
              (look_up created 77 unpaid refl refl))
            (look_up (record created { found = unpaid ∷ [] }) 77 unpaid refl refl))
          (take looked_up 2000 [] unpaid (unpaid ∷ []) refl))
        (take claimed_by_one 2001 [] unpaid [] refl))
      (finish claimed_by_both well [] unpaid [] refl)

credited_once_example :
    (credited 0 credited_one.store.wallet + count_where (has_deposit_id 0) credited_one.claimed ≤ 1)
    × (credited 0 credited_one.store.wallet + count_where (has_deposit_id 0) credited_one.claimed
        ≤ processed 0 credited_one.store)
credited_once_example = credited_once 0 race
