-- ===== src/Order/Lifecycle/Renewal.antt =====
-- `attemptRenewal` and its callers `manualRenewal` and `processAutoRenewals`.
pub mod Payment
use webrana_cloud.Base.{
  ◌==◌, if◌then◌else◌, Result, ok, err, Action, pure, or_raise, catch_with, ◌>>=◌, ◌>>◌, attempt, ℕ,
  suc, Bool, true, false, not, Option, none, some, ◌∷◌,
}
use webrana_cloud.Order.Status.{active, terminated, ◌=s=◌}
use webrana_cloud.Order.Records.{
  by_auto_renewal, FailReason, no_balance, system_error, Order, RenewalHistory, Charge, World,
  find_order, update_order, add_status_history, add_renewal_history,
}
use webrana_cloud.Order.Lifecycle.{
  Calendar, calculate_new_expiry, LifecycleError, database_error, billing_error, notification_error,
}

-- How `deductBalance` ends: an exception may come after the deduction too, such as a timeout.
pub data Deduction : Type 0 where
  deducted not_deducted deducted_unanswered : Deduction

-- What the other services and the database answer in one attempt; `has_sufficient` is none where
-- the billing service gives no answer, and a notification succeeds where no client is configured.
pub record Answers : Type 0 where
  pub has_billing_client : Bool
  pub has_sufficient : Option Bool
  pub deduction : Deduction
  pub order_saved : Bool
  pub renewal_saved : Bool
  pub status_saved : Bool
  pub notified : Bool
  pub refusal_saved : Bool
  pub failure_saved : Bool

abbrev pub charge_for : Order → Charge
charge_for o = record { user_id = o.user_id; amount = o.final_price; order_id = o.id }

abbrev pub add_charge : Charge → World → World
add_charge c w = record w { charges = c ∷ w.charges }

abbrev pub deduct_balance : Deduction → Order → Action World LifecycleError (Unit {0})
deduct_balance deducted o w = (ok tt, add_charge (charge_for o) w)
deduct_balance not_deducted o w = (err billing_error, w)
deduct_balance deducted_unanswered o w = (err billing_error, add_charge (charge_for o) w)

abbrev pub failed_with : FailReason → Order → Order
failed_with r o = record o { renewal_fail_reason = some r }

abbrev pub renewed : ℕ → ℕ → Order → Order
renewed now expiry o = record o {
  status = active;
  expires_at = some expiry;
  last_renewal_at = some now;
  renewal_fail_reason = none;
  version = suc o.version;
}

abbrev pub renewal_row : Bool → Option FailReason → Option ℕ → Order → RenewalHistory
renewal_row success reason expiry o = record {
  order_id = o.id;
  renewal_type = by_auto_renewal;
  amount = o.final_price;
  previous_expiry = o.expires_at;
  new_expiry = expiry;
  success = success;
  fail_reason = reason;
}

-- The branch without sufficient balance.
unfoldable pub refuse : Answers → Order → Action World LifecycleError Bool
refuse a o =
    attempt a.refusal_saved database_error (update_order o.id (failed_with no_balance))
    >> attempt a.renewal_saved database_error
        (add_renewal_history (renewal_row false (some no_balance) o.expires_at o))
    >> attempt a.notified notification_error (λ w. w)
    >> pure false

-- What follows the deduction.
unfoldable pub extend : ℕ → ℕ → Answers → Order → Action World LifecycleError Bool
extend now expiry a o =
    attempt a.order_saved database_error (update_order o.id (renewed now expiry))
    >> attempt a.renewal_saved database_error
        (add_renewal_history (renewal_row true none (some expiry) o))
    >> attempt a.status_saved database_error (
        add_status_history record {
          order_id = o.id;
          previous_status = some o.status;
          new_status = active;
          threshold = none;
        })
    >> attempt a.notified notification_error (λ w. w)
    >> pure true

unfoldable pub charge_and_extend : ℕ → ℕ → Answers → Order → Action World LifecycleError Bool
unfolding extend
charge_and_extend now expiry a o = deduct_balance a.deduction o >> extend now expiry a o

-- The body of the `try`.
abbrev pub try_renewal : Calendar → ℕ → Answers → Order → Action World LifecycleError Bool
try_renewal c now a o = or_raise a.has_sufficient billing_error >>= λ enough.
    if enough then charge_and_extend now (calculate_new_expiry c now o) a o else refuse a o

-- The `catch`.
abbrev pub note_failure : Answers → Order → LifecycleError → Action World LifecycleError Bool
note_failure a o e =
    attempt a.failure_saved database_error (update_order o.id (failed_with system_error))
    >> pure false

unfoldable pub attempt_renewal : Calendar → ℕ → Answers → Order → Action World LifecycleError Bool
attempt_renewal c now a o w =
    if a.has_billing_client
    then catch_with (try_renewal c now a o) (note_failure a o) w
    else (ok false, w)

pub data RenewalError : Type 0 where
  order_not_found unauthorized cannot_renew_terminated renewal_failed : RenewalError

abbrev pub renewal_result : Bool → Result RenewalError (Unit {0})
renewal_result success = if success then ok tt else err renewal_failed

abbrev pub renew_found :
    Calendar
    → ℕ
    → Answers
    → ℕ
    → Option Order
    → Action World LifecycleError (Result RenewalError (Unit {0}))
renew_found c now a user none = pure (err order_not_found)
renew_found c now a user (some o) =
    if not (o.user_id == user)
    then pure (err unauthorized)
    else if o.status =s= terminated
    then pure (err cannot_renew_terminated)
    else (attempt_renewal c now a o >>= λ success. pure (renewal_result success))

-- The result object is `success` with the error message.
unfoldable pub manual_renewal :
    Calendar → ℕ → Answers → ℕ → ℕ → Action World LifecycleError (Result RenewalError (Unit {0}))
unfolding attempt_renewal
manual_renewal c now a order user w = renew_found c now a user (find_order order w) w
