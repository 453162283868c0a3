-- ===== src/Tests/Lifecycle.antt =====
-- The lifecycle service at concrete orders.
use webrana_cloud.Base.{
  pos, ◌-ℤ◌, Result, ok, length, update_row, ◌*◌, ◌<◌, ◌≡◌, refl, Bool, true, false, Option, none,
  some, [], ◌∷◌, arith,
}
use webrana_cloud.Order.Status.{OrderStatus, active, expiring_soon, suspended, failed}
use webrana_cloud.Order.Records.{expired_no_renewal, Order, World, has_id, find_order}
use webrana_cloud.Order.Lifecycle.{
  Calendar, add_days, get_grace_period_hours, get_notification_thresholds, calculate_new_expiry,
  LifecycleError,
}
use webrana_cloud.Tests.Orders.{order, do_account, orders_world}
use webrana_cloud.Order.Lifecycle.Expiry.{IsForward, calculate_new_expiry-later}
use webrana_cloud.Order.Lifecycle.Renewal.{
  deducted, Answers, extend, charge_and_extend, attempt_renewal, manual_renewal,
}
use webrana_cloud.Order.Lifecycle.Renewal.Payment.{
  terms, says_true, attempt_renewal-succeeds, prolonged, attempt_renewal-terms,
}
use webrana_cloud.Order.Lifecycle.Termination.{
  CallAnswers, decrement_active_count, destroy_droplet, suspend_vps, terminate_vps,
}
use webrana_cloud.Order.Lifecycle.Termination.Once.{suspension, termination, run_job_once}
use webrana_cloud.Order.Lifecycle.Warnings.{
  WarningAnswers, send_expiration_notification, warn_threshold, process_expiring_vps,
}
use webrana_cloud.Order.Lifecycle.Warnings.Distinct.{
  IsWarnedOnce, process_expiring_vps-IsWarnedOnce,
}
use webrana_cloud.Order.Lifecycle.Sweeps.{process_suspended_vps}
use webrana_cloud.Order.Lifecycle.Sweeps.Grace.{is_due, process_suspended_vps-spares}

-- Months of thirty days.
abbrev days : Calendar
days = record {
  add_months = λ t m. add_days t (30 * m);
  add_years = λ t y. add_days t (365 * y);
  add_dates = add_days;
}

days-IsForward : IsForward days
days-IsForward = record { months = λ t. omega arith; years = λ t. omega arith }

abbrev world : World
world = orders_world (order 1 expiring_soon none ∷ order 2 suspended (some 5000) ∷ [])

abbrev ap_status : Option Order → Option OrderStatus
ap_status none = none
ap_status (some o) = some o.status

abbrev well : Answers
well = record {
  has_billing_client = true;
  has_sufficient = some true;
  deduction = deducted;
  order_saved = true;
  renewal_saved = true;
  status_saved = true;
  notified = true;
  refusal_saved = true;
  failure_saved = true;
}

abbrev fine : CallAnswers
fine = record {
  update_saved = true;
  task_read = true;
  api = true;
  task_saved = true;
  account_saved = true;
  history_saved = true;
  notified = true;
}

-- The renewal goes through, but its notification does not: the answer is `false`.
renewed_in_silence :
    (attempt_renewal days 2000
      (record well { notified = false })
      (order 1 expiring_soon none)
      world).0
    ≡ ok false
unfolding attempt_renewal charge_and_extend extend
renewed_in_silence = refl

-- A failed order is renewed as well.
renewed_failed :
    ap_status (
      find_order 3
        (manual_renewal days 2000 well 3 9 (record world { orders = order 3 failed none ∷ [] })).1)
    ≡ some active
unfolding manual_renewal attempt_renewal charge_and_extend extend calculate_new_expiry
renewed_failed = refl

-- After the grace period of a day the droplet is gone and its account has a place free.
destroyed_after_grace :
    (process_suspended_vps 86405000 (λ _. fine) world).1.accounts
    ≡ record do_account { active_droplets = pos 0 } ∷ []
unfolding process_suspended_vps terminate_vps destroy_droplet decrement_active_count
    get_grace_period_hours ◌-ℤ◌
destroyed_after_grace = refl

calculate_new_expiry-later_example :
    (2000 < calculate_new_expiry days 2000 (order 1 active none))
    × (1000 < calculate_new_expiry days 2000 (order 1 active none))
calculate_new_expiry-later_example =
    calculate_new_expiry-later days 2000 (order 1 active none) days-IsForward

abbrev after_renewal : Result LifecycleError Bool × World
after_renewal = attempt_renewal days 2000 well (order 1 expiring_soon none) world

attempt_renewal-terms_example :
    terms after_renewal.1.orders
    ≡ terms (update_row (has_id 1) (prolonged days 2000 (order 1 expiring_soon none)) world.orders)
attempt_renewal-terms_example =
    attempt_renewal-terms days 2000 well (order 1 expiring_soon none) world

attempt_renewal-succeeds_example : says_true after_renewal.0 ≡ true
attempt_renewal-succeeds_example =
    attempt_renewal-succeeds days 2000 well (order 1 expiring_soon none) world

abbrev after_suspension : World
after_suspension = (suspend_vps fine 2000 (order 1 expiring_soon none) world).1

run_job_once_example :
    terminate_vps fine 3000 expired_no_renewal (order 1 expiring_soon none) after_suspension
    ≡ (ok tt, after_suspension)
run_job_once_example =
    run_job_once suspension (termination expired_no_renewal) fine fine 2000 3000
      (order 1 expiring_soon none) world refl refl refl refl

not_due : is_due 80000000 (order 2 suspended (some 5000)) ≡ false
unfolding is_due get_grace_period_hours
not_due = refl

process_suspended_vps-spares_example :
    find_order 2 (process_suspended_vps 80000000 (λ _. fine) world).1
    ≡ some (order 2 suspended (some 5000))
process_suspended_vps-spares_example =
    process_suspended_vps-spares 80000000 2 (λ _. fine) world refl refl not_due

abbrev heard : WarningAnswers
heard = record { notified = true; recorded = true; status_saved = true }

abbrev to_warn : World
to_warn = record world { orders = order 1 active none ∷ [] }

abbrev warn_all : World → World
warn_all w = (process_expiring_vps 900 (λ _ _. true) (λ _ _ _. heard) w).1

-- The first run warns of all four thresholds, the second of none.
four_warnings : length (warn_all (warn_all to_warn)).status_history ≡ 4
unfolding process_expiring_vps warn_threshold send_expiration_notification
    get_notification_thresholds
four_warnings = refl

process_expiring_vps-IsWarnedOnce_example : IsWarnedOnce 1 24 (warn_all to_warn)
process_expiring_vps-IsWarnedOnce_example =
    process_expiring_vps-IsWarnedOnce 1 24 900 (λ _ _. true) (λ _ _ _. heard) to_warn
      (refl, omega arith)
