-- ===== src/Order/Lifecycle/Warnings.antt =====
-- `processExpiringVps`: the warnings before an order expires, one for each threshold.
pub mod Distinct
use webrana_cloud.Base.{
  leb, ◌==◌, if◌then◌else◌, Action, pure, ◌>>◌, attempt, filter_where, some_where, ℕ, suc, Bool,
  true, false, not, ◌&&◌, ◌||◌, Option, none, some, List, [], ◌∷◌,
}
use webrana_cloud.Order.Status.{active, expiring_soon, ◌=s=◌}
use webrana_cloud.Order.Records.{
  BillingPeriod, daily, monthly, yearly, Order, StatusHistory, World, add_status_history,
  update_guarded,
}
use webrana_cloud.Order.Lifecycle.{
  add_hours, get_notification_thresholds, LifecycleError, database_error, notification_error,
}
use webrana_cloud.Order.Lifecycle.Sweeps.{ProcessingStats, no_stats, count_outcome, at_most, sweep}

-- What is answered to one warning, and whether the query of its threshold is answered.
pub record WarningAnswers : Type 0 where
  pub notified : Bool
  pub recorded : Bool
  pub status_saved : Bool

abbrev pub same_period : BillingPeriod → BillingPeriod → Bool
same_period daily daily = true
same_period monthly monthly = true
same_period yearly yearly = true
same_period _ _ = false

abbrev pub is_threshold : ℕ → Option ℕ → Bool
is_threshold hours none = false
is_threshold hours (some h) = h == hours

-- A row of the history that records the warning of this threshold for the order.
abbrev pub warns : ℕ → ℕ → StatusHistory → Bool
warns i hours h =
    h.order_id == i && (h.new_status =s= expiring_soon && is_threshold hours h.threshold)

-- `gte` in a `where`.
abbrev pub at_least : Option ℕ → ℕ → Bool
at_least none t = false
at_least (some x) t = leb t x

abbrev pub is_expiring : BillingPeriod → ℕ → ℕ → World → Order → Bool
is_expiring period hours now w o =
    (o.status =s= active || o.status =s= expiring_soon)
    && same_period o.billing_period period
    && at_least o.expires_at now
    && at_most o.expires_at (add_hours now hours)
    && not (some_where (warns o.id hours) w.status_history)

abbrev pub warning_row : ℕ → Order → StatusHistory
warning_row hours o = record {
  order_id = o.id;
  previous_status = some o.status;
  new_status = expiring_soon;
  threshold = some hours;
}

abbrev pub as_expiring : Order → Order
as_expiring o = record o { status = expiring_soon; version = suc o.version }

-- The optimistic update of an order that was active.
abbrev pub mark_expiring : Bool → Order → Action World LifecycleError (Unit {0})
mark_expiring saved o =
    if o.status =s= active
    then attempt saved database_error (λ w.
      (update_guarded o.id (λ x. x.status =s= active && x.version == o.version) as_expiring w).1)
    else pure tt

unfoldable pub send_expiration_notification :
    WarningAnswers → ℕ → Order → Action World LifecycleError (Unit {0})
send_expiration_notification a hours o =
    attempt a.notified notification_error (λ w. w)
    >> attempt a.recorded database_error (add_status_history (warning_row hours o))
    >> mark_expiring a.status_saved o

abbrev pub warn_one :
    ℕ → (ℕ → WarningAnswers) → Order → ProcessingStats × World → ProcessingStats × World
warn_one hours answers o (t, w) = (
  count_outcome (λ _. true) o.id (send_expiration_notification (answers o.id) hours o w).0 t,
  (send_expiration_notification (answers o.id) hours o w).1,
)

-- One threshold of one billing period: a query that fails is logged and passed over.
unfoldable pub warn_threshold :
    ℕ
    → Bool
    → (ℕ → WarningAnswers)
    → BillingPeriod
    → ℕ
    → ProcessingStats × World
    → ProcessingStats × World
unfolding send_expiration_notification
warn_threshold now read answers period hours (t, w) =
    if read
    then sweep (warn_one hours answers) (filter_where (is_expiring period hours now w) w.orders)
        (t, w)
    else (t, w)

abbrev pub warn_thresholds :
    ℕ
    → (BillingPeriod → ℕ → Bool)
    → (BillingPeriod → ℕ → ℕ → WarningAnswers)
    → BillingPeriod
    → List ℕ
    → ProcessingStats × World
    → ProcessingStats × World
warn_thresholds now read answers period [] s = s
warn_thresholds now read answers period (h ∷ hs) s =
    warn_thresholds now read answers period hs
      (warn_threshold now (read period h) (answers period h) period h s)

unfoldable pub process_expiring_vps :
    ℕ
    → (BillingPeriod → ℕ → Bool)
    → (BillingPeriod → ℕ → ℕ → WarningAnswers)
    → World
    → ProcessingStats × World
unfolding get_notification_thresholds warn_threshold
process_expiring_vps now read answers w =
    let all =
      λ (p : BillingPeriod). warn_thresholds now read answers p (get_notification_thresholds p) in
    all yearly (all monthly (all daily (no_stats, w)))
