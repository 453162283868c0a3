-- ===== src/Order/Lifecycle/Sweeps.antt =====
-- `processAutoRenewals`, `processExpiredVps` and `processSuspendedVps`: each reads its orders once
-- and goes through these snapshots in turn, counting what comes of each. The last error comes first.
pub mod Due
pub mod Grace
use webrana_cloud.Base.{
  ltb, leb, if◌then◌else◌, is_some, Result, ok, err, filter_where, ℕ, suc, Bool, true, false, not,
  ◌&&◌, ◌||◌, Option, none, some, List, [], ◌∷◌,
}
use webrana_cloud.Order.Status.{active, expiring_soon, expired, suspended, ◌=s=◌}
use webrana_cloud.Order.Records.{expired_no_renewal, Order, World}
use webrana_cloud.Order.Lifecycle.{Calendar, add_hours, get_grace_period_hours, LifecycleError}
use webrana_cloud.Order.Lifecycle.Renewal.{Answers, attempt_renewal}
use webrana_cloud.Order.Lifecycle.Termination.{CallAnswers, terminate_vps, expire_order}

pub record ProcessingStats : Type 0 where
  pub processed : ℕ
  pub succeeded : ℕ
  pub failed : ℕ
  pub skipped : ℕ
  pub errors : List ℕ

abbrev pub no_stats : ProcessingStats
no_stats = record { processed = 0; succeeded = 0; failed = 0; skipped = 0; errors = [] }

abbrev pub skip : ProcessingStats → ProcessingStats
skip t = record t { skipped = suc t.skipped }

-- The counts after one order, by the answer of its call; an exception's order is noted.
abbrev pub count_outcome :
    {A : Type 0} → (A → Bool) → ℕ → Result LifecycleError A → ProcessingStats → ProcessingStats
count_outcome good i (ok a) t =
    if good a
    then record t { processed = suc t.processed; succeeded = suc t.succeeded }
    else record t { processed = suc t.processed; failed = suc t.failed }
count_outcome good i (err _) t = record t {
  processed = suc t.processed;
  failed = suc t.failed;
  errors = i ∷ t.errors;
}

-- `lte` and `lt` in a `where`: no null meets them.
abbrev pub at_most : Option ℕ → ℕ → Bool
at_most none t = false
at_most (some x) t = leb x t

abbrev pub before : Option ℕ → ℕ → Bool
before none t = false
before (some x) t = ltb x t

abbrev pub is_renewable : ℕ → Order → Bool
is_renewable now o =
    (o.status =s= expiring_soon || o.status =s= expired)
    && o.auto_renew
    && at_most o.expires_at (add_hours now 24)
    && not (is_some o.renewal_fail_reason)

abbrev pub is_overdue : ℕ → Order → Bool
is_overdue now o = (o.status =s= active || o.status =s= expiring_soon) && before o.expires_at now

-- One pass over the snapshots.
abbrev pub sweep :
    (Order → ProcessingStats × World → ProcessingStats × World)
    → List Order
    → ProcessingStats × World
    → ProcessingStats × World
sweep f [] s = s
sweep f (o ∷ os) s = sweep f os (f o s)

abbrev pub renew_one :
    Calendar → ℕ → (ℕ → Answers) → Order → ProcessingStats × World → ProcessingStats × World
renew_one c now answers o (t, w) = (
  count_outcome (λ b. b) o.id (attempt_renewal c now (answers o.id) o w).0 t,
  (attempt_renewal c now (answers o.id) o w).1,
)

unfoldable pub process_auto_renewals :
    Calendar → ℕ → (ℕ → Answers) → World → ProcessingStats × World
unfolding attempt_renewal
process_auto_renewals c now answers w =
    sweep (renew_one c now answers) (filter_where (is_renewable now) w.orders) (no_stats, w)

abbrev pub expire_one :
    ℕ → (ℕ → CallAnswers) → Order → ProcessingStats × World → ProcessingStats × World
expire_one now answers o (t, w) = (
  count_outcome (λ _. true) o.id (expire_order (answers o.id) now o w).0 t,
  (expire_order (answers o.id) now o w).1,
)

unfoldable pub process_expired_vps : ℕ → (ℕ → CallAnswers) → World → ProcessingStats × World
unfolding expire_order
process_expired_vps now answers w =
    sweep (expire_one now answers) (filter_where (is_overdue now) w.orders) (no_stats, w)

-- `now >= graceEndsAt`.
abbrev pub grace_ended : ℕ → Order → ℕ → Bool
grace_ended now o since = leb (add_hours since (get_grace_period_hours o.billing_period)) now

abbrev pub terminate_due :
    ℕ → (ℕ → CallAnswers) → Order → Option ℕ → ProcessingStats × World → ProcessingStats × World
terminate_due now answers o none (t, w) = (skip t, w)
terminate_due now answers o (some since) (t, w) =
    if grace_ended now o since
    then (
      count_outcome (λ _. true) o.id (terminate_vps (answers o.id) now expired_no_renewal o w).0 t,
      (terminate_vps (answers o.id) now expired_no_renewal o w).1,
    )
    else (skip record t { processed = suc t.processed }, w)

unfoldable pub process_suspended_vps : ℕ → (ℕ → CallAnswers) → World → ProcessingStats × World
unfolding terminate_vps get_grace_period_hours
process_suspended_vps now answers w =
    sweep (λ o. terminate_due now answers o o.suspended_at)
      (filter_where (λ o. o.status =s= suspended) w.orders) (no_stats, w)
