-- ===== src/Order/Lifecycle/Restoration.antt =====
-- `restoreSuspendedVps`.
use webrana_cloud.Base.{
  if◌then◌else◌, Result, ok, err, Action, pure, or_raise, ◌>>=◌, ◌>>◌, ℕ, Bool, true, not, Option,
  none, some,
}
use webrana_cloud.Order.Status.{suspended, ◌=s=◌}
use webrana_cloud.Order.Records.{Order, World, find_order}
use webrana_cloud.Order.Lifecycle.{Calendar, LifecycleError, billing_error}
use webrana_cloud.Order.Lifecycle.Renewal.{Answers, attempt_renewal}
use webrana_cloud.Order.Lifecycle.Termination.{CallAnswers, power_on_droplet}

pub data RestoreError : Type 0 where
  not_found not_suspended insufficient_for_renewal restoration_failed : RestoreError

-- `first_check` is the answer to the balance check before the attempt; it raises where it is none.
abbrev pub precheck : Answers → Option Bool → Action World LifecycleError Bool
precheck a first_check =
    if a.has_billing_client then or_raise first_check billing_error else pure true

abbrev pub restored :
    CallAnswers → ℕ → Bool → Action World LifecycleError (Result RestoreError (Unit {0}))
restored b order success =
    if success then (power_on_droplet b order >> pure (ok tt)) else pure (err restoration_failed)

abbrev pub restore_found :
    Calendar
    → ℕ
    → Option Bool
    → Answers
    → CallAnswers
    → Option Order
    → Action World LifecycleError (Result RestoreError (Unit {0}))
restore_found c now first_check a b none = pure (err not_found)
restore_found c now first_check a b (some o) =
    if not (o.status =s= suspended)
    then pure (err not_suspended)
    else (precheck a first_check >>= λ enough.
        if not enough
        then pure (err insufficient_for_renewal)
        else (attempt_renewal c now a o >>= restored b o.id))

unfoldable pub restore_suspended_vps :
    Calendar
    → ℕ
    → Option Bool
    → Answers
    → CallAnswers
    → ℕ
    → Action World LifecycleError (Result RestoreError (Unit {0}))
unfolding attempt_renewal power_on_droplet
restore_suspended_vps c now first_check a b order w =
    restore_found c now first_check a b (find_order order w) w
