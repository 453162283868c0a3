-- ===== src/Order/Lifecycle.antt =====
-- The lifecycle service (apps/order-service/src/modules/lifecycle/lifecycle.service.ts): its
-- settings here, and a child for each kind of operation. `setMonth`, `setFullYear` and
-- `setDate` work in the host's time zone and are a parameter.
pub mod Expiry
pub mod Renewal
pub mod Restoration
pub mod Sweeps
pub mod Termination
pub mod Warnings
use webrana_cloud.Base.{
  ltb, if◌then◌else◌, ℕ, ◌+◌, ◌*◌, Bool, true, false, Option, none, some, List, [], ◌∷◌,
}
use webrana_cloud.Order.Records.{BillingPeriod, daily, monthly, yearly, Order}

pub record Calendar : Type 0 where
  pub add_months : ℕ → ℕ → ℕ
  pub add_years : ℕ → ℕ → ℕ
  pub add_dates : ℕ → ℕ → ℕ

abbrev pub add_hours : ℕ → ℕ → ℕ
add_hours date hours = date + hours * 60 * 60 * 1000

abbrev pub add_days : ℕ → ℕ → ℕ
add_days date days = date + days * 24 * 60 * 60 * 1000

unfoldable pub get_grace_period_hours : BillingPeriod → ℕ
get_grace_period_hours daily = 0
get_grace_period_hours monthly = 24
get_grace_period_hours yearly = 72

unfoldable pub uses_suspend : BillingPeriod → Bool
uses_suspend daily = false
uses_suspend _ = true

unfoldable pub get_notification_thresholds : BillingPeriod → List ℕ
get_notification_thresholds daily = 8 ∷ []
get_notification_thresholds _ = 168 ∷ 72 ∷ 24 ∷ 8 ∷ []

-- The expiry if it is still to come, otherwise `now`.
abbrev pub base_date : ℕ → Option ℕ → ℕ
base_date now none = now
base_date now (some t) = if ltb now t then t else now

abbrev pub add_period : Calendar → BillingPeriod → ℕ → ℕ
add_period c daily base = add_days base 1
add_period c monthly base = c.add_months base 1
add_period c yearly base = c.add_years base 1

unfoldable pub calculate_new_expiry : Calendar → ℕ → Order → ℕ
calculate_new_expiry c now o = add_period c o.billing_period (base_date now o.expires_at)

pub data LifecycleError : Type 0 where
  database_error billing_error provider_error notification_error : LifecycleError
