-- ===== src/Order/Lifecycle/Expiry.antt =====
-- The new expiry of a renewed order.
use webrana_cloud.Base.{ℕ, ◌≤◌, ◌<◌, Option, none, some, arith}
use webrana_cloud.Order.Records.{BillingPeriod, daily, monthly, yearly, Order}
use webrana_cloud.Order.Lifecycle.{Calendar, base_date, add_period, calculate_new_expiry}

-- `setMonth` and `setFullYear` move a date forward.
pub record IsForward (c : Calendar) : Type 0 where
  pub months : (t : ℕ) → t < c.add_months t 1
  pub years : (t : ℕ) → t < c.add_years t 1

add_period-later : (c : Calendar) (p : BillingPeriod) (t : ℕ) → IsForward c → t < add_period c p t
add_period-later c daily t f = omega arith
add_period-later c monthly t f = f.months t
add_period-later c yearly t f = f.years t

abbrev pub old_expiry : Order → ℕ
old_expiry o = elim o.expires_at [ none ↦ 0 | some t ↦ t ]

base_date-latest :
    (now : ℕ) (t : Option ℕ)
    → (now ≤ base_date now t) × (elim t [ none ↦ 0 | some u ↦ u ] ≤ base_date now t)
base_date-latest now none = (omega arith, omega arith)
base_date-latest now (some t) = (ground arith, ground arith)

-- With a calendar that moves forward, the new expiry comes after now and after the old expiry.
pub calculate_new_expiry-later :
    (c : Calendar) (now : ℕ) (o : Order)
    → IsForward c
    → (now < calculate_new_expiry c now o) × (old_expiry o < calculate_new_expiry c now o)
unfolding calculate_new_expiry
calculate_new_expiry-later c now o f =
    let (after_now, after_old) = base_date-latest now o.expires_at in
    let later = add_period-later c o.billing_period (base_date now o.expires_at) f in
    (omega arith, omega arith)
