-- ===== src/Order/Lifecycle/Renewal/Payment.antt =====
-- A renewal is paid for.
use webrana_cloud.Base.{
  leb, if◌then◌else◌, Result, ok, err, update_row, ℕ, suc, ◌+◌, ◌≡◌, refl, ap, ◌∙◌, Bool, true,
  false, ◌&&◌, Option, none, some, List, [], ◌∷◌, arith,
}
use webrana_cloud.Order.Status.{active}
use webrana_cloud.Order.Records.{
  BillingPeriod, daily, monthly, yearly, FailReason, Order, World, has_id,
}
use webrana_cloud.Order.Lifecycle.{
  Calendar, base_date, add_period, calculate_new_expiry, LifecycleError,
}
use webrana_cloud.Order.Lifecycle.Renewal.{
  deducted, not_deducted, Answers, failed_with, renewed, refuse, extend, charge_and_extend,
  attempt_renewal,
}

-- The orders but for the reasons of failed renewals.
abbrev pub terms : List Order → List Order
terms [] = []
terms (o ∷ os) = record o { renewal_fail_reason = none } ∷ terms os

terms-failed_with :
    (r : FailReason) (p : Order → Bool) (os : List Order)
    → terms (update_row p (failed_with r) os) ≡ terms os
terms-failed_with r p [] = refl
terms-failed_with r p (o ∷ os) = ground (arith, terms-failed_with r p os)

-- Whether every call on the way to the end of a renewal answers well.
abbrev pub all_well : Answers → Bool
all_well a =
    a.has_billing_client
    && elim a.has_sufficient [ none ↦ false | some b ↦ b ]
    && elim a.deduction [ deducted ↦ true | _ ↦ false ]
    && a.order_saved
    && a.renewal_saved
    && a.status_saved
    && a.notified

abbrev pub says_true : Result LifecycleError Bool → Bool
says_true (ok b) = b
says_true (err _) = false

-- An attempt at a renewal returns true just where the billing client is configured, reports enough
-- balance and answers the deduction, and each write after it and the notification go through.
pub attempt_renewal-succeeds :
    (c : Calendar) (now : ℕ) (a : Answers) (o : Order) (w : World)
    → says_true (attempt_renewal c now a o w).0 ≡ all_well a
unfolding attempt_renewal charge_and_extend extend refuse
attempt_renewal-succeeds c now a o w = ground arith

-- Whether the attempt reaches a deduction that the billing service makes.
abbrev pub charged : Answers → Bool
charged a =
    a.has_billing_client
    && elim a.has_sufficient [ none ↦ false | some b ↦ b ]
    && elim a.deduction [ not_deducted ↦ false | _ ↦ true ]

abbrev pub answered : Answers → Bool
answered a = elim a.deduction [ deducted ↦ true | _ ↦ false ]

-- When a renewed term ends: one period after the later of now and the end of the old one.
abbrev pub term_start : ℕ → Option ℕ → ℕ
term_start now none = now
term_start now (some t) = if leb t now then now else t

abbrev pub one_period_on : Calendar → BillingPeriod → ℕ → ℕ
one_period_on c daily t = t + 86400000
one_period_on c monthly t = c.add_months t 1
one_period_on c yearly t = c.add_years t 1

abbrev pub term_end : Calendar → ℕ → Order → ℕ
term_end c now o = one_period_on c o.billing_period (term_start now o.expires_at)

-- A row with the renewed term of `o`.
abbrev pub prolonged : Calendar → ℕ → Order → Order → Order
prolonged c now o x = record x {
  status = active;
  expires_at = some (term_end c now o);
  last_renewal_at = some now;
  renewal_fail_reason = none;
  version = suc x.version;
}

term_start_lem : (now : ℕ) (t : Option ℕ) → base_date now t ≡ term_start now t
term_start_lem now none = refl
term_start_lem now (some t) = ground arith

add_period_lem : (c : Calendar) (p : BillingPeriod) (t : ℕ) → add_period c p t ≡ one_period_on c p t
add_period_lem c daily t = omega arith
add_period_lem c monthly t = refl
add_period_lem c yearly t = refl

term_end_lem :
    (c : Calendar) (now : ℕ) (o : Order) → calculate_new_expiry c now o ≡ term_end c now o
unfolding calculate_new_expiry
term_end_lem c now o =
    add_period_lem c o.billing_period (base_date now o.expires_at)
    ∙ ap (one_period_on c o.billing_period) (term_start_lem now o.expires_at)

attempt_renewal-renews :
    (c : Calendar) (now : ℕ) (a : Answers) (o : Order) (w : World)
    → terms (attempt_renewal c now a o w).1.orders
      ≡ terms (
          if charged a && answered a && a.order_saved
          then update_row (has_id o.id) (renewed now (calculate_new_expiry c now o)) w.orders
          else w.orders)
unfolding attempt_renewal charge_and_extend extend refuse
attempt_renewal-renews c now a o w = grind (arith, terms-failed_with)

-- Whatever the billing service, the notifications and the database answer, the orders after an
-- attempt, but for their reasons of failed renewals, are the ones before, except that just where
-- the order was charged, the charge was answered and the write to the order went through, its row
-- is active again, renewed now, one version on, and expires one period after the later of now and
-- its old expiry.
pub attempt_renewal-terms :
    (c : Calendar) (now : ℕ) (a : Answers) (o : Order) (w : World)
    → terms (attempt_renewal c now a o w).1.orders
      ≡ terms (
          if charged a && answered a && a.order_saved
          then update_row (has_id o.id) (prolonged c now o) w.orders
          else w.orders)
attempt_renewal-terms c now a o w =
    let same : renewed now (calculate_new_expiry c now o) ≡ prolonged c now o =
      ap (λ t. renewed now t) (term_end_lem c now o) in
    attempt_renewal-renews c now a o w
    ∙ ap
        (λ f. terms (
          if charged a && answered a && a.order_saved
          then update_row (has_id o.id) f w.orders
          else w.orders))
        same
