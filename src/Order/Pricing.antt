-- ===== src/Order/Pricing.antt =====
-- The prices of an order (apps/order-service/src/modules/order/order.service.ts): the plan's price
-- for a period, the promo of the plan and the coupon.
use webrana_cloud.Base.{
  leb, if◌then◌else◌, first_of, ℤ, pos, Result, ok, err, find, filter_where, Number, Code, ℕ, Bool,
  true, false, not, ◌&&◌, Option, none, some, List, [], ◌∷◌,
}
use webrana_cloud.Order.Records.{
  BillingPeriod, daily, monthly, yearly, PlanDuration, monthly_plan, quarterly_plan,
  semi_annual_plan, annual_plan,
}
use webrana_cloud.Order.Catalog.{
  CatalogDuration, by_day, by_month, by_quarter, by_half_year, by_year, percent_off, fixed_off,
  Response, CatalogError, PlanPricing, PlanPromo, CatalogPlan, CouponResult, catalog_coupon,
}

infix 50 ◌=d=◌
abbrev pub ◌=d=◌ : CatalogDuration → CatalogDuration → Bool
by_day =d= by_day = true
by_month =d= by_month = true
by_quarter =d= by_quarter = true
by_half_year =d= by_half_year = true
by_year =d= by_year = true
_ =d= _ = false

abbrev pub duration_map : PlanDuration → CatalogDuration
duration_map monthly_plan = by_month
duration_map quarterly_plan = by_quarter
duration_map semi_annual_plan = by_half_year
duration_map annual_plan = by_year

abbrev pub period_map : BillingPeriod → CatalogDuration
period_map daily = by_day
period_map monthly = by_month
period_map yearly = by_year

unfoldable pub billing_period_to_legacy_duration : BillingPeriod → PlanDuration
billing_period_to_legacy_duration daily = monthly_plan
billing_period_to_legacy_duration monthly = monthly_plan
billing_period_to_legacy_duration yearly = annual_plan

module _ (n : Number) where
  pub record Quote : Type 0 where
    pub price : n.Num
    pub cost : n.Num

  abbrev pub sells : CatalogDuration → PlanPricing n → Bool
  sells d p = p.duration =d= d && p.is_active

  abbrev pub quote_of : Option (PlanPricing n) → Option Quote
  quote_of none = none
  quote_of (some p) = some record { price = p.price; cost = p.cost }

  abbrev pub pricing : CatalogPlan n → CatalogDuration → Option (PlanPricing n)
  pricing plan d = find (sells d) plan.pricings

  unfoldable pub get_pricing_for_duration : CatalogPlan n → PlanDuration → Option Quote
  get_pricing_for_duration plan monthly_plan = quote_of (pricing plan by_month)
  get_pricing_for_duration plan duration =
      first_of (quote_of (pricing plan (duration_map duration))) (quote_of (pricing plan by_month))

  abbrev pub a_28th : n.Num → n.Num
  a_28th x = n.of_ℤ (n.ceil (n.div x (n.of_ℤ (pos 28))))

  abbrev pub daily_quote : Option (PlanPricing n) → Option Quote
  daily_quote none = none
  daily_quote (some p) = some record { price = a_28th p.price; cost = a_28th p.cost }

  unfoldable pub get_pricing_for_billing_period : CatalogPlan n → BillingPeriod → Option Quote
  get_pricing_for_billing_period plan daily =
      first_of (quote_of (pricing plan (period_map daily)))
        (first_of (daily_quote (pricing plan by_month)) (quote_of (pricing plan by_month)))
  get_pricing_for_billing_period plan monthly = quote_of (pricing plan (period_map monthly))
  get_pricing_for_billing_period plan yearly =
      first_of (quote_of (pricing plan (period_map yearly))) (quote_of (pricing plan by_month))

  abbrev pub runs : ℕ → PlanPromo n → Bool
  runs now p = p.is_active && leb p.start_date now && leb now p.end_date

  abbrev pub promo_off : n.Num → List (PlanPromo n) → n.Num
  promo_off base [] = n.of_ℤ (pos 0)
  promo_off base (promo ∷ _) = elim promo.discount_type [
    | percent_off ↦ n.of_ℤ (n.round (n.mul base (n.div promo.discount_value (n.of_ℤ (pos 100)))))
    | fixed_off ↦ promo.discount_value
  ]

  unfoldable pub calculate_promo_discount : ℕ → CatalogPlan n → n.Num → n.Num
  calculate_promo_discount now plan base = promo_off base (filter_where (runs now) plan.promos)

  -- A number that a test takes as false: neither above nor below zero.
  abbrev pub is_falsy : n.Num → Bool
  is_falsy x = not (n.ltb_num x (n.of_ℤ (pos 0))) && not (n.ltb_num (n.of_ℤ (pos 0)) x)

  -- `x || y`.
  abbrev pub or_else : Option n.Num → n.Num → n.Num
  or_else none y = y
  or_else (some x) y = if is_falsy x then y else x

  pub record Totals : Type 0 where
    pub base : n.Num
    pub promo_discount : n.Num
    pub coupon_discount : n.Num
    pub final_price : ℤ

  abbrev pub rounded : n.Num → ℤ
  rounded x = n.round (n.max_num (n.of_ℤ (pos 0)) x)

  abbrev pub after_promo : n.Num → n.Num → n.Num
  after_promo base promo = n.sub base promo

  abbrev pub plain_totals : n.Num → n.Num → Totals
  plain_totals base promo = record {
    base = base;
    promo_discount = promo;
    coupon_discount = n.of_ℤ (pos 0);
    final_price = rounded (after_promo base promo);
  }

  abbrev pub coupon_off : CouponResult n → n.Num
  coupon_off r = or_else r.discount_amount (n.of_ℤ (pos 0))

  abbrev pub coupon_totals : n.Num → n.Num → CouponResult n → Totals
  coupon_totals base promo r = record {
    base = base;
    promo_discount = promo;
    coupon_discount = coupon_off r;
    final_price = rounded (or_else r.final_price (n.sub (after_promo base promo) (coupon_off r)));
  }

  abbrev pub coupon_answer :
      n.Num → n.Num → Result CatalogError (CouponResult n) → Result CatalogError Totals
  coupon_answer base promo (err e) = err e
  coupon_answer base promo (ok r) = ok (coupon_totals base promo r)

  -- The coupon is asked about only where the request has one.
  abbrev pub with_coupon :
      Option Code → n.Num → n.Num → Response (CouponResult n) → Result CatalogError Totals
  with_coupon none base promo answer = ok (plain_totals base promo)
  with_coupon (some []) base promo answer = ok (plain_totals base promo)
  with_coupon (some (_ ∷ _)) base promo answer = coupon_answer base promo (catalog_coupon n answer)
