-- ===== src/Order/Checkout.antt =====
-- `createOrder` (apps/order-service/src/modules/order/order.service.ts) over the order service's
-- database and the billing service's accounts: an order is paid before it is provisioned. A child
-- has the refund.
pub mod Money
pub mod Outcome
pub mod Refund
pub mod Restored
pub mod Success
use webrana_cloud.Base.{
  ℤ, Result, ok, err, Action, raise, catch_with, ◌>>=◌, raise_if, attempt, Number, Code, ℕ, Bool,
  true, not, Option, none, some, [], ◌∷◌,
}
use webrana_cloud.Order.Status.{pending, processing, failed}
use webrana_cloud.Order.Records.{
  BillingPeriod, Order, OrderItem, World, update_order, add_status_history,
}
use webrana_cloud.Order.Catalog.{
  Response, CatalogError, CatalogImage, CatalogPlan, CouponResult, get_plan_by_id, get_image_by_id,
}
use webrana_cloud.Order.Pricing.{
  billing_period_to_legacy_duration, Quote, get_pricing_for_billing_period,
  calculate_promo_discount, Totals, with_coupon,
}
use webrana_cloud.Order.Billing.{
  BillingService, Delivery, ClientError, check_sufficient_balance, client_deduct_balance,
}
use webrana_cloud.Order.Service.{
  OrderError, database_failed, get_order_by_id, status_row, Additional, nothing_more, AtomicAnswers,
  update_order_status_atomic,
}

pub data CheckoutError : Type 0 where
  of_order : OrderError → CheckoutError
  of_catalog : CatalogError → CheckoutError
  of_billing : ClientError → CheckoutError
  short_of_balance : ℤ → CheckoutError
  invalid_billing_period : CheckoutError

abbrev pub raising : {E F A : Type 0} → (E → F) → Result E A → Result F A
raising f (ok a) = ok a
raising f (err e) = err (f e)

-- `CreateOrderDto`.
pub record CreateOrder : Type 0 where
  pub plan_id : ℕ
  pub image_id : ℕ
  pub billing_period : BillingPeriod
  pub coupon_code : Option Code
  pub auto_renew : Option Bool

-- `dto.couponCode || null`.
abbrev pub some_code : Option Code → Option Code
some_code none = none
some_code (some []) = none
some_code (some (c ∷ cs)) = some (c ∷ cs)

-- What the database, the billing service and the network answer in one checkout.
pub record CheckoutAnswers : Type 0 where
  pub checked : Delivery
  pub created : Bool
  pub deduction : Delivery
  pub deduction_commits : Bool
  pub status : AtomicAnswers
  pub order_read : Bool
  pub failure_saved : Bool
  pub failure_recorded : Bool

-- `dto.autoRenew ?? true`: the order is renewed unless the request says otherwise.
abbrev pub renews : Option Bool → Bool
renews none = true
renews (some b) = b

module _ (b : BillingService) where
  pub record Shop : Type 0 where
    pub world : World
    pub money : b.Accounts

  abbrev pub on_world : {A : Type 0} → Action World OrderError A → Action Shop CheckoutError A
  on_world m s = (raising of_order (m s.world).0, record s { world = (m s.world).1 })

  abbrev pub on_money : {A : Type 0} → Action b.Accounts ClientError A → Action Shop CheckoutError A
  on_money m s = (raising of_billing (m s.money).0, record s { money = (m s.money).1 })

  abbrev pub failed_order : Order → Order
  failed_order o = record o { status = failed }

  -- The `catch` of the payment.
  abbrev pub save_failure : CheckoutAnswers → ℕ → Action Shop CheckoutError (Unit {0})
  save_failure a i =
      on_world (attempt a.failure_saved database_failed (update_order i failed_order))

  abbrev pub record_failure : CheckoutAnswers → ℕ → Action Shop CheckoutError (Unit {0})
  record_failure a i = on_world (
      attempt a.failure_recorded database_failed
        (add_status_history (status_row i (some pending) failed)))

  abbrev pub fail_order :
      {A : Type 0} → CheckoutAnswers → ℕ → CheckoutError → Action Shop CheckoutError A
  fail_order a i e = save_failure a i >>= λ _. (record_failure a i >>= λ _. raise e)

  abbrev pub paid_now : ℕ → Additional
  paid_now now = record nothing_more { paid_at = some now }

  abbrev pub sale : CheckoutAnswers → ℕ → ℕ → ℤ → Action b.Accounts ClientError (Unit {0})
  sale a i user price =
      client_deduct_balance b a.deduction a.deduction_commits user price "VPS_ORDER" i

  abbrev pub deduct : CheckoutAnswers → ℕ → ℕ → ℤ → Action Shop CheckoutError (Unit {0})
  deduct a i user price = on_money (sale a i user price)

  abbrev pub advance : ℕ → CheckoutAnswers → ℕ → Action Shop CheckoutError (Option Order)
  advance now a i =
      on_world (update_order_status_atomic a.status i pending processing (paid_now now))

  abbrev pub reread : CheckoutAnswers → ℕ → Action Shop CheckoutError Order
  reread a i = on_world (get_order_by_id a.order_read i none)

  -- What the `try` awaits: the deduction and the status.
  unfoldable pub take_payment :
      ℕ → CheckoutAnswers → ℕ → ℕ → ℤ → Action Shop CheckoutError (Option Order)
  unfolding client_deduct_balance update_order_status_atomic
  take_payment now a i user price = deduct a i user price >>= λ _. advance now a i

  -- With its `catch`.
  abbrev pub take_or_fail :
      ℕ → CheckoutAnswers → ℕ → ℕ → ℤ → Action Shop CheckoutError (Option Order)
  take_or_fail now a i user price = catch_with (take_payment now a i user price) (fail_order a i)

  -- The promise of `getOrderById` is returned as it is, so its exception passes by the `catch`.
  unfoldable pub pay_order : ℕ → CheckoutAnswers → ℕ → ℕ → ℤ → Action Shop CheckoutError Order
  unfolding take_payment get_order_by_id
  pay_order now a i user price = take_or_fail now a i user price >>= λ _. reread a i

  module _ (n : Number) where
    abbrev pub new_order : ℕ → ℕ → CreateOrder → Totals n → Order
    new_order i user dto t = record {
      id = i;
      user_id = user;
      plan_id = dto.plan_id;
      image_id = dto.image_id;
      duration = billing_period_to_legacy_duration dto.billing_period;
      billing_period = dto.billing_period;
      base_price = n.round t.base;
      promo_discount = n.round t.promo_discount;
      coupon_code = some_code dto.coupon_code;
      coupon_discount = n.round t.coupon_discount;
      final_price = t.final_price;
      status = pending;
      version = 0;
      activated_at = none;
      paid_at = none;
      expires_at = none;
      suspended_at = none;
      terminated_at = none;
      auto_renew = renews dto.auto_renew;
      last_renewal_at = none;
      renewal_fail_reason = none;
      termination_reason = none;
    }

    abbrev pub new_item : ℕ → CreateOrder → Totals n → OrderItem
    new_item i dto t = record {
      order_id = i;
      reference_id = dto.plan_id;
      unit_price = n.round t.base;
      quantity = 1;
      total_price = n.round t.base;
    }

    -- The three rows of the transaction.
    abbrev pub insert_order : ℕ → ℕ → CreateOrder → Totals n → World → World
    insert_order i user dto t w = add_status_history (status_row i none pending) (record w {
      orders = new_order i user dto t ∷ w.orders;
      items = new_item i dto t ∷ w.items;
    })

    -- The catalog's answers to one checkout.
    pub record CatalogAnswers : Type 0 where
      pub plan : Response (CatalogPlan n)
      pub image : Response CatalogImage
      pub coupon : Response (CouponResult n)

    abbrev pub priced :
        ℕ
        → CreateOrder
        → Response (CouponResult n)
        → CatalogPlan n
        → Option (Quote n)
        → Result CheckoutError (Totals n)
    priced now dto coupon plan none = err invalid_billing_period
    priced now dto coupon plan (some q) =
        raising of_catalog (
          with_coupon n dto.coupon_code q.price (calculate_promo_discount n now plan q.price)
            coupon)

    abbrev pub price_plan :
        ℕ
        → CreateOrder
        → CatalogAnswers
        → Result CatalogError (CatalogPlan n)
        → Result CatalogError CatalogImage
        → Result CheckoutError (Totals n)
    price_plan now dto c (err e) image = err (of_catalog e)
    price_plan now dto c (ok plan) (err e) = err (of_catalog e)
    price_plan now dto c (ok plan) (ok image) =
        priced now dto c.coupon plan (get_pricing_for_billing_period n plan dto.billing_period)

    -- Steps 1 to 6.
    unfoldable pub price_order : ℕ → CreateOrder → CatalogAnswers → Result CheckoutError (Totals n)
    price_order now dto c = price_plan now dto c (get_plan_by_id n c.plan) (get_image_by_id c.image)

    abbrev pub raised : {A : Type 0} → Result CheckoutError A → Action Shop CheckoutError A
    raised r s = (r, s)

    abbrev pub check : CheckoutAnswers → ℕ → ℤ → Action Shop CheckoutError Bool
    check a user price = on_money (check_sufficient_balance b a.checked user price)

    abbrev pub open_order :
        CheckoutAnswers → ℕ → ℕ → CreateOrder → Totals n → Action Shop CheckoutError (Unit {0})
    open_order a i user dto t =
        on_world (attempt a.created database_failed (insert_order i user dto t))

    -- What follows the balance check.
    abbrev pub place :
        ℕ
        → CheckoutAnswers
        → ℕ
        → ℕ
        → CreateOrder
        → Totals n
        → Bool
        → Action Shop CheckoutError Order
    place now a i user dto t enough =
        raise_if (not enough) (short_of_balance t.final_price) >>= λ _.
        (open_order a i user dto t >>= λ _. pay_order now a i user t.final_price)

    abbrev pub buy :
        ℕ → CheckoutAnswers → ℕ → ℕ → CreateOrder → Totals n → Action Shop CheckoutError Order
    buy now a i user dto t =
        check a user t.final_price >>= λ enough. place now a i user dto t enough

    unfoldable pub create_order :
        ℕ → CatalogAnswers → CheckoutAnswers → ℕ → ℕ → CreateOrder → Action Shop CheckoutError Order
    unfolding pay_order check_sufficient_balance
    create_order now c a i user dto = raised (price_order now dto c) >>= λ t. buy now a i user dto t
