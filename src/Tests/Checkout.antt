-- ===== src/Tests/Checkout.antt =====
-- A checkout against the repository's own wallet service: a plan of 15,000 a month, bought by a user
-- with a balance of 50,000.
use webrana_cloud.Base.{
  pos, ◌+ℤ◌, ◌-ℤ◌, Result, ok, err, is_ok, ◌≡◌, refl, true, false, none, some, List, [], ◌∷◌,
}
use webrana_cloud.Billing.Wallet.{get_balance, add_balance, deduct_balance}
use webrana_cloud.Billing.Wallet.Methods.{balance_of}
use webrana_cloud.Order.Records.{monthly, Order, find_order}
use webrana_cloud.Order.Catalog.{by_month, responded, request_failed, CatalogPlan}
use webrana_cloud.Order.Pricing.{get_pricing_for_billing_period, calculate_promo_discount, Totals}
use webrana_cloud.Order.Billing.{
  delivered, response_lost, billing_service_unavailable, client_get_balance,
  check_sufficient_balance, client_deduct_balance,
}
use webrana_cloud.Order.Billing.Wallets.{charge, credit_to, wallets}
use webrana_cloud.Order.Status.{processing, ◌=s=◌}
use webrana_cloud.Order.Service.{database_failed, get_order_by_id, update_order_status_atomic}
use webrana_cloud.Order.Checkout.{
  CheckoutError, of_order, of_billing, CreateOrder, CheckoutAnswers, Shop, take_payment, pay_order,
  CatalogAnswers, price_order, create_order,
}
use webrana_cloud.Order.Provisioning.{status_conflict}
use webrana_cloud.Order.Provisioning.Execution.{StartAnswers, start_provisioning}
use webrana_cloud.Order.Provisioning.Start.{create_order-not_started}
use webrana_cloud.Tests.Amounts.{hundredths}
use webrana_cloud.Tests.Wallet.{funded, funded-IsValid}
use webrana_cloud.Tests.Orders.{orders_world}
use webrana_cloud.Billing.Internal.{get_balance_of, credit_balance_of}
use webrana_cloud.Order.Checkout.Money.{MayHaveCharged, create_order-charges_once}
use webrana_cloud.Order.Checkout.Success.{Sold, create_order-sells}
use webrana_cloud.Order.Checkout.Outcome.{IsSettled, create_order-IsSettled}
use webrana_cloud.Order.Checkout.Refund.{RefundAnswers, handle_provisioning_failed}
use webrana_cloud.Order.Billing.Refinement.{
  MoneyRequest, take_money, give_money, promised, served, served-promised,
}
use webrana_cloud.Order.Checkout.Restored.{create_order-refunded}

abbrev starter : CatalogPlan hundredths
starter = record {
  id = 3;
  is_active = true;
  pricings =
      record { duration = by_month; price = pos 1500000; cost = pos 1000000; is_active = true }
      ∷ [];
  promos = [];
}

abbrev catalog : CatalogAnswers wallets hundredths
catalog = record {
  plan = responded (some starter);
  image = responded (some (record { id = 2; is_active = true }));
  coupon = request_failed;
}

abbrev all_well : CheckoutAnswers
all_well = record {
  checked = delivered;
  created = true;
  deduction = delivered;
  deduction_commits = true;
  status = record { written = true; recorded = true; reread = true };
  order_read = true;
  failure_saved = true;
  failure_recorded = true;
}

abbrev dto : CreateOrder
dto = record {
  plan_id = 3;
  image_id = 2;
  billing_period = monthly;
  coupon_code = none;
  auto_renew = none;
}

abbrev shop : Shop wallets
shop = record { world = orders_world []; money = funded }

abbrev totals : Totals hundredths
totals = record {
  base = pos 1500000;
  promo_discount = pos 0;
  coupon_discount = pos 0;
  final_price = pos 15000;
}

abbrev sale_of : CheckoutAnswers → Result CheckoutError Order × Shop wallets
sale_of a = create_order wallets hundredths 2000 catalog a 1 7 dto shop

priced : price_order wallets hundredths 2000 dto catalog ≡ ok totals
unfolding price_order get_pricing_for_billing_period calculate_promo_discount ◌-ℤ◌
priced = refl

-- The buyer is left with 35,000.
left_over : balance_of 7 (sale_of all_well).1.money ≡ pos 35000
unfolding create_order price_order get_pricing_for_billing_period calculate_promo_discount
    check_sufficient_balance client_get_balance pay_order take_payment client_deduct_balance
    update_order_status_atomic get_order_by_id deduct_balance ◌-ℤ◌ ◌+ℤ◌ get_balance_of get_balance
    charge
left_over = refl

bought : is_ok (sale_of all_well).0 ≡ true
unfolding create_order price_order get_pricing_for_billing_period calculate_promo_discount
    check_sufficient_balance client_get_balance pay_order take_payment client_deduct_balance
    update_order_status_atomic get_order_by_id deduct_balance ◌-ℤ◌ ◌+ℤ◌ get_balance_of get_balance
    charge
bought = refl

create_order-sells_example : Sold wallets hundredths 2000 catalog 1 7 dto shop 7 (sale_of all_well)
create_order-sells_example =
    create_order-sells wallets hundredths 2000 catalog all_well 1 7 dto shop 7 funded-IsValid bought

-- The answer to the deduction is lost: the order fails and the money is gone.
abbrev lost : CheckoutAnswers
lost = record all_well { deduction = response_lost }

lost_sale :
    ((sale_of lost).0 ≡ err (of_billing billing_service_unavailable))
    × (balance_of 7 (sale_of lost).1.money ≡ pos 35000)
unfolding create_order price_order get_pricing_for_billing_period calculate_promo_discount
    check_sufficient_balance client_get_balance pay_order take_payment client_deduct_balance
    update_order_status_atomic get_order_by_id deduct_balance ◌-ℤ◌ ◌+ℤ◌ get_balance_of get_balance
    charge
lost_sale = (refl, refl)

-- The order cannot be read again: the call raises, and the order is paid and processing.
abbrev unread : CheckoutAnswers
unread = record all_well { order_read = false }

unread_sale :
    ((sale_of unread).0 ≡ err (of_order database_failed))
    × (elim (find_order 1 (sale_of unread).1.world) [
      | none ↦ false
      | some o ↦ o.status =s= processing
    ]
        ≡ true)
    × (balance_of 7 (sale_of unread).1.money ≡ pos 35000)
unfolding create_order price_order get_pricing_for_billing_period calculate_promo_discount
    check_sufficient_balance client_get_balance pay_order take_payment client_deduct_balance
    update_order_status_atomic get_order_by_id deduct_balance ◌-ℤ◌ ◌+ℤ◌ get_balance_of get_balance
    charge
unread_sale = (refl, refl, refl)

create_order-charges_once_example :
    MayHaveCharged wallets hundredths 2000 catalog 7 dto funded (sale_of lost).1.money 7
create_order-charges_once_example =
    create_order-charges_once wallets hundredths 2000 catalog lost 1 7 dto shop 7 funded-IsValid

create_order-IsSettled_example :
    IsSettled wallets hundredths unread 1 (orders_world []) (sale_of unread)
create_order-IsSettled_example =
    create_order-IsSettled wallets hundredths 2000 catalog unread 1 7 dto shop refl

abbrev refund_well : RefundAnswers
refund_well = record {
  refund = delivered;
  refund_commits = true;
  order_saved = true;
  history_saved = true;
}

granted :
    is_ok (credit_to true 7 (pos 15000) "PROVISION_FAILED_REFUND" 1 (sale_of all_well).1.money).0
    ≡ true
unfolding create_order price_order get_pricing_for_billing_period calculate_promo_discount
    check_sufficient_balance client_get_balance pay_order take_payment client_deduct_balance
    update_order_status_atomic get_order_by_id deduct_balance ◌-ℤ◌ ◌+ℤ◌ get_balance_of get_balance
    charge credit_to credit_balance_of add_balance
granted = refl

create_order-refunded_example :
    balance_of 7 (handle_provisioning_failed wallets refund_well 1 (sale_of all_well).1).1.money
    ≡ balance_of 7 funded
create_order-refunded_example =
    create_order-refunded wallets hundredths 2000 catalog all_well refund_well 1 7 dto shop 7 totals
      funded-IsValid bought priced refl granted

-- An order that a coupon or a promo makes free always fails.
abbrev free : CatalogPlan hundredths
free = record starter {
  pricings = record { duration = by_month; price = pos 0; cost = pos 0; is_active = true } ∷ [];
}

free_sale :
    (create_order wallets hundredths 2000
      (record catalog { plan = responded (some free) })
      all_well
      1
      7
      dto
      shop).0
    ≡ err (of_billing billing_service_unavailable)
unfolding create_order price_order get_pricing_for_billing_period calculate_promo_discount
    check_sufficient_balance client_get_balance pay_order take_payment client_deduct_balance
    update_order_status_atomic get_order_by_id deduct_balance ◌-ℤ◌ ◌+ℤ◌ get_balance_of get_balance
    charge
free_sale = refl

abbrev start : StartAnswers
start = record {
  task_id = 11;
  now = 2100;
  probes = λ _. record { reported = none; saved = true; fault_saved = true };
  task_created = true;
  moved = true;
}

create_order-not_started_example :
    start_provisioning start 1 (sale_of all_well).1.world
    ≡ (err status_conflict, (sale_of all_well).1.world)
create_order-not_started_example =
    create_order-not_started wallets hundredths 2000 catalog all_well 1 7 dto shop start
      funded-IsValid bought

-- A deduction, one that the balance does not cover, and a credit.
abbrev requests : List MoneyRequest
requests =
    take_money true 7 (pos 15000) "VPS_ORDER" 1
    ∷ take_money true 7 (pos 40000) "VPS_ORDER" 2
    ∷ give_money true 7 (pos 15000) "PROVISION_FAILED_REFUND" 1
    ∷ []

served-promised_example :
    ((served requests funded).0 ≡ (promised requests (λ u. balance_of u funded)).0)
    × (balance_of 7 (served requests funded).1 ≡ (promised requests (λ u. balance_of u funded)).1 7)
served-promised_example = served-promised requests funded 7 funded-IsValid

served_lem :
    ((served requests funded).0 ≡ true ∷ false ∷ true ∷ [])
    × (balance_of 7 (served requests funded).1 ≡ pos 50000)
unfolding charge credit_to get_balance add_balance deduct_balance ◌-ℤ◌ ◌+ℤ◌
served_lem = (refl, refl)
