-- ===== src/Order/Checkout/Refund.antt =====
-- `handleProvisioningFailed` (apps/order-service/src/modules/order/order.service.ts): an order that
-- cannot be provisioned is paid back.
use webrana_cloud.Base.{Action, pure, catch_with, ◌>>=◌, attempt, ℕ, Bool, Option, none, some}
use webrana_cloud.Order.Status.{OrderStatus, failed}
use webrana_cloud.Order.Records.{
  do_account_issue, Order, find_order, update_order, add_status_history,
}
use webrana_cloud.Order.Billing.{BillingService, Delivery, ClientError, client_refund_balance}
use webrana_cloud.Order.Service.{database_failed, status_row}
use webrana_cloud.Order.Checkout.{CheckoutError, Shop, on_world, on_money}

pub record RefundAnswers : Type 0 where
  pub refund : Delivery
  pub refund_commits : Bool
  pub order_saved : Bool
  pub history_saved : Bool

module _ (b : BillingService) where
  abbrev pub unprovisioned : Order → Order
  unprovisioned o = record o { status = failed; termination_reason = some do_account_issue }

  abbrev pub save_unprovisioned : RefundAnswers → ℕ → Action (Shop b) CheckoutError (Unit {0})
  save_unprovisioned a i =
      on_world b (attempt a.order_saved database_failed (update_order i unprovisioned))

  abbrev pub record_unprovisioned :
      RefundAnswers → ℕ → OrderStatus → Action (Shop b) CheckoutError (Unit {0})
  record_unprovisioned a i previous = on_world b (
      attempt a.history_saved database_failed
        (add_status_history (status_row i (some previous) failed)))

  -- What follows the refund, which may have failed.
  abbrev pub close_order :
      RefundAnswers → ℕ → OrderStatus → Action (Shop b) CheckoutError (Unit {0})
  close_order a i previous = save_unprovisioned a i >>= λ _. record_unprovisioned a i previous

  abbrev pub pay_back : RefundAnswers → ℕ → Order → Action b.Accounts ClientError (Unit {0})
  pay_back a i o =
      client_refund_balance b a.refund a.refund_commits o.user_id o.final_price
        "PROVISION_FAILED_REFUND" i

  abbrev pub refund_order : RefundAnswers → ℕ → Order → Action (Shop b) CheckoutError (Unit {0})
  refund_order a i o = catch_with (on_money b (pay_back a i o)) (λ _. pure tt)

  abbrev pub undo : RefundAnswers → ℕ → Option Order → Action (Shop b) CheckoutError (Unit {0})
  undo a i none = pure tt
  undo a i (some o) = refund_order a i o >>= λ _. close_order a i o.status

  unfoldable pub handle_provisioning_failed :
      RefundAnswers → ℕ → Action (Shop b) CheckoutError (Unit {0})
  unfolding client_refund_balance
  handle_provisioning_failed a i s = undo a i (find_order i s.world) s
