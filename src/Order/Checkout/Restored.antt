-- ===== src/Order/Checkout/Restored.antt =====
-- The refund undoes the charge.
use webrana_cloud.Base.{
  ◌==◌, if◌then◌else◌, Bool-cases, ==_refl, ℤ, ◌+ℤ◌, ◌-ℤ◌, int_laws, ok, is_ok, pure, bind-kept,
  recover-kept, Number, ℕ, ◌≡◌, refl, sym, ap, ◌∙◌, subst, inl, inr, true, some, arith,
}
use webrana_cloud.Order.Records.{Order, find_order}
use webrana_cloud.Order.Pricing.{Totals}
use webrana_cloud.Order.Billing.{BillingService, delivered, client_refund_balance}
use webrana_cloud.Order.Checkout.{
  CreateOrder, CheckoutAnswers, Shop, on_money, CatalogAnswers, priced, price_order, buy,
  create_order,
}
use webrana_cloud.Order.Checkout.Refund.{
  RefundAnswers, save_unprovisioned, record_unprovisioned, close_order, pay_back, refund_order,
  undo, handle_provisioning_failed,
}
use webrana_cloud.Order.Checkout.Money.{charged}
use webrana_cloud.Order.Checkout.Success.{buy-sells, create_order-buy}

restored : (a x : ℤ) → (a -ℤ x) +ℤ x ≡ a
restored a x = grind int_laws

module _ (b : BillingService) where
  abbrev pub credited : ℕ → ℤ → b.Accounts → ℕ → ℤ
  credited user x m v = if v == user then b.balance user m +ℤ x else b.balance v m

  -- A credit after a charge.
  paid_back :
      (user : ℕ) (x : ℤ) (m m' : b.Accounts) (v : ℕ)
      → b.balance v m' ≡ charged b user x m v
      → b.balance user m' ≡ charged b user x m user
      → credited user x m' v ≡ b.balance v m
  paid_back user x m m' v other own = elim (Bool-cases (v == user)) [
    | inl buyer ↦
        let same : v ≡ user = ground (arith, buyer) in
        rw buyer (rw own (rw (==_refl user) (rw same (restored (b.balance user m) x))))
    | inr apart ↦ rw apart (rw other (rw apart refl))
  ]

  undo-money :
      (a : RefundAnswers) (i : ℕ) (o : Order) (s : Shop b)
      → (undo b a i (some o) s).1.money ≡ (pay_back b a i o s.money).1
  undo-money a i o s =
      let view : Shop b → b.Accounts = λ t. t.money in
      bind-kept view (refund_order b a i o) (λ _. close_order b a i o.status) s
        (λ _ t.
          bind-kept view (save_unprovisioned b a i) (λ _. record_unprovisioned b a i o.status) t
            (λ _ _. refl))
      ∙ recover-kept view (on_money b (pay_back b a i o) s) (λ _. pure tt) (λ _ _. refl)

  -- Where provisioning has failed and the refund is delivered and granted, the buyer's balance rises
  -- by the price of the order and no other balance changes.
  pub handle_provisioning_failed-credits :
      (a : RefundAnswers) (i : ℕ) (s : Shop b) (v : ℕ) {o : Order}
      → b.IsGood s.money
      → find_order i s.world ≡ some o
      → a.refund ≡ delivered
      → is_ok
          (b.credit a.refund_commits o.user_id o.final_price "PROVISION_FAILED_REFUND" i s.money).0
        ≡ true
      → b.balance v (handle_provisioning_failed b a i s).1.money
        ≡ credited o.user_id o.final_price s.money v
  unfolding handle_provisioning_failed client_refund_balance
  handle_provisioning_failed-credits a i s v {o} good found sent granted =
      let (_, moved) =
        b.credit_ok a.refund_commits o.user_id o.final_price "PROVISION_FAILED_REFUND" i s.money
          good granted in
      let done : (pay_back b a i o s.money).1
          ≡ (b.credit a.refund_commits o.user_id o.final_price "PROVISION_FAILED_REFUND" i
              s.money).1 =
        rw sent refl in
      ap (λ f. b.balance v (undo b a i f s).1.money) found
      ∙ ap (b.balance v) (undo-money a i o s ∙ done)
      ∙ moved v

  -- A checkout that is followed by a failed provisioning, whose refund is granted, leaves every
  -- balance as it was before.
  pub create_order-refunded :
      (n : Number) (now : ℕ) (c : CatalogAnswers b n) (a : CheckoutAnswers) (r : RefundAnswers)
      (i user : ℕ) (dto : CreateOrder) (s : Shop b) (v : ℕ) (t : Totals n)
      → b.IsGood s.money
      → is_ok (create_order b n now c a i user dto s).0 ≡ true
      → price_order b n now dto c ≡ ok t
      → r.refund ≡ delivered
      → is_ok
          (b.credit r.refund_commits user t.final_price "PROVISION_FAILED_REFUND" i
            (create_order b n now c a i user dto s).1.money).0
        ≡ true
      → b.balance v
          (handle_provisioning_failed b r i (create_order b n now c a i user dto s).1).1.money
        ≡ b.balance v s.money
  create_order-refunded n now c a r i user dto s v t good bought priced sent granted =
      let same = create_order-buy b n now c a i user dto t s priced in
      let (_, found, good', balances) =
        buy-sells b n now a i user dto t s v good (sym (ap (λ q. is_ok q.0) same) ∙ bought) in
      let (_, _, _, own) =
        buy-sells b n now a i user dto t s user good (sym (ap (λ q. is_ok q.0) same) ∙ bought) in
      let after = (create_order b n now c a i user dto s).1 in
      let money : after.money ≡ (buy b n now a i user dto t s).1.money = ap (λ q. q.1.money) same in
      let found' = ap (λ q. find_order i q.1.world) same ∙ found in
      let back =
        handle_provisioning_failed-credits r i after v (subst b.IsGood (sym money) good') found'
          sent granted in
      back
      ∙ paid_back user t.final_price s.money after.money v (ap (b.balance v) money ∙ balances)
          (ap (b.balance user) money ∙ own)
