-- ===== src/Order/Checkout/Money.antt =====
-- What a checkout does to the balances.
use webrana_cloud.Base.{
  ◌==◌, if◌then◌else◌, Bool-cases, ℤ, ◌-ℤ◌, leb_ℤ, Result, ok, err, is_ok, Action, pure, raise,
  ◌>>=◌, bind-kept, bind-post, recover-kept, Result-cases, attempt, Number, ℕ, ◌≡◌, refl, sym, ap₂,
  ◌∙◌, subst, ◌⊎◌, inl, inr, Bool, true, false,
}
use webrana_cloud.Order.Records.{Order, World}
use webrana_cloud.Order.Service.{database_failed}
use webrana_cloud.Order.Billing.{
  Refusal, BillingService, Delivery, delivered, request_lost, response_lost, request, read_ok,
  client_get_balance, check_sufficient_balance, client_deduct_balance,
}
use webrana_cloud.Order.Checkout.{
  CheckoutError, of_order, CreateOrder, CheckoutAnswers, Shop, on_world, save_failure,
  record_failure, fail_order, sale, deduct, advance, reread, take_payment, take_or_fail, pay_order,
  insert_order, CatalogAnswers, priced, price_order, check, place, buy, create_order,
}
use webrana_cloud.Order.Pricing.{Totals}

module _ (b : BillingService) where
  -- The balance of `v` after `user` has been charged.
  abbrev pub charged : ℕ → ℤ → b.Accounts → ℕ → ℤ
  charged user x m v = if v == user then b.balance user m -ℤ x else b.balance v m

  request-money :
      {A : Type 0} (d : Delivery) (f : b.Accounts → Result Refusal A × b.Accounts) (m : b.Accounts)
      → ((request d f m).1 ≡ m) ⊎ ((request d f m).1 ≡ (f m).1)
  request-money delivered f m = inr refl
  request-money request_lost f m = inl refl
  request-money response_lost f m = inr refl

  request-ok :
      (d : Delivery) (f : b.Accounts → Result Refusal (Unit {0}) × b.Accounts) (m : b.Accounts)
      → is_ok (request d f m).0 ≡ true
      → is_ok (f m).0 ≡ true × ((request d f m).1 ≡ (f m).1)
  request-ok delivered f m h = elim (Result-cases (f m).0) [
    | inl (x, e) ↦ (rw e refl, refl)
    | inr (x, e) ↦ cc (rw e at h)
  ]
  request-ok request_lost f m h = cc
  request-ok response_lost f m h = cc

  -- A deduction that is answered with success has been made.
  pub sale-ok :
      (a : CheckoutAnswers) (i user : ℕ) (x : ℤ) (m : b.Accounts)
      → b.IsGood m
      → is_ok (sale b a i user x m).0 ≡ true
      → b.IsGood (sale b a i user x m).1
        × ((v : ℕ) → b.balance v (sale b a i user x m).1 ≡ charged user x m v)
  unfolding client_deduct_balance
  sale-ok a i user x m good h =
      let done = b.charge a.deduction_commits user x "VPS_ORDER" i in
      let (sent, same) = request-ok a.deduction done m h in
      let (good', moved) = b.charge_ok a.deduction_commits user x "VPS_ORDER" i m good sent in
      (subst b.IsGood (sym same) good', λ v. rw same (moved v))

  -- However it is answered, it has been made once or not at all.
  pub sale-money :
      (a : CheckoutAnswers) (i user : ℕ) (x : ℤ) (m : b.Accounts) (v : ℕ)
      → b.IsGood m
      → (b.balance v (sale b a i user x m).1 ≡ b.balance v m)
        ⊎ (b.balance v (sale b a i user x m).1 ≡ charged user x m v)
  unfolding client_deduct_balance
  sale-money a i user x m v good =
      let done = b.charge a.deduction_commits user x "VPS_ORDER" i in
      elim (request-money a.deduction done m) [
        | inl same ↦ inl (rw same refl)
        | inr same ↦ elim (Bool-cases (is_ok (done m).0)) [
          | inl made ↦
              inr (rw same ((b.charge_ok a.deduction_commits user x "VPS_ORDER" i m good made).1 v))
          | inr refused ↦ inl (
              rw same (
                rw (b.charge_refused a.deduction_commits user x "VPS_ORDER" i m good refused) refl))
        ]
      ]

  -- Of a checkout's steps only the deduction writes to the accounts.
  take_payment-money :
      (now : ℕ) (a : CheckoutAnswers) (i user : ℕ) (x : ℤ) (s : Shop b)
      → (take_payment b now a i user x s).1.money ≡ (sale b a i user x s.money).1
  unfolding take_payment
  take_payment-money now a i user x s =
      let view : Shop b → b.Accounts = λ t. t.money in
      bind-kept view (deduct b a i user x) (λ _. advance b now a i) s (λ _ _. refl)

  pub pay_order-money :
      (now : ℕ) (a : CheckoutAnswers) (i user : ℕ) (x : ℤ) (s : Shop b)
      → (pay_order b now a i user x s).1.money ≡ (sale b a i user x s.money).1
  unfolding pay_order
  pay_order-money now a i user x s =
      let view : Shop b → b.Accounts = λ t. t.money in
      bind-kept view (take_or_fail b now a i user x) (λ _. reread b a i) s (λ _ _. refl)
      ∙ recover-kept view (take_payment b now a i user x s) (fail_order b a i) (λ e t.
        bind-kept view (save_failure b a i) (λ _. (record_failure b a i >>= λ _. raise e)) t
          (λ _ u. bind-kept view (record_failure b a i) (λ _. raise e) u (λ _ _. refl)))
      ∙ take_payment-money now a i user x s

  -- The check reads the balance, which may create the user's wallet.
  pub check-money :
      (n : Number) (a : CheckoutAnswers) (user : ℕ) (x : ℤ) (s : Shop b)
      → b.IsGood s.money
      → b.IsGood (check b n a user x s).1.money
        × ((v : ℕ) → b.balance v (check b n a user x s).1.money ≡ b.balance v s.money)
  unfolding check_sufficient_balance client_get_balance
  check-money n a user x s good =
      let (_, good', same) = b.read_lem user s.money good in
      let ask = client_get_balance b a.checked user in
      let as_read : (check b n a user x s).1.money ≡ (ask s.money).1 =
        bind-kept (λ m. m) ask (λ balance. pure (leb_ℤ x balance)) s.money (λ _ _. refl) in
      elim (request-money a.checked (read_ok b user) s.money) [
        | inl unread ↦ rw (as_read ∙ unread) (good, λ v. refl)
        | inr seen ↦ rw (as_read ∙ seen) (good', same)
      ]

  abbrev pub MayHaveCharged :
      (n : Number) → ℕ → CatalogAnswers b n → ℕ → CreateOrder → b.Accounts → b.Accounts → ℕ → Type 0
  MayHaveCharged n now c user dto m m' v =
      (b.balance v m' ≡ b.balance v m)
      ⊎ ((t : Totals n) × (price_order b n now dto c ≡ ok t)
          × (b.balance v m' ≡ charged user t.final_price m v))

  -- Unchanged, or charged with `x`.
  abbrev pub IsChargedOnce : ℕ → ℤ → b.Accounts → ℕ → {A : Type 0} → A × Shop b → Type 0
  IsChargedOnce user x m v r =
      (b.balance v r.1.money ≡ b.balance v m) ⊎ (b.balance v r.1.money ≡ charged user x m v)

  pub open_order-post :
      (P : Result CheckoutError Order × Shop b → Type 0) (c : Bool) (f : World → World)
      (k : Unit {0} → Action (Shop b) CheckoutError Order) (s : Shop b)
      → P (k tt (record s { world = f s.world }))
      → P (err (of_order database_failed), s)
      → P ((on_world b (attempt c database_failed f) >>= k) s)
  open_order-post P true f k s done undone = done
  open_order-post P false f k s done undone = undone

  -- The steps after the balance check.
  place-money :
      (n : Number) (now : ℕ) (a : CheckoutAnswers) (i user : ℕ) (dto : CreateOrder) (t : Totals n)
      (enough : Bool) (s : Shop b) (v : ℕ)
      → b.IsGood s.money
      → IsChargedOnce user t.final_price s.money v (place b n now a i user dto t enough s)
  place-money n now a i user dto t false s v good = inl refl
  place-money n now a i user dto t true s v good =
      let opened = record s { world = insert_order b n i user dto t s.world } in
      open_order-post (IsChargedOnce user t.final_price s.money v) a.created
        (insert_order b n i user dto t) (λ _. pay_order b now a i user t.final_price) s
        (rw (pay_order-money now a i user t.final_price opened)
          (sale-money a i user t.final_price s.money v good))
        (inl refl)

  buy-money :
      (n : Number) (now : ℕ) (a : CheckoutAnswers) (i user : ℕ) (dto : CreateOrder) (t : Totals n)
      (s : Shop b) (v : ℕ)
      → b.IsGood s.money
      → IsChargedOnce user t.final_price s.money v (buy b n now a i user dto t s)
  buy-money n now a i user dto t s v good =
      let (good', same) = check-money n a user t.final_price s good in
      bind-post (IsChargedOnce user t.final_price s.money v) (check b n a user t.final_price)
        (λ enough. place b n now a i user dto t enough) s
        (λ enough _.
          elim (place-money n now a i user dto t enough (check b n a user t.final_price s).1 v
            good') [
              | inl kept ↦ inl (kept ∙ same v)
              | inr paid ↦ inr (
                  paid
                  ∙ ap₂ (λ x y. if v == user then x -ℤ t.final_price else y) (same user) (same v))
            ])
        (λ e _. inl (same v))

  -- Whatever happens in a checkout, an error included, no balance changes but that of the buyer,
  -- and that by nothing or by exactly the price, once.
  pub create_order-charges_once :
      (n : Number) (now : ℕ) (c : CatalogAnswers b n) (a : CheckoutAnswers) (i user : ℕ)
      (dto : CreateOrder) (s : Shop b) (v : ℕ)
      → b.IsGood s.money
      → MayHaveCharged n now c user dto s.money (create_order b n now c a i user dto s).1.money v
  unfolding create_order
  create_order-charges_once n now c a i user dto s v good =
      elim (Result-cases (price_order b n now dto c)) [
        | inl (t, priced) ↦ rw priced elim (buy-money n now a i user dto t s v good) [
          | inl same ↦ inl same
          | inr paid ↦ inr (t, refl, paid)
        ]
        | inr (e, priced) ↦ rw priced (inl refl)
      ]
