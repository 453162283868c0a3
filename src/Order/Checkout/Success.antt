-- ===== src/Order/Checkout/Success.antt =====
-- A checkout that returns an order: it is paid, and it is being processed.
use webrana_cloud.Base.{
  ◌==◌, if◌then◌else◌, Option-cases, ==_refl, ℤ, ◌-ℤ◌, Result, ok, err, is_ok, Action, raise,
  recover, ◌>>=◌, raise_if, bind-ok, bind-post, attempt, Number, ℕ, ◌≡◌, refl, sym, ap, ap₂, ◌∙◌,
  subst, inl, inr, Bool, true, false, Option, none, some,
}
use webrana_cloud.Order.Status.{pending, processing}
use webrana_cloud.Order.Records.{Order, World, find_order}
use webrana_cloud.Order.Billing.{BillingService}
use webrana_cloud.Order.Service.{database_failed, get_order_by_id, moved_to}
use webrana_cloud.Order.Service.Transitions.{find_order-update, update_order_status_atomic-ok}
use webrana_cloud.Order.Checkout.{
  CheckoutError, of_order, of_billing, raising, CreateOrder, CheckoutAnswers, Shop, on_world,
  save_failure, record_failure, fail_order, paid_now, sale, deduct, advance, reread, take_payment,
  take_or_fail, pay_order, new_order, insert_order, CatalogAnswers, priced, price_order, raised,
  check, open_order, place, buy, create_order,
}
use webrana_cloud.Order.Pricing.{Totals}
use webrana_cloud.Order.Checkout.Money.{charged, sale-ok, pay_order-money, check-money}

raising-ok :
    {E F A : Type 0} (f : E → F) (r : Result E A) → is_ok (raising f r) ≡ true → is_ok r ≡ true
raising-ok f (ok a) h = refl
raising-ok f (err e) h = cc

raise_if-ok :
    {S E : Type 0} (c : Bool) (e : E) (s : S)
    → is_ok (raise_if c e s).0 ≡ true
    → (c ≡ false) × (raise_if c e s ≡ (ok tt, s))
raise_if-ok true e s h = cc
raise_if-ok false e s h = (refl, refl)

module _ (b : BillingService) where
  pub fail_order-raises :
      (A : Type 0) (a : CheckoutAnswers) (i : ℕ) (e : CheckoutError) (s : Shop b)
      → is_ok (fail_order b {A = A} a i e s).0 ≡ false
  fail_order-raises A a i e s =
      bind-post (λ r. is_ok r.0 ≡ false) (save_failure b a i)
        (λ _. (record_failure b a i >>= λ _. raise e)) s
        (λ _ _.
          bind-post (λ r. is_ok r.0 ≡ false) (record_failure b a i) (λ _. raise e)
            (save_failure b a i s).1 (λ _ _. refl) (λ _ _. refl))
        (λ _ _. refl)

  recover-ok :
      {A : Type 0} (r : Result CheckoutError A × Shop b)
      (handler : CheckoutError → Action (Shop b) CheckoutError A)
      → ((e : CheckoutError) (s : Shop b) → is_ok (handler e s).0 ≡ false)
      → is_ok (recover r handler).0 ≡ true
      → recover r handler ≡ r
  recover-ok (ok o, s) handler raises h = refl
  recover-ok (err e, s) handler raises h = cc (raises e s, h)

  get_order_by_id-ok :
      (answers : Bool) (i : ℕ) (w : World)
      → is_ok (get_order_by_id answers i none w).0 ≡ true
      → (o : Order) × (find_order i w ≡ some o) × (get_order_by_id answers i none w ≡ (ok o, w))
  unfolding get_order_by_id
  get_order_by_id-ok true i w h = elim (Option-cases (find_order i w)) [
    | inl missing ↦ cc (rw missing at h)
    | inr (o, found) ↦ (o, found, rw found refl)
  ]
  get_order_by_id-ok false i w h = cc

  -- The order that a successful payment returns.
  abbrev pub in_processing : ℕ → Order → Order
  in_processing now o = moved_to processing (paid_now b now) o

  pub take_payment-ok :
      (now : ℕ) (a : CheckoutAnswers) (i user : ℕ) (x : ℤ) (s : Shop b) {o : Order}
      → find_order i s.world ≡ some o
      → is_ok (take_payment b now a i user x s).0 ≡ true
      → (is_ok (sale b a i user x s.money).0 ≡ true)
        × (find_order i (take_payment b now a i user x s).1.world ≡ some (in_processing now o))
  unfolding take_payment
  take_payment-ok now a i user x s {o} found h =
      let (_, taken, whole) = bind-ok (deduct b a i user x) (λ _. advance b now a i) s h in
      let rest = sym (ap (λ r. is_ok r.0) whole) ∙ h in
      let (o1, found1, _, written) =
        update_order_status_atomic-ok a.status i pending processing (paid_now b now) s.world
          (raising-ok of_order _ rest) in
      let kept =
        ap (λ r. find_order i r.1) written
        ∙ find_order-update i (moved_to processing (paid_now b now)) s.world (λ _. refl) found in
      (raising-ok of_billing _ (ap is_ok taken), ap (λ r. find_order i r.1.world) whole ∙ kept)

  -- Where the payment returns, its `try` has gone through and the order was read again.
  pub pay_order-ok :
      (now : ℕ) (a : CheckoutAnswers) (i user : ℕ) (x : ℤ) (s : Shop b) {o : Order}
      → find_order i s.world ≡ some o
      → is_ok (pay_order b now a i user x s).0 ≡ true
      → (is_ok (sale b a i user x s.money).0 ≡ true)
        × ((pay_order b now a i user x s).0 ≡ ok (in_processing now o))
        × (find_order i (pay_order b now a i user x s).1.world ≡ some (in_processing now o))
  unfolding pay_order
  pay_order-ok now a i user x s {o} found h =
      let (_, tried, whole) = bind-ok (take_or_fail b now a i user x) (λ _. reread b a i) s h in
      let same =
        recover-ok (take_payment b now a i user x s) (fail_order b a i)
          (fail_order-raises (Option Order) a i) (ap is_ok tried) in
      let taken = sym (ap (λ r. is_ok r.0) same) ∙ ap is_ok tried in
      let (charge_ok, kept) = take_payment-ok now a i user x s found taken in
      let s1 = (take_or_fail b now a i user x s).1 in
      let kept1 : find_order i s1.world ≡ some (in_processing now o) =
        ap (λ r. find_order i r.1.world) same ∙ kept in
      let last = sym (ap (λ r. is_ok r.0) whole) ∙ h in
      let (o2, found2, read) =
        get_order_by_id-ok a.order_read i s1.world (raising-ok of_order _ last) in
      let got : o2 ≡ in_processing now o = cc (found2, kept1) in
      (
        charge_ok,
        ap (λ r. r.0) whole ∙ ap (λ r. raising of_order r.0) read ∙ ap ok got,
        ap (λ r. find_order i r.1.world) whole ∙ ap (λ r. find_order i r.1) read ∙ kept1,
      )

  module _ (n : Number) where
    -- The order that a checkout returns.
    abbrev pub sold : ℕ → ℕ → ℕ → CreateOrder → Totals n → Order
    sold now i user dto t = in_processing now (new_order b n i user dto t)

    abbrev pub opened : ℕ → ℕ → CreateOrder → Totals n → Shop b → Shop b
    opened i user dto t s = record s { world = insert_order b n i user dto t s.world }

    open_order-ok :
        (c : Bool) (f : World → World) (s : Shop b)
        → is_ok (on_world b (attempt c database_failed f) s).0 ≡ true
        → (on_world b (attempt c database_failed f) s).1 ≡ record s { world = f s.world }
    open_order-ok true f s h = refl
    open_order-ok false f s h = cc

    place-ok :
        (now : ℕ) (a : CheckoutAnswers) (i user : ℕ) (dto : CreateOrder) (t : Totals n)
        (enough : Bool) (s : Shop b)
        → is_ok (place b n now a i user dto t enough s).0 ≡ true
        → (enough ≡ true)
          × (place b n now a i user dto t enough s
              ≡ pay_order b now a i user t.final_price (opened i user dto t s))
    place-ok now a i user dto t false s h = cc
    place-ok now a i user dto t true s h =
        let pay : Unit {0} → Action (Shop b) CheckoutError Order =
          λ _. pay_order b now a i user t.final_price in
        let (_, made, whole) = bind-ok (open_order b n a i user dto t) pay s h in
        let done = open_order-ok a.created (insert_order b n i user dto t) s (ap is_ok made) in
        (refl, whole ∙ ap (pay_order b now a i user t.final_price) done)

    -- A sale that goes through: the check said yes, and the payment ran on the inserted order.
    buy-ok :
        (now : ℕ) (a : CheckoutAnswers) (i user : ℕ) (dto : CreateOrder) (t : Totals n) (s : Shop b)
        → is_ok (buy b n now a i user dto t s).0 ≡ true
        → ((check b n a user t.final_price s).0 ≡ ok true)
          × (buy b n now a i user dto t s
              ≡ pay_order b now a i user t.final_price
                  (opened i user dto t (check b n a user t.final_price s).1))
    buy-ok now a i user dto t s h =
        let (enough, checked, whole) =
          bind-ok (check b n a user t.final_price) (λ enough. place b n now a i user dto t enough) s
            h in
        let s1 = (check b n a user t.final_price s).1 in
        let (yes_it_is, paid_for) =
          place-ok now a i user dto t enough s1 (sym (ap (λ r. is_ok r.0) whole) ∙ h) in
        (checked ∙ ap ok yes_it_is, whole ∙ paid_for)

    abbrev pub Sold :
        ℕ
        → CatalogAnswers b n
        → ℕ
        → ℕ
        → CreateOrder
        → Shop b
        → ℕ
        → Result CheckoutError Order × Shop b
        → Type 0
    Sold now c i user dto s v r =
        (t : Totals n) × (o : Order) × (price_order b n now dto c ≡ ok t)
        × (r.0 ≡ ok o)
        × (find_order i r.1.world ≡ some o)
        × (o.user_id ≡ user)
        × (o.final_price ≡ t.final_price)
        × (o.status ≡ processing)
        × (b.balance v r.1.money ≡ charged b user t.final_price s.money v)

    pub buy-sells :
        (now : ℕ) (a : CheckoutAnswers) (i user : ℕ) (dto : CreateOrder) (t : Totals n) (s : Shop b)
        (v : ℕ)
        → b.IsGood s.money
        → is_ok (buy b n now a i user dto t s).0 ≡ true
        → ((buy b n now a i user dto t s).0 ≡ ok (sold now i user dto t))
          × (find_order i (buy b n now a i user dto t s).1.world ≡ some (sold now i user dto t))
          × b.IsGood (buy b n now a i user dto t s).1.money
          × (b.balance v (buy b n now a i user dto t s).1.money
              ≡ charged b user t.final_price s.money v)
    buy-sells now a i user dto t s v good h =
        let (_, whole) = buy-ok now a i user dto t s h in
        let s1 = (check b n a user t.final_price s).1 in
        let s2 = opened i user dto t s1 in
        let (good1, same) = check-money b n a user t.final_price s good in
        let new : find_order i s2.world ≡ some (new_order b n i user dto t) = rw (==_refl i) refl in
        let (charge_ok, result, found) =
          pay_order-ok now a i user t.final_price s2 new (sym (ap (λ r. is_ok r.0) whole) ∙ h) in
        let spent : (buy b n now a i user dto t s).1.money
            ≡ (sale b a i user t.final_price s1.money).1 =
          ap (λ r. r.1.money) whole ∙ pay_order-money b now a i user t.final_price s2 in
        let (good2, balances) = sale-ok b a i user t.final_price s1.money good1 charge_ok in
        (
          ap (λ r. r.0) whole ∙ result,
          ap (λ r. find_order i r.1.world) whole ∙ found,
          subst b.IsGood (sym spent) good2,
          ap (b.balance v) spent
              ∙ balances v
              ∙ ap₂ (λ x y. if v == user then x -ℤ t.final_price else y) (same user) (same v),
        )

    pub create_order-buy :
        (now : ℕ) (c : CatalogAnswers b n) (a : CheckoutAnswers) (i user : ℕ) (dto : CreateOrder)
        (t : Totals n) (s : Shop b)
        → price_order b n now dto c ≡ ok t
        → create_order b n now c a i user dto s ≡ buy b n now a i user dto t s
    unfolding create_order
    create_order-buy now c a i user dto t s priced = rw priced refl

    -- A checkout that returns an order has charged the buyer its final price, nobody else anything,
    -- and the order is processing, both as it is returned and in the database.
    pub create_order-sells :
        (now : ℕ) (c : CatalogAnswers b n) (a : CheckoutAnswers) (i user : ℕ) (dto : CreateOrder)
        (s : Shop b) (v : ℕ)
        → b.IsGood s.money
        → is_ok (create_order b n now c a i user dto s).0 ≡ true
        → Sold now c i user dto s v (create_order b n now c a i user dto s)
    unfolding create_order
    create_order-sells now c a i user dto s v good h =
        let (t, priced, whole) =
          bind-ok (raised b n (price_order b n now dto c)) (λ t. buy b n now a i user dto t) s h in
        let (result, found, _, balances) =
          buy-sells now a i user dto t s v good (sym (ap (λ r. is_ok r.0) whole) ∙ h) in
        (
          t,
          sold now i user dto t,
          priced,
          ap (λ r. r.0) whole ∙ result,
          ap (λ r. find_order i r.1.world) whole ∙ found,
          refl,
          refl,
          refl,
          ap (λ r. b.balance v r.1.money) whole ∙ balances,
        )
