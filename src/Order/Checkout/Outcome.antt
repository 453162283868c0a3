-- ===== src/Order/Checkout/Outcome.antt =====
-- How a checkout can end.
use webrana_cloud.Base.{
  if◌then◌else◌, Bool-cases, ==_refl, ℤ, Result, ok, err, is_ok, raise, continue, ◌>>=◌, bind-post,
  recover-post, Number, ℕ, ◌≡◌, refl, ap, ◌∙◌, ◌⊎◌, inl, inr, Bool, true, false, Option, none, some,
}
use webrana_cloud.Order.Status.{OrderStatus, pending, processing, failed}
use webrana_cloud.Order.Records.{Order, World, find_order, guarded_row}
use webrana_cloud.Order.Billing.{BillingService}
use webrana_cloud.Order.Service.{
  get_order_by_id, Additional, moved_to, AtomicAnswers, is_in, claim_status, record_move,
  update_order_status_atomic,
}
use webrana_cloud.Order.Service.Transitions.{find_order-update}
use webrana_cloud.Order.Checkout.{
  CheckoutError, CreateOrder, CheckoutAnswers, Shop, failed_order, save_failure, record_failure,
  fail_order, paid_now, deduct, advance, reread, take_payment, take_or_fail, pay_order, new_order,
  insert_order, CatalogAnswers, price_order, raised, check, place, buy, create_order,
}
use webrana_cloud.Order.Pricing.{Totals}
use webrana_cloud.Order.Checkout.Success.{fail_order-raises, in_processing, take_payment-ok, opened}
use webrana_cloud.Order.Checkout.Money.{open_order-post}

abbrev Has : ℕ → World → Type 0
Has i w = (o : Order) × (find_order i w ≡ some o)

guarded_row-Has :
    (found : Option Order) (i : ℕ) (guard : Order → Bool) (f : Order → Order) (w : World)
    → ((x : Order) → (f x).id ≡ x.id)
    → Has i w
    → Has i (guarded_row i guard f w found).1
guarded_row-Has none i guard f w key h = h
guarded_row-Has (some x) i guard f w key (o, found) = elim (Bool-cases (guard x)) [
  | inl hit ↦ rw hit (f o, find_order-update i f w key found)
  | inr miss ↦ rw miss (o, found)
]

claim_status-Has :
    (written : Bool) (i : ℕ) (from to : OrderStatus) (d : Additional) (w : World)
    → Has i w
    → Has i (claim_status written i from to d w).1
claim_status-Has true i from to d w h =
    guarded_row-Has (find_order i w) i (is_in from) (moved_to to d) w (λ _. refl) h
claim_status-Has false i from to d w h = h

record_move-Has :
    (recorded reread : Bool) (i : ℕ) (from to : OrderStatus) (w : World)
    → Has i w
    → Has i (record_move recorded reread i from to w).1
record_move-Has true true i from to w h = h
record_move-Has true false i from to w h = h
record_move-Has false _ i from to w h = h

-- An atomic update loses no order.
atomic-Has :
    (a : AtomicAnswers) (i : ℕ) (from to : OrderStatus) (d : Additional) (w : World)
    → Has i w
    → Has i (update_order_status_atomic a i from to d w).1
unfolding update_order_status_atomic
atomic-Has a i from to d w h =
    let claimed_one = claim_status-Has a.written i from to d w h in
    bind-post (λ r. Has i r.1) (claim_status a.written i from to d)
      (λ _. record_move a.recorded a.reread i from to) w
      (λ _ _.
        record_move-Has a.recorded a.reread i from to (claim_status a.written i from to d w).1
          claimed_one)
      (λ _ _. claimed_one)

module _ (b : BillingService) where
  take_payment-Has :
      (now : ℕ) (a : CheckoutAnswers) (i user : ℕ) (x : ℤ) (s : Shop b)
      → Has i s.world
      → Has i (take_payment b now a i user x s).1.world
  unfolding take_payment
  take_payment-Has now a i user x s h =
      let moved = atomic-Has a.status i pending processing (paid_now b now) s.world h in
      bind-post (λ r. Has i r.1.world) (deduct b a i user x) (λ _. advance b now a i) s
        (λ _ _. moved) (λ _ _. h)

  -- The order `i` is there with the status.
  abbrev pub Stands : ℕ → OrderStatus → Shop b → Type 0
  Stands i st s = (o : Order) × (find_order i s.world ≡ some o) × (o.status ≡ st)

  record_failure-world :
      (a : CheckoutAnswers) (i : ℕ) (s : Shop b)
      → find_order i (record_failure b a i s).1.world ≡ find_order i s.world
  record_failure-world a i s = elim (Bool-cases a.failure_recorded) [
    | inl saved ↦ rw saved refl
    | inr lost ↦ rw lost refl
  ]

  fail_order-Stands :
      (A : Type 0) (a : CheckoutAnswers) (i : ℕ) (e : CheckoutError) (s : Shop b)
      → a.failure_saved ≡ true
      → Has i s.world
      → Stands i failed (fail_order b {A = A} a i e s).1
  fail_order-Stands A a i e s saves (o, found) =
      let kept : find_order i (save_failure b a i s).1.world ≡ some (failed_order b o) =
        rw saves (find_order-update i (failed_order b) s.world (λ _. refl) found) in
      let there =
        bind-post (λ r. find_order i r.1.world ≡ some (failed_order b o)) (save_failure b a i)
          (λ _. (record_failure b a i >>= λ _. raise e)) s
          (λ _ _.
            bind-post (λ r. find_order i r.1.world ≡ some (failed_order b o)) (record_failure b a i)
              (λ _. raise e) (save_failure b a i s).1
              (λ _ _. record_failure-world a i (save_failure b a i s).1 ∙ kept)
              (λ _ _. record_failure-world a i (save_failure b a i s).1 ∙ kept))
          (λ _ _. kept) in
      (failed_order b o, there, refl)

  -- The `try` and its `catch`: processing if they return, failed if they raise.
  abbrev pub IsTried : ℕ → {A : Type 0} → Result CheckoutError A × Shop b → Type 0
  IsTried i r = Stands i (if is_ok r.0 then processing else failed) r.1

  take_or_fail-IsTried :
      (now : ℕ) (a : CheckoutAnswers) (i user : ℕ) (x : ℤ) (s : Shop b) {o : Order}
      → a.failure_saved ≡ true
      → find_order i s.world ≡ some o
      → IsTried i (take_or_fail b now a i user x s)
  take_or_fail-IsTried now a i user x s {o} saves found =
      recover-post (IsTried i) (take_payment b now a i user x s) (fail_order b a i)
        (λ p done.
          let (_, there) = take_payment-ok b now a i user x s found (ap is_ok done) in
          (in_processing b now o, there, rw done refl))
        (λ e raised_one.
          rw (fail_order-raises b (Option Order) a i e (take_payment b now a i user x s).1) (
            fail_order-Stands (Option Order) a i e (take_payment b now a i user x s).1 saves
              (take_payment-Has now a i user x s (o, found))))

  -- The order `i` is there: processing, and then the call has returned just where it could read the
  -- order again, or failed, and then it has raised.
  abbrev pub IsClosed :
      CheckoutAnswers → ℕ → {A : Type 0} → Result CheckoutError A × Shop b → Type 0
  IsClosed a i r =
      (Stands i processing r.1 × (is_ok r.0 ≡ a.order_read))
      ⊎ (Stands i failed r.1 × (is_ok r.0 ≡ false))

  reread-IsClosed :
      (a : CheckoutAnswers) (i : ℕ) (s : Shop b)
      → Stands i processing s
      → IsClosed a i (reread b a i s)
  unfolding get_order_by_id
  reread-IsClosed a i s (o, found, moved) = elim (Bool-cases a.order_read) [
    | inl reads ↦ inl (rw reads (rw found ((o, found, moved), refl)))
    | inr silent ↦ inl (rw silent ((o, found, moved), refl))
  ]

  tried-IsClosed :
      (a : CheckoutAnswers) (i : ℕ) (r : Result CheckoutError (Option Order) × Shop b)
      → IsTried i r
      → IsClosed a i (continue r (λ _. reread b a i))
  tried-IsClosed a i (ok p, s) h = reread-IsClosed a i s h
  tried-IsClosed a i (err e, s) h = inr (h, refl)

  pay_order-IsClosed :
      (now : ℕ) (a : CheckoutAnswers) (i user : ℕ) (x : ℤ) (s : Shop b) {o : Order}
      → a.failure_saved ≡ true
      → find_order i s.world ≡ some o
      → IsClosed a i (pay_order b now a i user x s)
  unfolding pay_order
  pay_order-IsClosed now a i user x s {o} saves found =
      tried-IsClosed a i (take_or_fail b now a i user x s)
        (take_or_fail-IsTried now a i user x s saves found)

  module _ (n : Number) where
    -- It raised before there was an order, or the order is there and closed.
    abbrev pub IsSettled :
        CheckoutAnswers → ℕ → World → Result CheckoutError Order × Shop b → Type 0
    IsSettled a i w r = ((is_ok r.0 ≡ false) × (r.1.world ≡ w)) ⊎ IsClosed a i r

    place-IsSettled :
        (now : ℕ) (a : CheckoutAnswers) (i user : ℕ) (dto : CreateOrder) (t : Totals n)
        (enough : Bool) (s : Shop b)
        → a.failure_saved ≡ true
        → IsSettled a i s.world (place b n now a i user dto t enough s)
    place-IsSettled now a i user dto t false s saves = inl (refl, refl)
    place-IsSettled now a i user dto t true s saves =
        let new : find_order i (opened b n i user dto t s).world
            ≡ some (new_order b n i user dto t) =
          rw (==_refl i) refl in
        open_order-post b (IsSettled a i s.world) a.created (insert_order b n i user dto t)
          (λ _. pay_order b now a i user t.final_price) s
          (inr
            (pay_order-IsClosed now a i user t.final_price (opened b n i user dto t s) saves new))
          (inl (refl, refl))

    -- As long as the failure can be saved, a checkout has raised and left the order service's
    -- database as it was, or the new order is processing and the call has returned just where it
    -- could read the order again, or the new order is failed and the call has raised: no order
    -- stays pending.
    pub create_order-IsSettled :
        (now : ℕ) (c : CatalogAnswers b n) (a : CheckoutAnswers) (i user : ℕ) (dto : CreateOrder)
        (s : Shop b)
        → a.failure_saved ≡ true
        → IsSettled a i s.world (create_order b n now c a i user dto s)
    unfolding create_order
    create_order-IsSettled now c a i user dto s saves =
        bind-post (IsSettled a i s.world) (raised b n (price_order b n now dto c))
          (λ t. buy b n now a i user dto t) s
          (λ t _.
            bind-post (IsSettled a i s.world) (check b n a user t.final_price)
              (λ enough. place b n now a i user dto t enough) s
              (λ enough _.
                place-IsSettled now a i user dto t enough (check b n a user t.final_price s).1
                  saves)
              (λ _ _. inl (refl, refl)))
          (λ _ _. inl (refl, refl))
