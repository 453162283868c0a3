-- ===== src/Order/Provisioning/Start.antt =====
-- Which orders are provisioned, and that a provisioning that has started is brought to an end.
use webrana_cloud.Base.{
  is_some, Bool-cases, Option-cases, ==_refl, Result, ok, err, is_ok, pure, continue, ◌>>=◌,
  bind-ok, attempt, Number, ℕ, ◌≡◌, refl, sym, ap, ◌∙◌, subst, inl, inr, Bool, true, false, not,
  ◌&&◌, Option, some,
}
use webrana_cloud.Order.Status.{provisioning, paid, ◌=s=◌}
use webrana_cloud.Order.Records.{Order, ProvisioningTask, DoAccount, World, find_order}
use webrana_cloud.Order.Service.Transitions.{find_order-update}
use webrana_cloud.Order.Accounts.{
  AccountError, no_available_account, all_accounts_full, account_not_found, invalid_token,
  account_has_active_tasks, account_error, ordered,
}
use webrana_cloud.Order.Provisioning.{other_error, status_conflict, find_task, order_ended, Polled}
use webrana_cloud.Order.Provisioning.Execution.{
  StartAnswers, chosen, with_accounts, select_least_used, choose, new_task, insert_task,
  to_provisioning, update_order_to_provisioning, open_task, start_provisioning, ExecuteAnswers,
  execute_provisioning,
}
use webrana_cloud.Order.Service.{task_of}
use webrana_cloud.Order.Billing.{BillingService}
use webrana_cloud.Order.Checkout.{CreateOrder, CheckoutAnswers, Shop, CatalogAnswers, create_order}
use webrana_cloud.Order.Checkout.Success.{create_order-sells}
use webrana_cloud.Order.Provisioning.Closing.{IsClosed}
use webrana_cloud.Order.Provisioning.Rounds.{execute_provisioning-IsClosed}

chosen-orders :
    (r : Result AccountError DoAccount) (i : ℕ) (w : World)
    → find_order i (chosen r w).1 ≡ find_order i w
chosen-orders (ok x) i w = refl
chosen-orders (err no_available_account) i w = refl
chosen-orders (err all_accounts_full) i w = refl
chosen-orders (err account_not_found) i w = refl
chosen-orders (err invalid_token) i w = refl
chosen-orders (err account_has_active_tasks) i w = refl
chosen-orders (err account_error) i w = refl

-- The order `i` is in provisioning, with the new task.
abbrev pub IsStarted : StartAnswers → ℕ → Order → World → Type 0
IsStarted a i o w =
    (find_order i w ≡ some (order_ended provisioning o))
    × ((t : ProvisioningTask) × (find_task a.task_id w ≡ some t) × (t.order_id ≡ i))

moved-IsStarted :
    (moved : Bool) (a : StartAnswers) (i : ℕ) (account : Option ℕ) (w : World) {o : Order}
    → find_order i w ≡ some o
    → find_task a.task_id w ≡ some (new_task a.task_id i account)
    → is_ok ((attempt moved other_error (to_provisioning i) >>= λ _. pure account) w).0 ≡ true
    → IsStarted a i o ((attempt moved other_error (to_provisioning i) >>= λ _. pure account) w).1
moved-IsStarted true a i account w found task h = (
  find_order-update i (order_ended provisioning) w (λ _. refl) found,
  (new_task a.task_id i account, task, refl),
)
moved-IsStarted false a i account w found task h = cc

open_task-IsStarted :
    (c : Bool) (a : StartAnswers) (i : ℕ) (account : Option ℕ) (w : World) {o : Order}
    → find_order i w ≡ some o
    → is_ok
        (continue
          (attempt c other_error (insert_task (new_task a.task_id i account)) w)
          (λ _. (update_order_to_provisioning a i >>= λ _. pure account))).0
      ≡ true
    → IsStarted a i o
        (continue
          (attempt c other_error (insert_task (new_task a.task_id i account)) w)
          (λ _. (update_order_to_provisioning a i >>= λ _. pure account))).1
unfolding update_order_to_provisioning
open_task-IsStarted true a i account w found h =
    moved-IsStarted a.moved a i account (insert_task (new_task a.task_id i account) w) found
      (rw (==_refl a.task_id) refl) h
open_task-IsStarted false a i account w found h = cc

-- A start that goes through has found the order paid; the order is then in provisioning and has the
-- new task.
pub start_provisioning-IsStarted :
    (a : StartAnswers) (i : ℕ) (w : World)
    → is_ok (start_provisioning a i w).0 ≡ true
    → (o : Order) × (find_order i w ≡ some o)
      × (o.status =s= paid ≡ true)
      × IsStarted a i o (start_provisioning a i w).1
unfolding start_provisioning
start_provisioning-IsStarted a i w h = elim (Option-cases (find_order i w)) [
  | inl missing ↦ cc (rw missing at h)
  | inr (o, found) ↦ elim (Bool-cases (o.status =s= paid)) [
    | inr unpaid ↦ cc (rw (found, unpaid) at h)
    | inl is_paid ↦
        let here : start_provisioning a i w ≡ (choose a >>= λ account. open_task a i account) w =
          rw (found, is_paid) refl in
        let (account, chosen_one, whole) =
          bind-ok (choose a) (λ account. open_task a i account) w
            (sym (ap (λ r. is_ok r.0) here) ∙ h) in
        let w1 = (choose a w).1 in
        let found1 =
          chosen-orders (select_least_used a w.accounts).0 i
            (with_accounts w (select_least_used a w.accounts).1)
          ∙ found in
        let started =
          open_task-IsStarted (a.task_created && not (is_some (task_of i w1))) a i account w1 found1
            (sym (ap (λ r. is_ok r.0) (here ∙ whole)) ∙ h) in
        (o, found, is_paid, subst (λ r. IsStarted a i o r.1) (sym (here ∙ whole)) started)
  ]
]

-- A started provisioning that is executed, on any account, ends with the task succeeded and the
-- order active, or with both failed.
pub start_provisioning-closes :
    (a : StartAnswers) (max : ℕ) (e : ExecuteAnswers) (i : ℕ) (account : Option ℕ) (w : World)
    → is_ok (start_provisioning a i w).0 ≡ true
    → e.failing.task_read ≡ true
    → e.failing.commits ≡ true
    → (r : Polled) × (execute_provisioning max e a.task_id account (start_provisioning a i w).1
        ≡ some r)
      × IsClosed a.task_id i r.1
start_provisioning-closes a max e i account w h reads commits =
    let (o, _, _, (ordered, (t, found, of_i))) = start_provisioning-IsStarted a i w h in
    execute_provisioning-IsClosed max e a.task_id i account (start_provisioning a i w).1
      (t, order_ended provisioning o, found, of_i, ordered) reads commits

-- An order that is not paid is refused, and nothing changes.
start_provisioning-refuses :
    (a : StartAnswers) (i : ℕ) (w : World) {o : Order}
    → find_order i w ≡ some o
    → o.status =s= paid ≡ false
    → start_provisioning a i w ≡ (err status_conflict, w)
unfolding start_provisioning
start_provisioning-refuses a i w found unpaid = rw (found, unpaid) refl

-- The order that a checkout returns, charged and processing, is refused by the provisioning service,
-- which starts only orders of the status PAID.
pub create_order-not_started :
    (b : BillingService) (n : Number) (now : ℕ) (c : CatalogAnswers b n) (p : CheckoutAnswers)
    (i user : ℕ) (dto : CreateOrder) (s : Shop b) (a : StartAnswers)
    → b.IsGood s.money
    → is_ok (create_order b n now c p i user dto s).0 ≡ true
    → start_provisioning a i (create_order b n now c p i user dto s).1.world
      ≡ (err status_conflict, (create_order b n now c p i user dto s).1.world)
create_order-not_started b n now c p i user dto s a good bought =
    let (_, o, _, _, found, _, _, in_processing_now, _) =
      create_order-sells b n now c p i user dto s user good bought in
    start_provisioning-refuses a i (create_order b n now c p i user dto s).1.world found
      (rw in_processing_now refl)
