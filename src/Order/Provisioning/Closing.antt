-- ===== src/Order/Provisioning/Closing.antt =====
-- A task that is executed is closed, and its order with it.
use webrana_cloud.Base.{
  ◌==◌, Result, ok, err, pure, continue, find_sound, find-update_row, ℕ, ◌≡◌, refl, sym, ap, ◌∙◌,
  subst, ◌⊎◌, inl, inr, Bool, true, false, some, arith,
}
use webrana_cloud.Order.Status.{OrderStatus, active, failed}
use webrana_cloud.Order.Records.{
  task_success, task_failed, ErrorCode, droplet_errored_code, Order, DropletStatus, droplet_active,
  droplet_errored, destroyed, reported, ProvisioningTask, World, find_order, update_order,
}
use webrana_cloud.Order.Service.{update_task}
use webrana_cloud.Order.Service.Transitions.{find_order-update}
use webrana_cloud.Order.Provisioning.{
  ProvisioningError, CloseAnswers, is_task, find_task, task_ended, task_done, order_ended,
  close_rows, close_task, close, mark_provisioning_success, mark_provisioning_failed, check_droplet,
}

-- The task `i` of the order `j`, and the order.
abbrev pub IsTracked : ℕ → ℕ → World → Type 0
IsTracked i j w =
    (t : ProvisioningTask) × (o : Order) × (find_task i w ≡ some t)
    × (t.order_id ≡ j)
    × (find_order j w ≡ some o)

-- The task has succeeded and the order is active, or both have failed.
abbrev pub IsClosed : ℕ → ℕ → World → Type 0
IsClosed i j w =
    (t : ProvisioningTask) × (o : Order) × (find_task i w ≡ some t)
    × (find_order j w ≡ some o)
    × (((t.status ≡ task_success) × (o.status ≡ active))
        ⊎ ((t.status ≡ task_failed) × (o.status ≡ failed)))

find_task-update :
    (i : ℕ) (f : ProvisioningTask → ProvisioningTask) (w : World) {t : ProvisioningTask}
    → ((x : ProvisioningTask) → (f x).id ≡ x.id)
    → find_task i w ≡ some t
    → find_task i (update_task i f w) ≡ some (f t)
find_task-update i f w key h =
    find-update_row (is_task i) f w.tasks (λ x. ap (λ k. k == i) (key x)) h

pub update_task-IsTracked :
    (i j : ℕ) (f : ProvisioningTask → ProvisioningTask) (w : World)
    → ((x : ProvisioningTask) → (f x).id ≡ x.id)
    → ((x : ProvisioningTask) → (f x).order_id ≡ x.order_id)
    → IsTracked i j w
    → IsTracked i j (update_task i f w)
update_task-IsTracked i j f w key kept (t, o, found, of_j, ordered) =
    (f t, o, find_task-update i f w key found, kept t ∙ of_j, ordered)

-- The two ways of closing.
abbrev Closes : (ProvisioningTask → ProvisioningTask) → OrderStatus → Type 0
Closes f s =
    ((x : ProvisioningTask) → (f x).id ≡ x.id)
    × ((x : ProvisioningTask)
        → (((f x).status ≡ task_success) × (s ≡ active))
          ⊎ (((f x).status ≡ task_failed) × (s ≡ failed)))

close_rows-IsClosed :
    (i j : ℕ) (f : ProvisioningTask → ProvisioningTask) (s : OrderStatus) (w : World)
    {t : ProvisioningTask} {o : Order}
    → Closes f s
    → find_task i w ≡ some t
    → t.order_id ≡ j
    → find_order j w ≡ some o
    → IsClosed i j (close_rows f s t w)
close_rows-IsClosed i j f s w {t} {o} (key, ends) found of_j ordered =
    let this_one : t.id ≡ i = ground (arith, find_sound (is_task i) w.tasks found) in
    let task_found : find_task i (update_task t.id f w) ≡ some (f t) =
      subst (λ k. find_task i (update_task k f w) ≡ some (f t)) (sym this_one)
        (find_task-update i f w key found) in
    let order_found : find_order j (update_order t.order_id (order_ended s) w)
        ≡ some (order_ended s o) =
      subst (λ k. find_order j (update_order k (order_ended s) w) ≡ some (order_ended s o))
        (sym of_j) (find_order-update j (order_ended s) w (λ _. refl) ordered) in
    (f t, order_ended s o, task_found, order_found, ends t)

-- Closed where a call returns, and still there where it raises.
abbrev pub Ends : ℕ → ℕ → {A : Type 0} → Result ProvisioningError A × World → Type 0
Ends i j (ok _, w) = IsClosed i j w
Ends i j (err _, w) = IsTracked i j w

-- So for a round of the loop, which returns whether the loop ends.
abbrev pub Round : ℕ → ℕ → Result ProvisioningError Bool × World → Type 0
Round i j (ok true, w) = IsClosed i j w
Round i j (ok false, w) = IsTracked i j w
Round i j (err _, w) = IsTracked i j w

close_task-Ends :
    (i j : ℕ) (commits : Bool) (f : ProvisioningTask → ProvisioningTask) (s : OrderStatus)
    (w : World)
    → Closes f s
    → IsTracked i j w
    → Ends i j (close_task commits f s (find_task i w) w)
close_task-Ends i j true f s w c (t, o, found, of_j, ordered) =
    rw found (close_rows-IsClosed i j f s w c found of_j ordered)
close_task-Ends i j false f s w c (t, o, found, of_j, ordered) =
    rw found (t, o, found, of_j, ordered)

close-Ends :
    (read commits : Bool) (i j now : ℕ) (f : ProvisioningTask → ProvisioningTask) (s : OrderStatus)
    (w : World)
    → Closes f s
    → IsTracked i j w
    → Ends i j (close (record { now = now; task_read = read; commits = commits }) f s i w)
close-Ends true commits i j now f s w c h = close_task-Ends i j commits f s w c h
close-Ends false commits i j now f s w c h = h

success-Ends :
    (a : CloseAnswers) (i j : ℕ) (w : World)
    → IsTracked i j w
    → Ends i j (mark_provisioning_success a i w)
unfolding mark_provisioning_success
success-Ends a i j w h =
    close-Ends a.task_read a.commits i j a.now (task_done a.now) active w
      ((λ _. refl), (λ _. inl (refl, refl))) h

pub failure-Ends :
    (a : CloseAnswers) (code : ErrorCode) (i j : ℕ) (w : World)
    → IsTracked i j w
    → Ends i j (mark_provisioning_failed a code i w)
unfolding mark_provisioning_failed
failure-Ends a code i j w h =
    close-Ends a.task_read a.commits i j a.now (task_ended a.now task_failed (some code)) failed w
      ((λ _. refl), (λ _. inr (refl, refl))) h

pub then_true-Round :
    (i j : ℕ) (r : Result ProvisioningError (Unit {0}) × World)
    → Ends i j r
    → Round i j (continue r (λ _. pure true))
then_true-Round i j (ok x, w) h = h
then_true-Round i j (err e, w) h = h

pub check_droplet-Round :
    (a : CloseAnswers) (i j : ℕ) (d : DropletStatus) (w : World)
    → IsTracked i j w
    → Round i j (check_droplet a i d w)
check_droplet-Round a i j droplet_active w h =
    then_true-Round i j (mark_provisioning_success a i w) (success-Ends a i j w h)
check_droplet-Round a i j droplet_errored w h =
    then_true-Round i j (mark_provisioning_failed a droplet_errored_code i w)
      (failure-Ends a droplet_errored_code i j w h)
check_droplet-Round a i j destroyed w h = h
check_droplet-Round a i j (reported _) w h = h

-- A failure that is saved closes.
pub failure-IsClosed :
    (a : CloseAnswers) (code : ErrorCode) (i j : ℕ) (w : World)
    → a.task_read ≡ true
    → a.commits ≡ true
    → IsTracked i j w
    → IsClosed i j (mark_provisioning_failed a code i w).1
unfolding mark_provisioning_failed
failure-IsClosed a code i j w reads commits (t, o, found, of_j, ordered) = rw reads (
    rw found (
      rw commits (
        close_rows-IsClosed i j (task_ended a.now task_failed (some code)) failed w
          ((λ _. refl), (λ _. inr (refl, refl))) found of_j ordered)))
