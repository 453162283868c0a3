-- ===== src/Order/Provisioning/Execution.antt =====
-- `startProvisioning` and `executeProvisioning`
-- (apps/order-service/src/modules/provisioning/provisioning.service.ts).
use webrana_cloud.Base.{
  ◌==◌, if◌then◌else◌, is_some, pos, ◌+ℤ◌, Result, ok, err, pure, raise, recover, ◌>>=◌, attempt,
  update_row, ℕ, Bool, not, ◌&&◌, Option, none, some, List, ◌∷◌,
}
use webrana_cloud.Order.Status.{provisioning, paid, ◌=s=◌}
use webrana_cloud.Order.Records.{
  task_pending, task_in_progress, droplet_creation_failed, Order, ProvisioningTask, DoAccount,
  World, find_order, update_order, add_status_history,
}
use webrana_cloud.Order.Service.{status_row, task_of, update_task}
use webrana_cloud.Order.Accounts.{
  AccountError, no_available_account, all_accounts_full, least_used, Accounts, ProbeAnswers,
  select_available_account,
}
use webrana_cloud.Order.Provisioning.{
  ProvisioningError, other_error, no_such_order, status_conflict, Droplet, Provisions, CloseAnswers,
  order_ended, mark_provisioning_failed, PollAnswers, got, Polled, poll_droplet_status,
}

-- What is answered to one start: the id of the new task, what the accounts answer, and whether the
-- writes go through.
pub record StartAnswers : Type 0 where
  pub task_id : ℕ
  pub now : ℕ
  pub probes : ℕ → ProbeAnswers
  pub task_created : Bool
  pub moved : Bool

-- Without an account of its own, an order is provisioned with the single token.
abbrev pub legacy_mode : AccountError → Provisions (Option ℕ)
legacy_mode no_available_account = pure none
legacy_mode all_accounts_full = pure none
legacy_mode _ = raise other_error

abbrev pub chosen : Result AccountError DoAccount → Provisions (Option ℕ)
chosen (ok x) = pure (some x.id)
chosen (err e) = legacy_mode e

abbrev pub with_accounts : World → List DoAccount → World
with_accounts w s = record w { accounts = s }

abbrev pub select_least_used : StartAnswers → Accounts DoAccount
select_least_used a s = (select_available_account least_used (λ _. 0) 0 a.probes a.now s).0

abbrev pub choose : StartAnswers → Provisions (Option ℕ)
choose a w =
    chosen (select_least_used a w.accounts).0 (with_accounts w (select_least_used a w.accounts).1)

abbrev pub new_task : ℕ → ℕ → Option ℕ → ProvisioningTask
new_task id order account = record {
  id = id;
  order_id = order;
  status = task_pending;
  do_account_id = account;
  droplet_id = none;
  droplet_status = none;
  ipv4_public = none;
  ipv4_private = none;
  error_code = none;
  attempts = 0;
  started_at = none;
  completed_at = none;
}

abbrev pub insert_task : ProvisioningTask → World → World
insert_task t w = record w { tasks = t ∷ w.tasks }

-- The order of a task is a unique column.
abbrev pub create_task : StartAnswers → ℕ → Option ℕ → Provisions (Unit {0})
create_task a i account w =
    attempt (a.task_created && not (is_some (task_of i w))) other_error
      (insert_task (new_task a.task_id i account)) w

-- `updateOrderToProvisioning`.
abbrev pub to_provisioning : ℕ → World → World
to_provisioning i w =
    add_status_history (status_row i (some paid) provisioning)
      (update_order i (order_ended provisioning) w)

unfoldable pub update_order_to_provisioning : StartAnswers → ℕ → Provisions (Unit {0})
update_order_to_provisioning a i = attempt a.moved other_error (to_provisioning i)

abbrev pub open_task : StartAnswers → ℕ → Option ℕ → Provisions (Option ℕ)
open_task a i account =
    create_task a i account >>= λ _. (update_order_to_provisioning a i >>= λ _. pure account)

abbrev pub start_found : StartAnswers → ℕ → Option Order → Provisions (Option ℕ)
start_found a i none = raise no_such_order
start_found a i (some o) =
    if o.status =s= paid
    then (choose a >>= λ account. open_task a i account)
    else raise status_conflict

-- The result is the account that the task is executed with.
unfoldable pub start_provisioning : StartAnswers → ℕ → Provisions (Option ℕ)
unfolding update_order_to_provisioning select_available_account
start_provisioning a i w = start_found a i (find_order i w) w

-- What is answered to one execution.
pub record ExecuteAnswers : Type 0 where
  pub droplet : Result ProvisioningError Droplet
  pub counted : Bool
  pub droplet_saved : Bool
  pub progress_saved : Bool
  pub now : ℕ
  pub polls : ℕ → PollAnswers
  pub timeout : CloseAnswers
  pub failing : CloseAnswers

unfoldable pub increment_active_count : ℕ → World → World
increment_active_count acc w = record w {
  accounts =
      update_row (λ x. x.id == acc) (λ x. record x { active_droplets = x.active_droplets +ℤ pos 1 })
        w.accounts;
}

abbrev pub count_droplet : Bool → Option ℕ → Provisions (Unit {0})
count_droplet counted none = pure tt
count_droplet counted (some acc) = attempt counted other_error (increment_active_count acc)

abbrev pub with_droplet : ℕ → Droplet → ProvisioningTask → ProvisioningTask
with_droplet now d t = record t {
  droplet_id = some d.id;
  droplet_status = some d.status;
  started_at = some now;
}

abbrev pub in_progress : ProvisioningTask → ProvisioningTask
in_progress t = record t { status = task_in_progress }

abbrev pub save_droplet : ExecuteAnswers → ℕ → Droplet → Provisions (Unit {0})
save_droplet a i d =
    attempt a.droplet_saved other_error (update_task i (with_droplet a.now d)) >>= λ _.
    attempt a.progress_saved other_error (update_task i in_progress)

-- Steps 5 to 7: the droplet is created, counted and saved.
abbrev pub create_droplet : ExecuteAnswers → ℕ → Option ℕ → Provisions (Unit {0})
create_droplet a i account =
    got a.droplet >>= λ d. (count_droplet a.counted account >>= λ _. save_droplet a i d)

abbrev pub then_poll : Polled → (World → Option Polled) → Option Polled
then_poll (ok _, w) poll = poll w
then_poll (err e, w) poll = some (err e, w)

abbrev pub caught : Option Polled → (World → Polled) → Option Polled
caught none handler = none
caught (some r) handler = some (recover r (λ _. handler))

unfoldable pub execute_provisioning : ℕ → ExecuteAnswers → ℕ → Option ℕ → World → Option Polled
unfolding poll_droplet_status mark_provisioning_failed
execute_provisioning max a i account w =
    caught (then_poll (create_droplet a i account w) (poll_droplet_status a.polls a.timeout max i))
      (mark_provisioning_failed a.failing droplet_creation_failed i)
