-- ===== src/Order/Service.antt =====
-- The operations of apps/order-service/src/modules/order/order.service.ts on the orders themselves:
-- the status updates, the handlers of the provisioning's end, the console and the power actions, and
-- the retry. What the database answers to each call is an argument.
pub mod Audit
pub mod Transitions
pub mod Updates
use webrana_cloud.Base.{
  ◌==◌, if◌then◌else◌, first_of, Result, ok, err, Action, pure, gets, or_raise, ◌>>=◌, ◌>>◌,
  raise_if, attempt, find, update_row, ℕ, suc, Bool, false, not, ◌||◌, Option, none, some,
}
use webrana_cloud.Order.Status.{
  OrderStatus, processing, provisioning, active, suspended, failed, paid, ◌=s=◌,
  is_valid_transition,
}
use webrana_cloud.Order.Records.{
  BillingPeriod, daily, monthly, yearly, task_pending, TerminationReason, Order, StatusHistory,
  ProvisioningTask, World, find_order, update_order, add_status_history, update_guarded,
}
use webrana_cloud.Order.Lifecycle.{Calendar}

pub data OrderError : Type 0 where
  order_not_found order_access_denied payment_status_conflict : OrderError
  state_transition_conflict order_not_active droplet_not_ready : OrderError
  database_failed provider_failed : OrderError

-- `userId && order.userId !== userId`.
abbrev pub denied : Option ℕ → Order → Bool
denied none o = false
denied (some user) o = not (o.user_id == user)

unfoldable pub get_order_by_id : Bool → ℕ → Option ℕ → Action World OrderError Order
get_order_by_id answers i user =
    raise_if (not answers) database_failed >> gets (find_order i) >>= λ found.
    or_raise found order_not_found >>= λ o. raise_if (denied user o) order_access_denied >> pure o

abbrev pub status_row : ℕ → Option OrderStatus → OrderStatus → StatusHistory
status_row i previous next = record {
  order_id = i;
  previous_status = previous;
  new_status = next;
  threshold = none;
}

abbrev pub with_status : ℕ → OrderStatus → Order → Order
with_status now next o = record o {
  status = next;
  paid_at = (if next =s= paid then some now else o.paid_at);
}

abbrev pub write_status : ℕ → ℕ → OrderStatus → OrderStatus → World → World
write_status now i previous next w =
    add_status_history (status_row i (some previous) next) (update_order i (with_status now next) w)

abbrev pub change_status : ℕ → Bool → ℕ → OrderStatus → Order → Action World OrderError Order
change_status now commits i next o =
    raise_if (not (is_valid_transition o.status next)) payment_status_conflict
    >> attempt commits database_failed (write_status now i o.status next)
    >> pure (with_status now next o)

-- `commits` is whether the transaction of the two writes goes through.
unfoldable pub update_order_status : ℕ → Bool → ℕ → OrderStatus → Action World OrderError Order
update_order_status now commits i next = gets (find_order i) >>= λ found.
    or_raise found order_not_found >>= λ o. change_status now commits i next o

unfoldable pub record_status_history :
    Bool → ℕ → Option OrderStatus → OrderStatus → Action World OrderError (Unit {0})
record_status_history saved i previous next =
    attempt saved database_failed (add_status_history (status_row i previous next))

-- `additionalData`; a field that is missing is not written.
pub record Additional : Type 0 where
  pub activated_at : Option ℕ
  pub expires_at : Option ℕ
  pub suspended_at : Option ℕ
  pub terminated_at : Option ℕ
  pub paid_at : Option ℕ
  pub termination_reason : Option TerminationReason

abbrev pub nothing_more : Additional
nothing_more = record {
  activated_at = none;
  expires_at = none;
  suspended_at = none;
  terminated_at = none;
  paid_at = none;
  termination_reason = none;
}

abbrev pub moved_to : OrderStatus → Additional → Order → Order
moved_to next d o = record o {
  status = next;
  version = suc o.version;
  activated_at = first_of d.activated_at o.activated_at;
  expires_at = first_of d.expires_at o.expires_at;
  suspended_at = first_of d.suspended_at o.suspended_at;
  terminated_at = first_of d.terminated_at o.terminated_at;
  paid_at = first_of d.paid_at o.paid_at;
  termination_reason = first_of d.termination_reason o.termination_reason;
}

pub record AtomicAnswers : Type 0 where
  pub written : Bool
  pub recorded : Bool
  pub reread : Bool

abbrev pub is_in : OrderStatus → Order → Bool
is_in s o = o.status =s= s

-- `result.count === 0`.
abbrev pub claimed : Bool × World → Result OrderError (Unit {0}) × World
claimed (hit, w) = (if hit then ok tt else err state_transition_conflict, w)

abbrev pub claim_status :
    Bool → ℕ → OrderStatus → OrderStatus → Additional → Action World OrderError (Unit {0})
claim_status written i from to d w =
    if written
    then claimed (update_guarded i (is_in from) (moved_to to d) w)
    else (err database_failed, w)

-- The history row, and the order as it is read again.
abbrev pub record_move :
    Bool → Bool → ℕ → OrderStatus → OrderStatus → Action World OrderError (Option Order)
record_move recorded reread i from to =
    attempt recorded database_failed (add_status_history (status_row i (some from) to)) >>= λ _.
    (raise_if (not reread) database_failed >>= λ _. gets (find_order i))

unfoldable pub update_order_status_atomic :
    AtomicAnswers
    → ℕ
    → OrderStatus
    → OrderStatus
    → Additional
    → Action World OrderError (Option Order)
update_order_status_atomic a i from to d =
    claim_status a.written i from to d >>= λ _. record_move a.recorded a.reread i from to

unfoldable pub calculate_expiry_date : Calendar → ℕ → BillingPeriod → ℕ
calculate_expiry_date c activated_at daily = c.add_dates activated_at 1
calculate_expiry_date c activated_at monthly = c.add_months activated_at 1
calculate_expiry_date c activated_at yearly = c.add_years activated_at 1

abbrev pub activation : Calendar → ℕ → Order → Additional
activation c now o = record nothing_more {
  activated_at = some now;
  expires_at = some (calculate_expiry_date c now o.billing_period);
}

abbrev pub activate :
    Calendar → ℕ → AtomicAnswers → ℕ → Option Order → Action World OrderError (Unit {0})
activate c now a i none = pure tt
activate c now a i (some o) =
    update_order_status_atomic a i provisioning active (activation c now o) >> pure tt

unfoldable pub handle_provisioning_success :
    Calendar → ℕ → AtomicAnswers → ℕ → Action World OrderError (Unit {0})
unfolding update_order_status_atomic
handle_provisioning_success c now a i = gets (find_order i) >>= λ found. activate c now a i found

-- The order's task, and the droplet and the account in it.
abbrev pub task_of : ℕ → World → Option ProvisioningTask
task_of i w = find (λ t. t.order_id == i) w.tasks

abbrev pub droplet_in : Option ProvisioningTask → Option (ℕ × ℕ)
droplet_in none = none
droplet_in (some t) = elim t.droplet_id [
  | none ↦ none
  | some d ↦ elim t.do_account_id [ none ↦ none | some acc ↦ some (acc, d) ]
]

-- The account and the droplet that `getDropletConsoleUrl` is called with.
unfoldable pub get_console_url : Bool → ℕ → ℕ → Action World OrderError (ℕ × ℕ)
unfolding get_order_by_id
get_console_url answers i user = get_order_by_id answers i (some user) >>= λ o.
    raise_if (not (o.status =s= active)) order_not_active >> gets (task_of i) >>= λ task.
    or_raise (droplet_in task) droplet_not_ready

-- So for `performDropletPowerAction`.
unfoldable pub power_action : Bool → ℕ → ℕ → Action World OrderError (ℕ × ℕ)
unfolding get_order_by_id
power_action answers i user = get_order_by_id answers i (some user) >>= λ o.
    raise_if (not (o.status =s= active || o.status =s= suspended)) order_not_active
    >> gets (task_of i)
    >>= λ task. or_raise (droplet_in task) droplet_not_ready

abbrev pub reset_task : ProvisioningTask → ProvisioningTask
reset_task t = record t {
  status = task_pending;
  error_code = none;
  droplet_id = none;
  droplet_status = none;
  ipv4_public = none;
  ipv4_private = none;
  attempts = 0;
  started_at = none;
  completed_at = none;
}

abbrev pub update_task : ℕ → (ProvisioningTask → ProvisioningTask) → World → World
update_task i f w = record w { tasks = update_row (λ t. t.id == i) f w.tasks }

abbrev pub to_processing : Order → Order
to_processing o = record o { status = processing; version = suc o.version }

-- The three writes of the retry.
abbrev pub reset_order : ℕ → ℕ → World → World
reset_order i task w =
    add_status_history (status_row i (some failed) processing)
      (update_task task reset_task (update_order i to_processing w))

unfoldable pub retry_provisioning : Bool → ℕ → Action World OrderError (Unit {0})
retry_provisioning commits i = gets (find_order i) >>= λ found.
    or_raise found order_not_found >>= λ o.
    raise_if (not (o.status =s= failed)) payment_status_conflict >> gets (task_of i) >>= λ task.
    or_raise task payment_status_conflict >>= λ t.
    attempt commits database_failed (reset_order i t.id)
