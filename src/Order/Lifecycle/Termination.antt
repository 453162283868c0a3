-- ===== src/Order/Lifecycle/Termination.antt =====
-- `suspendVps` and `terminateVps` with the droplet calls under them, and the jobs that call them.
-- An order in hand is a snapshot: the row may have changed since it was read.
pub mod Once
use webrana_cloud.Base.{
  ◌==◌, if◌then◌else◌, pos, ◌-ℤ◌, ltb_ℤ, ok, err, Action, pure, gets, catch_with, ◌>>=◌, ◌>>◌,
  raise_if, modify, attempt, find, update_row, ℕ, suc, Bool, true, false, not, ◌&&◌, ◌||◌, Option,
  none, some, ◌∷◌,
}
use webrana_cloud.Order.Status.{
  OrderStatus, active, expiring_soon, expired, suspended, terminated, ◌=s=◌,
}
use webrana_cloud.Order.Records.{
  daily, TerminationReason, expired_no_renewal, Order, StatusHistory, destroyed, ProvisioningTask,
  DoAccount, DropletAction, power_off, power_on, delete_droplet, World, add_status_history,
  update_guarded,
}
use webrana_cloud.Order.Lifecycle.{
  LifecycleError, database_error, provider_error, notification_error,
}

-- What the database, the provider and the notifications answer to one call. `api` is whether the
-- token is found and the provider accepts the action; the writes follow it.
pub record CallAnswers : Type 0 where
  pub update_saved : Bool
  pub task_read : Bool
  pub api : Bool
  pub task_saved : Bool
  pub account_saved : Bool
  pub history_saved : Bool
  pub notified : Bool

abbrev pub of_order : ℕ → ProvisioningTask → Bool
of_order i t = t.order_id == i

-- The droplet and the account of the task, where it has both.
abbrev pub droplet_of : Option ProvisioningTask → Option (ProvisioningTask × ℕ × ℕ)
droplet_of none = none
droplet_of (some t) = elim t.droplet_id [
  | none ↦ none
  | some d ↦ elim t.do_account_id [ none ↦ none | some acc ↦ some (t, d, acc) ]
]

abbrev pub act : DropletAction → World → World
act x w = record w { droplet_actions = x ∷ w.droplet_actions }

-- A refused action is logged and forgotten.
abbrev pub power :
    CallAnswers → (ℕ → DropletAction) → Option (ProvisioningTask × ℕ × ℕ) → World → World
power a action none w = w
power a action (some (t, d, acc)) w = if a.api then act (action d) w else w

unfoldable pub power_off_droplet : CallAnswers → ℕ → Action World LifecycleError (Unit {0})
power_off_droplet a order = gets (λ w. droplet_of (find (of_order order) w.tasks)) >>= λ droplet.
    raise_if (not a.task_read) database_error >> modify (power a power_off droplet)

unfoldable pub power_on_droplet : CallAnswers → ℕ → Action World LifecycleError (Unit {0})
power_on_droplet a order = gets (λ w. droplet_of (find (of_order order) w.tasks)) >>= λ droplet.
    raise_if (not a.task_read) database_error >> modify (power a power_on droplet)

-- `decrementActiveCount`: a count of 0 is left as it is.
abbrev pub decremented : DoAccount → DoAccount
decremented x =
    if ltb_ℤ (pos 0) x.active_droplets
    then record x { active_droplets = x.active_droplets -ℤ pos 1 }
    else x

unfoldable pub decrement_active_count : ℕ → World → World
decrement_active_count acc w = record w {
  accounts = update_row (λ x. x.id == acc) decremented w.accounts;
}

abbrev pub mark_destroyed : ℕ → World → World
mark_destroyed task w = record w {
  tasks =
      update_row (λ t. t.id == task) (λ t. record t { droplet_status = some destroyed }) w.tasks;
}

-- The body of the `try`.
abbrev pub delete_from : CallAnswers → ProvisioningTask × ℕ × ℕ → Action World LifecycleError Bool
delete_from a (t, d, acc) =
    attempt a.api provider_error (act (delete_droplet d))
    >> attempt a.task_saved database_error (mark_destroyed t.id)
    >> attempt a.account_saved database_error (decrement_active_count acc)
    >> pure true

abbrev pub destroy_task :
    CallAnswers → Option (ProvisioningTask × ℕ × ℕ) → Action World LifecycleError Bool
destroy_task a none = pure false
destroy_task a (some x) = catch_with (delete_from a x) (λ _. pure false)

unfoldable pub destroy_droplet : CallAnswers → ℕ → Action World LifecycleError Bool
unfolding decrement_active_count
destroy_droplet a order = gets (λ w. droplet_of (find (of_order order) w.tasks)) >>= λ droplet.
    raise_if (not a.task_read) database_error >> destroy_task a droplet

-- The guards of the two updates.
abbrev pub may_suspend : Order → Order → Bool
may_suspend snapshot o =
    (o.status =s= active || o.status =s= expiring_soon || o.status =s= expired)
    && o.version == snapshot.version

abbrev pub may_terminate : Order → Order → Bool
may_terminate snapshot o = not (o.status =s= terminated) && o.version == snapshot.version

abbrev pub as_suspended : ℕ → Order → Order
as_suspended now o = record o {
  status = suspended;
  suspended_at = some now;
  version = suc o.version;
}

abbrev pub as_terminated : ℕ → TerminationReason → Order → Order
as_terminated now reason o = record o {
  status = terminated;
  terminated_at = some now;
  termination_reason = some reason;
  version = suc o.version;
}

-- `updateMany`, whose count is 1 or 0.
abbrev pub claim_order :
    CallAnswers → ℕ → (Order → Bool) → (Order → Order) → Action World LifecycleError Bool
claim_order a i guard f w =
    if a.update_saved
    then (ok (update_guarded i guard f w).0, (update_guarded i guard f w).1)
    else (err database_error, w)

abbrev pub history_row : Order → OrderStatus → StatusHistory
history_row o next = record {
  order_id = o.id;
  previous_status = some o.status;
  new_status = next;
  threshold = none;
}

-- What follows a won update.
abbrev pub after_suspend : CallAnswers → Order → Action World LifecycleError (Unit {0})
after_suspend a o =
    power_off_droplet a o.id
    >> attempt a.history_saved database_error (add_status_history (history_row o suspended))
    >> attempt a.notified notification_error (λ w. w)

abbrev pub after_terminate : CallAnswers → Order → Action World LifecycleError (Unit {0})
after_terminate a o =
    destroy_droplet a o.id
    >> attempt a.history_saved database_error (add_status_history (history_row o terminated))
    >> attempt a.notified notification_error (λ w. w)

unfoldable pub suspend_vps : CallAnswers → ℕ → Order → Action World LifecycleError (Unit {0})
unfolding power_off_droplet
suspend_vps a now o = claim_order a o.id (may_suspend o) (as_suspended now) >>= λ won.
    if won then after_suspend a o else pure tt

unfoldable pub terminate_vps :
    CallAnswers → ℕ → TerminationReason → Order → Action World LifecycleError (Unit {0})
unfolding destroy_droplet
terminate_vps a now reason o =
    claim_order a o.id (may_terminate o) (as_terminated now reason) >>= λ won.
    if won then after_terminate a o else pure tt

-- What `processExpiredVps` does with one order that it has found.
unfoldable pub expire_order : CallAnswers → ℕ → Order → Action World LifecycleError (Unit {0})
unfolding suspend_vps terminate_vps
expire_order a now o = elim o.billing_period [
  | daily ↦ terminate_vps a now expired_no_renewal o
  | _ ↦ suspend_vps a now o
]
