-- ===== src/Order/Lifecycle/Termination/Once.antt =====
-- Two jobs that hold the same snapshot of an order: the optimistic lock lets one of them through.
use webrana_cloud.Base.{
  Option-cases, ok, Action, find, update_row, find-update_row, ℕ, ◌≡◌, refl, inl, inr, Bool, true,
  false, some, arith,
}
use webrana_cloud.Order.Records.{TerminationReason, Order, World, has_id, find_order}
use webrana_cloud.Order.Lifecycle.{LifecycleError}
use webrana_cloud.Order.Lifecycle.Termination.{
  CallAnswers, of_order, droplet_of, power_off_droplet, decrement_active_count, destroy_droplet,
  may_suspend, may_terminate, as_suspended, as_terminated, after_suspend, after_terminate,
  suspend_vps, terminate_vps,
}

pub data Job : Type 0 where
  suspension : Job
  termination : TerminationReason → Job

abbrev pub run_job : Job → CallAnswers → ℕ → Order → Action World LifecycleError (Unit {0})
run_job suspension a now o = suspend_vps a now o
run_job (termination reason) a now o = terminate_vps a now reason o

abbrev pub may_run : Job → Order → Order → Bool
may_run suspension = may_suspend
may_run (termination _) = may_terminate

abbrev pub outcome : Job → ℕ → Order → Order
outcome suspension now = as_suspended now
outcome (termination reason) now = as_terminated now reason

after_suspend-orders :
    (a : CallAnswers) (o : Order) (w : World) → (after_suspend a o w).1.orders ≡ w.orders
unfolding power_off_droplet
after_suspend-orders a o w = elim (Option-cases (droplet_of (find (of_order o.id) w.tasks))) [
  | inl e ↦ rw e (ground arith)
  | inr (x, e) ↦ rw e (ground arith)
]

after_terminate-orders :
    (a : CallAnswers) (o : Order) (w : World) → (after_terminate a o w).1.orders ≡ w.orders
unfolding destroy_droplet decrement_active_count
after_terminate-orders a o w = elim (Option-cases (droplet_of (find (of_order o.id) w.tasks))) [
  | inl e ↦ rw e (ground arith)
  | inr (x, e) ↦ rw e (ground arith)
]

pub run_job-orders :
    (j : Job) (a : CallAnswers) (now : ℕ) (o : Order) (w : World) {row : Order}
    → find_order o.id w ≡ some row
    → may_run j o row ≡ true
    → a.update_saved ≡ true
    → (run_job j a now o w).1.orders ≡ update_row (has_id o.id) (outcome j now) w.orders
unfolding suspend_vps terminate_vps
run_job-orders suspension a now o w found may saved =
    rw saved (rw found (rw may (after_suspend-orders a o _)))
run_job-orders (termination reason) a now o w found may saved =
    rw saved (rw found (rw may (after_terminate-orders a o _)))

pub run_job-blocked :
    (j : Job) (a : CallAnswers) (now : ℕ) (o : Order) (w : World) {row : Order}
    → find_order o.id w ≡ some row
    → may_run j o row ≡ false
    → a.update_saved ≡ true
    → run_job j a now o w ≡ (ok tt, w)
unfolding suspend_vps terminate_vps
run_job-blocked suspension a now o w found may saved = rw saved (rw found (rw may refl))
run_job-blocked (termination reason) a now o w found may saved = rw saved (rw found (rw may refl))

outcome-id : (j : Job) (now i : ℕ) (row : Order) → has_id i (outcome j now row) ≡ has_id i row
outcome-id suspension now i row = refl
outcome-id (termination _) now i row = refl

outcome-stale :
    (j k : Job) (now : ℕ) (o row : Order)
    → may_run j o row ≡ true
    → may_run k o (outcome j now row) ≡ false
outcome-stale suspension suspension now o row may = refl
outcome-stale (termination _) suspension now o row may = refl
outcome-stale (termination _) (termination _) now o row may = refl
outcome-stale suspension (termination _) now o row may = ground (arith, may)

-- Where the database answers both, once a suspension or a termination of a snapshot has gone
-- through, whatever the other services answered to it, a further job with the same snapshot,
-- suspension or termination, finds the version changed and does nothing.
pub run_job_once :
    (j k : Job) (a b : CallAnswers) (now later : ℕ) (o : Order) (w : World) {row : Order}
    → find_order o.id w ≡ some row
    → may_run j o row ≡ true
    → a.update_saved ≡ true
    → b.update_saved ≡ true
    → run_job k b later o (run_job j a now o w).1 ≡ (ok tt, (run_job j a now o w).1)
run_job_once j k a b now later o w {row} found may saved answers =
    let written =
      find-update_row (has_id o.id) (outcome j now) w.orders (outcome-id j now o.id) found in
    run_job-blocked k b later o (run_job j a now o w).1
      (rw (run_job-orders j a now o w found may saved) written) (outcome-stale j k now o row may)
      answers
