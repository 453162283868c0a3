-- ===== src/Order/Provisioning.antt =====
-- The provisioning service (apps/order-service/src/modules/provisioning/provisioning.service.ts): a
-- task is opened for a paid order, a droplet is created and polled, and the task and its order are
-- closed. What the provider and the database answer is an argument; the droplet's name, size, image
-- and tags are left out. A task's order exists, which is a foreign key.
pub mod Closing
pub mod Execution
pub mod Rounds
pub mod Start
pub mod Termination
use webrana_cloud.Base.{
  ltb, ◌==◌, if◌then◌else◌, Result, ok, err, Action, pure, catch_with, ◌>>=◌, attempt, find, ℕ,
  zero, suc, Bool, true, false, Option, none, some,
}
use webrana_cloud.Order.Status.{OrderStatus, provisioning, active, failed}
use webrana_cloud.Order.Records.{
  ProvisioningStatus, task_success, task_failed, ErrorCode, droplet_errored_code, polling_error,
  provisioning_timeout, Order, DropletStatus, droplet_active, droplet_errored, ProvisioningTask,
  World, update_order, add_status_history,
}
use webrana_cloud.Order.Service.{status_row, update_task}

-- `fatal_error` stands for the two exceptions that `isFatalError` knows.
pub data ProvisioningError : Type 0 where
  fatal_error other_error no_such_order status_conflict : ProvisioningError

unfoldable pub is_fatal_error : ProvisioningError → Bool
is_fatal_error fatal_error = true
is_fatal_error _ = false

pub record Droplet : Type 0 where
  pub id : ℕ
  pub status : DropletStatus
  pub ipv4_public : Option ℕ
  pub ipv4_private : Option ℕ

abbrev pub Provisions : Type 0 → Type 0
Provisions A = Action World ProvisioningError A

-- One call of `markProvisioningSuccess` or `markProvisioningFailed`: when, whether the task can be
-- read, and whether the transaction commits.
pub record CloseAnswers : Type 0 where
  pub now : ℕ
  pub task_read : Bool
  pub commits : Bool

abbrev pub is_task : ℕ → ProvisioningTask → Bool
is_task i t = t.id == i

abbrev pub find_task : ℕ → World → Option ProvisioningTask
find_task i w = find (is_task i) w.tasks

abbrev pub task_ended :
    ℕ → ProvisioningStatus → Option ErrorCode → ProvisioningTask → ProvisioningTask
task_ended now s code t = record t { status = s; error_code = code; completed_at = some now }

abbrev pub task_done : ℕ → ProvisioningTask → ProvisioningTask
task_done now t = record t { status = task_success; completed_at = some now }

abbrev pub order_ended : OrderStatus → Order → Order
order_ended s o = record o { status = s }

-- The three writes of the transaction.
abbrev pub close_rows :
    (ProvisioningTask → ProvisioningTask) → OrderStatus → ProvisioningTask → World → World
close_rows f s t w =
    add_status_history (status_row t.order_id (some provisioning) s)
      (update_order t.order_id (order_ended s) (update_task t.id f w))

abbrev pub close_task :
    Bool
    → (ProvisioningTask → ProvisioningTask)
    → OrderStatus
    → Option ProvisioningTask
    → Provisions (Unit {0})
close_task commits f s none = pure tt
close_task commits f s (some t) = attempt commits other_error (close_rows f s t)

abbrev pub close :
    CloseAnswers → (ProvisioningTask → ProvisioningTask) → OrderStatus → ℕ → Provisions (Unit {0})
close a f s i w =
    if a.task_read then close_task a.commits f s (find_task i w) w else (err other_error, w)

unfoldable pub mark_provisioning_success : CloseAnswers → ℕ → Provisions (Unit {0})
mark_provisioning_success a i = close a (task_done a.now) active i

unfoldable pub mark_provisioning_failed : CloseAnswers → ErrorCode → ℕ → Provisions (Unit {0})
mark_provisioning_failed a code i = close a (task_ended a.now task_failed (some code)) failed i

-- What is answered to one round of the polling loop.
pub record PollAnswers : Type 0 where
  pub droplet : Result ProvisioningError Droplet
  pub metadata_saved : Bool
  pub closing : CloseAnswers
  pub attempts_saved : Bool
  pub failing : CloseAnswers

abbrev pub with_metadata : Droplet → ProvisioningTask → ProvisioningTask
with_metadata d t = record t {
  droplet_status = some d.status;
  ipv4_public = d.ipv4_public;
  ipv4_private = d.ipv4_private;
  attempts = suc t.attempts;
}

unfoldable pub update_droplet_metadata_generic : Bool → ℕ → Droplet → Provisions (Unit {0})
update_droplet_metadata_generic saved i d =
    attempt saved other_error (update_task i (with_metadata d))

abbrev pub got : {A : Type 0} → Result ProvisioningError A → Provisions A
got r w = (r, w)

-- The two terminal states; whether the loop ends.
abbrev pub check_droplet : CloseAnswers → ℕ → DropletStatus → Provisions Bool
check_droplet a i droplet_active = mark_provisioning_success a i >>= λ _. pure true
check_droplet a i droplet_errored =
    mark_provisioning_failed a droplet_errored_code i >>= λ _. pure true
check_droplet a i _ = pure false

-- The `try` of a round.
abbrev pub try_round : PollAnswers → ℕ → Provisions Bool
try_round a i = got a.droplet >>= λ d.
    (update_droplet_metadata_generic a.metadata_saved i d >>= λ _.
    check_droplet a.closing i d.status)

abbrev pub with_attempts : ℕ → ProvisioningTask → ProvisioningTask
with_attempts k t = record t { attempts = k }

abbrev pub give_up : CloseAnswers → ℕ → Bool → Provisions Bool
give_up a i false = pure false
give_up a i true = mark_provisioning_failed a polling_error i >>= λ _. pure true

-- The `catch` of a round.
abbrev pub failed_round : PollAnswers → ℕ → ℕ → ProvisioningError → Provisions Bool
failed_round a k i e =
    attempt a.attempts_saved other_error (update_task i (with_attempts k)) >>= λ _.
    give_up a.failing i (is_fatal_error e)

unfoldable pub poll_round : PollAnswers → ℕ → ℕ → Provisions Bool
unfolding mark_provisioning_success mark_provisioning_failed is_fatal_error
    update_droplet_metadata_generic
poll_round a k i = catch_with (try_round a i) (failed_round a k i)

abbrev pub Polled : Type 0
Polled = Result ProvisioningError (Unit {0}) × World

abbrev pub after_round :
    Result ProvisioningError Bool × World → (World → Option Polled) → Option Polled
after_round (ok true, w) next = some (ok tt, w)
after_round (ok false, w) next = next w
after_round (err e, w) next = some (err e, w)

-- The loop of `pollDropletStatus` on fuel, with the answers to each attempt and those to the failure
-- that follows the last one.
unfoldable pub poll_from : (ℕ → PollAnswers) → CloseAnswers → ℕ → ℕ → ℕ → ℕ → World → Option Polled
unfolding poll_round mark_provisioning_failed
poll_from a end max i zero k w = none
poll_from a end max i (suc fuel) k w =
    let next = poll_from a end max i fuel (suc k) in
    elim (ltb k max) [
      | true ↦ after_round (poll_round (a (suc k)) (suc k) i w) next
      | false ↦ some (mark_provisioning_failed end provisioning_timeout i w)
    ]

unfoldable pub poll_droplet_status :
    (ℕ → PollAnswers) → CloseAnswers → ℕ → ℕ → World → Option Polled
unfolding poll_from
poll_droplet_status a end max i w = poll_from a end max i (suc max) 0 w
