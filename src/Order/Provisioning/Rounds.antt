-- ===== src/Order/Provisioning/Rounds.antt =====
-- The rounds of the polling loop, and the execution around it, leave a task that is closed or can
-- still be closed.
use webrana_cloud.Base.{
  ltb, is_some, Bool-cases, Result, ok, err, ◌>>=◌, bind-post, recover-post, attempt, ℕ, zero, suc,
  ◌≡◌, refl, inl, inr, Bool, true, false, Option, none, some,
}
use webrana_cloud.Order.Records.{
  droplet_creation_failed, polling_error, provisioning_timeout, ProvisioningTask, World,
}
use webrana_cloud.Order.Service.{update_task}
use webrana_cloud.Order.Provisioning.{
  ProvisioningError, other_error, is_fatal_error, Provisions, CloseAnswers,
  mark_provisioning_failed, PollAnswers, with_metadata, update_droplet_metadata_generic, got,
  check_droplet, try_round, with_attempts, give_up, failed_round, poll_round, Polled, after_round,
  poll_from, poll_droplet_status,
}
use webrana_cloud.Order.Provisioning.Execution.{
  ExecuteAnswers, increment_active_count, count_droplet, with_droplet, in_progress, save_droplet,
  create_droplet, then_poll, caught, execute_provisioning,
}
use webrana_cloud.Order.Provisioning.Closing.{
  IsTracked, IsClosed, update_task-IsTracked, Ends, Round, failure-Ends, then_true-Round,
  check_droplet-Round, failure-IsClosed,
}
use webrana_cloud.Order.Provisioning.Termination.{poll_droplet_status-returns, then_poll-returns}

-- A single write to the task, and what follows it.
write_task-post :
    {B : Type 0} (P : Result ProvisioningError B × World → Type 0) (c : Bool) (i j : ℕ)
    (f : ProvisioningTask → ProvisioningTask) (k : Unit {0} → Provisions B) (w : World)
    → ((x : ProvisioningTask) → (f x).id ≡ x.id)
    → ((x : ProvisioningTask) → (f x).order_id ≡ x.order_id)
    → ((u : World) → IsTracked i j u → P (k tt u))
    → (IsTracked i j w → P (err other_error, w))
    → IsTracked i j w
    → P ((attempt c other_error (update_task i f) >>= k) w)
write_task-post P true i j f k w key kept done undone h =
    done (update_task i f w) (update_task-IsTracked i j f w key kept h)
write_task-post P false i j f k w key kept done undone h = undone h

try_round-Round :
    (a : PollAnswers) (i j : ℕ) (w : World) → IsTracked i j w → Round i j (try_round a i w)
unfolding update_droplet_metadata_generic
try_round-Round a i j w h =
    bind-post (Round i j) (got a.droplet)
      (λ d.
        (update_droplet_metadata_generic a.metadata_saved i d >>= λ _.
        check_droplet a.closing i d.status))
      w
      (λ d _.
        write_task-post (Round i j) a.metadata_saved i j (with_metadata d)
          (λ _. check_droplet a.closing i d.status) w (λ _. refl) (λ _. refl)
          (λ u tracked. check_droplet-Round a.closing i j d.status u tracked) (λ tracked. tracked)
          h)
      (λ _ _. h)

give_up-Round :
    (a : CloseAnswers) (i j : ℕ) (fatal : Bool) (w : World)
    → IsTracked i j w
    → Round i j (give_up a i fatal w)
give_up-Round a i j true w h =
    then_true-Round i j (mark_provisioning_failed a polling_error i w)
      (failure-Ends a polling_error i j w h)
give_up-Round a i j false w h = h

Round-raised :
    (i j : ℕ) (r : Result ProvisioningError Bool × World) (e : ProvisioningError)
    → r.0 ≡ err e
    → Round i j r
    → IsTracked i j r.1
Round-raised i j (ok b, w) e h round = cc
Round-raised i j (err x, w) e h round = round

poll_round-Round :
    (a : PollAnswers) (k i j : ℕ) (w : World) → IsTracked i j w → Round i j (poll_round a k i w)
unfolding poll_round
poll_round-Round a k i j w h =
    recover-post (Round i j) (try_round a i w) (failed_round a k i)
      (λ _ _. try_round-Round a i j w h)
      (λ e raised.
        write_task-post (Round i j) a.attempts_saved i j (with_attempts k)
          (λ _. give_up a.failing i (is_fatal_error e)) (try_round a i w).1 (λ _. refl) (λ _. refl)
          (λ u tracked. give_up-Round a.failing i j (is_fatal_error e) u tracked)
          (λ tracked. tracked)
          (Round-raised i j (try_round a i w) e raised (try_round-Round a i j w h)))

-- Where a computation on fuel has a result.
abbrev pub EndsIn : ℕ → ℕ → Option Polled → Type 0
EndsIn i j none = Unit {0}
EndsIn i j (some r) = Ends i j r

after_round-EndsIn :
    (i j : ℕ) (r : Result ProvisioningError Bool × World) (next : World → Option Polled)
    → ((w : World) → IsTracked i j w → EndsIn i j (next w))
    → Round i j r
    → EndsIn i j (after_round r next)
after_round-EndsIn i j (ok true, w) next ends h = h
after_round-EndsIn i j (ok false, w) next ends h = ends w h
after_round-EndsIn i j (err e, w) next ends h = h

poll_from-EndsIn :
    (a : ℕ → PollAnswers) (end : CloseAnswers) (max i j fuel k : ℕ) (w : World)
    → IsTracked i j w
    → EndsIn i j (poll_from a end max i fuel k w)
unfolding poll_from
poll_from-EndsIn a end max i j zero k w h = tt
poll_from-EndsIn a end max i j (suc fuel) k w h = elim (Bool-cases (ltb k max)) [
  | inl more ↦
      rw (EndsIn, poll_from, more)
        (after_round-EndsIn i j (poll_round (a (suc k)) (suc k) i w)
          (poll_from a end max i fuel (suc k))
          (λ u tracked. poll_from-EndsIn a end max i j fuel (suc k) u tracked)
          (poll_round-Round (a (suc k)) (suc k) i j w h))
  | inr over ↦ rw (EndsIn, poll_from, over) (failure-Ends end provisioning_timeout i j w h)
]

then_poll-EndsIn :
    (i j : ℕ) (r : Polled) (poll : World → Option Polled)
    → IsTracked i j r.1
    → ((w : World) → IsTracked i j w → EndsIn i j (poll w))
    → EndsIn i j (then_poll r poll)
then_poll-EndsIn i j (ok x, w) poll h ends = ends w h
then_poll-EndsIn i j (err e, w) poll h ends = h

count_droplet-post :
    {B : Type 0} (P : Result ProvisioningError B × World → Type 0) (c : Bool) (account : Option ℕ)
    (i j : ℕ) (k : Unit {0} → Provisions B) (w : World)
    → ((u : World) → IsTracked i j u → P (k tt u))
    → (IsTracked i j w → P (err other_error, w))
    → IsTracked i j w
    → P ((count_droplet c account >>= k) w)
unfolding increment_active_count
count_droplet-post P c none i j k w done undone h = done w h
count_droplet-post P true (some acc) i j k w done undone h = done (increment_active_count acc w) h
count_droplet-post P false (some acc) i j k w done undone h = undone h

progress-IsTracked :
    (c : Bool) (i j : ℕ) (w : World)
    → IsTracked i j w
    → IsTracked i j (attempt c other_error (update_task i in_progress) w).1
progress-IsTracked true i j w h = update_task-IsTracked i j in_progress w (λ _. refl) (λ _. refl) h
progress-IsTracked false i j w h = h

create_droplet-IsTracked :
    (a : ExecuteAnswers) (i j : ℕ) (account : Option ℕ) (w : World)
    → IsTracked i j w
    → IsTracked i j (create_droplet a i account w).1
create_droplet-IsTracked a i j account w h =
    bind-post (λ r. IsTracked i j r.1) (got a.droplet)
      (λ d. (count_droplet a.counted account >>= λ _. save_droplet a i d)) w
      (λ d _.
        count_droplet-post (λ r. IsTracked i j r.1) a.counted account i j (λ _. save_droplet a i d)
          w
          (λ u h1.
            write_task-post (λ r. IsTracked i j r.1) a.droplet_saved i j (with_droplet a.now d)
              (λ _. attempt a.progress_saved other_error (update_task i in_progress)) u (λ _. refl)
              (λ _. refl) (λ v h2. progress-IsTracked a.progress_saved i j v h2) (λ h2. h2) h1)
          (λ h1. h1) h)
      (λ _ _. h)

caught-IsClosed :
    (i j : ℕ) (r : Option Polled) (handler : World → Polled)
    → is_some r ≡ true
    → EndsIn i j r
    → ((w : World) → IsTracked i j w → IsClosed i j (handler w).1)
    → (q : Polled) × (caught r handler ≡ some q) × IsClosed i j q.1
caught-IsClosed i j none handler there h closes = cc
caught-IsClosed i j (some (ok x, w)) handler there h closes = ((ok x, w), refl, h)
caught-IsClosed i j (some (err e, w)) handler there h closes = (handler w, refl, closes w h)

-- An execution always returns, and afterwards the task has succeeded and its order is active, or
-- both have failed: no order is left provisioning, as long as the last failure can be saved.
pub execute_provisioning-IsClosed :
    (max : ℕ) (a : ExecuteAnswers) (i j : ℕ) (account : Option ℕ) (w : World)
    → IsTracked i j w
    → a.failing.task_read ≡ true
    → a.failing.commits ≡ true
    → (r : Polled) × (execute_provisioning max a i account w ≡ some r) × IsClosed i j r.1
unfolding execute_provisioning poll_droplet_status
execute_provisioning-IsClosed max a i j account w h reads commits =
    let poll = poll_droplet_status a.polls a.timeout max i in
    let created = create_droplet a i account w in
    caught-IsClosed i j (then_poll created poll)
      (mark_provisioning_failed a.failing droplet_creation_failed i)
      (then_poll-returns created poll (λ u. poll_droplet_status-returns a.polls a.timeout max i u))
      (then_poll-EndsIn i j created poll (create_droplet-IsTracked a i j account w h)
        (λ u tracked. poll_from-EndsIn a.polls a.timeout max i j (suc max) 0 u tracked))
      (λ u tracked. failure-IsClosed a.failing droplet_creation_failed i j u reads commits tracked)
