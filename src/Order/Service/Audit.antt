-- ===== src/Order/Service/Audit.antt =====
-- The status history as an audit log: its newest row of an order tells the order's status.
use webrana_cloud.Base.{
  ◌==◌, Bool-cases, Option-cases, continue, find, ℕ, ◌≡◌, refl, ap, subst, inl, inr, Bool, true,
  false, Option, none, some, List, [], ◌∷◌, arith,
}
use webrana_cloud.Order.Status.{OrderStatus, processing, failed, ◌=s=◌}
use webrana_cloud.Order.Records.{
  Order, StatusHistory, World, find_order, update_order, add_status_history, guarded_row,
}
use webrana_cloud.Order.Service.{
  status_row, with_status, update_order_status, Additional, moved_to, is_in, claimed, record_move,
  update_order_status_atomic, task_of, to_processing, retry_provisioning,
}
use webrana_cloud.Order.Service.Transitions.{
  find_order-update, find_order-update_other, update_order_status-Ends,
}

abbrev pub about : ℕ → StatusHistory → Bool
about i r = r.order_id == i

abbrev pub status_in : Option Order → Option OrderStatus
status_in none = none
status_in (some o) = some o.status

abbrev pub logged_in : Option StatusHistory → Option OrderStatus
logged_in none = none
logged_in (some r) = some r.new_status

abbrev pub IsLogged : ℕ → World → Type 0
IsLogged i w = status_in (find_order i w) ≡ logged_in (find (about i) w.status_history)

-- Writing a status with its history row keeps the log true, of this order and of any other.
pub write-IsLogged :
    (i j : ℕ) (f : Order → Order) (previous : Option OrderStatus) (next : OrderStatus) (w : World)
    {o : Order}
    → ((x : Order) → (f x).id ≡ x.id)
    → ((x : Order) → (f x).status ≡ next)
    → find_order j w ≡ some o
    → IsLogged i w
    → IsLogged i (add_status_history (status_row j previous next) (update_order j f w))
write-IsLogged i j f previous next w {o} key sets found log = elim (Bool-cases (j == i)) [
  | inl here ↦
      let same : j ≡ i = ground (arith, here) in
      let there : find_order i (update_order j f w) ≡ some (f o) =
        subst (λ k. find_order k (update_order j f w) ≡ some (f o)) same
          (find_order-update j f w key found) in
      rw here (rw there (ap some (sets o)))
  | inr away ↦
      let apart : i == j ≡ false = ground (arith, away) in
      rw away (rw (find_order-update_other i j f w key apart) log)
]

-- What a caller can ask of the service's status updates. The history row of an atomic update is not
-- written in a transaction with the update; here it is written.
pub data Call : Type 0 where
  change : ℕ → Bool → ℕ → OrderStatus → Call
  move : (written reread : Bool) → ℕ → OrderStatus → OrderStatus → Additional → Call
  retry : Bool → ℕ → Call

abbrev pub run_call : Call → World → World
run_call (change now commits i next) w = (update_order_status now commits i next w).1
run_call (move written reads i from to d) w =
    (update_order_status_atomic (record { written = written; recorded = true; reread = reads }) i
      from to d w).1
run_call (retry commits i) w = (retry_provisioning commits i w).1

abbrev pub run_calls : List Call → World → World
run_calls [] w = w
run_calls (c ∷ cs) w = run_calls cs (run_call c w)

change-IsLogged :
    (now : ℕ) (commits : Bool) (i j : ℕ) (next : OrderStatus) (w : World)
    → IsLogged i w
    → IsLogged i (update_order_status now commits j next w).1
change-IsLogged now commits i j next w log = elim (update_order_status-Ends now commits j next w) [
  | inl (_, same) ↦ rw same log
  | inr (o, found, _, whole) ↦ rw whole (
      write-IsLogged i j (with_status now next) (some o.status) next w (λ _. refl) (λ _. refl) found
        log)
]

record_move-world :
    (reads : Bool) (j : ℕ) (from to : OrderStatus) (w : World)
    → (record_move true reads j from to w).1 ≡ add_status_history (status_row j (some from) to) w
record_move-world true j from to w = refl
record_move-world false j from to w = refl

claimed-IsLogged :
    (found : Option Order) (i j : ℕ) (from to : OrderStatus) (d : Additional) (reads : Bool)
    (w : World)
    → find_order j w ≡ found
    → IsLogged i w
    → IsLogged i
        (continue
          (claimed (guarded_row j (is_in from) (moved_to to d) w found))
          (λ _. record_move true reads j from to)).1
claimed-IsLogged none i j from to d reads w found log = log
claimed-IsLogged (some o) i j from to d reads w found log = elim (Bool-cases (is_in from o)) [
  | inl hit ↦
      let kept =
        write-IsLogged i j (moved_to to d) (some from) to w (λ _. refl) (λ _. refl) found log in
      rw hit (rw (record_move-world reads j from to (update_order j (moved_to to d) w)) kept)
  | inr miss ↦ rw miss log
]

move-IsLogged :
    (written reads : Bool) (i j : ℕ) (from to : OrderStatus) (d : Additional) (w : World)
    → IsLogged i w
    → IsLogged i (run_call (move written reads j from to d) w)
unfolding update_order_status_atomic
move-IsLogged true reads i j from to d w log =
    claimed-IsLogged (find_order j w) i j from to d reads w refl log
move-IsLogged false reads i j from to d w log = log

retry-IsLogged :
    (commits : Bool) (i j : ℕ) (w : World)
    → IsLogged i w
    → IsLogged i (retry_provisioning commits j w).1
unfolding retry_provisioning
retry-IsLogged commits i j w log = elim (Option-cases (find_order j w)) [
  | inl missing ↦ rw missing log
  | inr (o, found) ↦ rw found elim (Bool-cases (o.status =s= failed)) [
    | inr other ↦ rw other log
    | inl stopped ↦ rw stopped elim (Option-cases (task_of j w)) [
      | inl no_task ↦ rw no_task log
      | inr (t, has_task) ↦ rw has_task elim (Bool-cases commits) [
        | inr aborted ↦ rw aborted log
        | inl done ↦ rw done (
            write-IsLogged i j to_processing (some failed) processing w (λ _. refl) (λ _. refl)
              found log)
      ]
    ]
  ]
]

run_call-IsLogged : (i : ℕ) (c : Call) (w : World) → IsLogged i w → IsLogged i (run_call c w)
run_call-IsLogged i (change now commits j next) w log = change-IsLogged now commits i j next w log
run_call-IsLogged i (move written reads j from to d) w log =
    move-IsLogged written reads i j from to d w log
run_call-IsLogged i (retry commits j) w log = retry-IsLogged commits i j w log

-- Whatever statuses are asked for, of whatever orders and in whatever order, the newest row of an
-- order's history tells its status, if it did so before.
pub run_calls-IsLogged :
    (i : ℕ) (cs : List Call) (w : World) → IsLogged i w → IsLogged i (run_calls cs w)
run_calls-IsLogged i [] w log = log
run_calls-IsLogged i (c ∷ cs) w log =
    run_calls-IsLogged i cs (run_call c w) (run_call-IsLogged i c w log)
