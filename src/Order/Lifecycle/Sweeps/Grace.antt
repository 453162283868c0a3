-- ===== src/Order/Lifecycle/Sweeps/Grace.antt =====
-- The sweep over suspended orders spares whatever is not due.
use webrana_cloud.Order.Lifecycle.Termination.{
  CallAnswers, may_terminate, as_terminated, terminate_vps,
}
use webrana_cloud.Order.Lifecycle.Termination.Once.{termination, run_job-orders, run_job-blocked}
use webrana_cloud.Base.{
  Bool-cases, Option-cases, and_right, and_left, find, filter_where, some_where,
  find-update_row_other, ℕ, ◌≡◌, refl, sym, ◌∙◌, subst, inl, inr, Bool, true, false, not, ◌&&◌,
  Option, none, some, List, [], ◌∷◌, arith,
}
use webrana_cloud.Order.Status.{suspended, ◌=s=◌}
use webrana_cloud.Order.Records.{
  TerminationReason, expired_no_renewal, Order, World, has_id, find_order,
}
use webrana_cloud.Order.Lifecycle.{get_grace_period_hours}
use webrana_cloud.Order.Lifecycle.Sweeps.{
  ProcessingStats, no_stats, sweep, grace_ended, terminate_due, process_suspended_vps,
}

abbrev pub grace_over : ℕ → Order → Option ℕ → Bool
grace_over now o none = false
grace_over now o (some since) = grace_ended now o since

-- Suspended, with the time of the suspension, and past the grace period.
unfoldable pub is_due : ℕ → Order → Bool
unfolding get_grace_period_hours
is_due now o = o.status =s= suspended && grace_over now o o.suspended_at

-- The ids are unique, as the primary key demands.
abbrev pub distinct : List Order → Bool
distinct [] = true
distinct (o ∷ os) = not (some_where (has_id o.id) os) && distinct os

-- No order with this id passes the test.
abbrev pub none_passes : ℕ → (Order → Bool) → List Order → Bool
none_passes i p [] = true
none_passes i p (o ∷ os) = not (has_id i o && p o) && none_passes i p os

pub none_passes-absent :
    (i : ℕ) (p : Order → Bool) (os : List Order)
    → some_where (has_id i) os ≡ false
    → none_passes i p os ≡ true
none_passes-absent i p [] h = refl
none_passes-absent i p (o ∷ os) h = ground (arith, none_passes-absent i p os (ground (arith, h)))

none_passes-find :
    (i : ℕ) (p : Order → Bool) (os : List Order) {o : Order}
    → distinct os ≡ true
    → find (has_id i) os ≡ some o
    → p o ≡ false
    → none_passes i p os ≡ true
none_passes-find i p [] d h k = cc
none_passes-find i p (x ∷ xs) {o} d h k = elim (Bool-cases (has_id i x)) [
  | inl hit ↦
      let same : x ≡ o = cc (rw hit at h) in
      let fails : p x ≡ false = subst (λ y. p y ≡ false) (sym same) k in
      let at_i : x.id ≡ i = ground (arith, hit) in
      let absent : some_where (has_id i) xs ≡ false =
        subst (λ j. some_where (has_id j) xs ≡ false) at_i (ground (arith, d)) in
      rw hit (rw fails (none_passes-absent i p xs absent))
  | inr miss ↦
      let found : find (has_id i) xs ≡ some o = rw miss at h in
      rw miss (none_passes-find i p xs (ground (arith, d)) found k)
]

none_passes-filter_where :
    (i : ℕ) (p q : Order → Bool) (os : List Order)
    → none_passes i (λ o. q o && p o) os ≡ true
    → none_passes i p (filter_where q os) ≡ true
none_passes-filter_where i p q [] h = refl
none_passes-filter_where i p q (o ∷ os) h =
    ground (arith, none_passes-filter_where i p q os (ground (arith, h)))

terminate_vps-others :
    (a : CallAnswers) (now i : ℕ) (reason : TerminationReason) (o : Order) (w : World)
    → has_id i o ≡ false
    → find_order i (terminate_vps a now reason o w).1 ≡ find_order i w
terminate_vps-others a now i reason o w apart = elim (Bool-cases a.update_saved) [
  | inr fails ↦ unfold terminate_vps in rw fails refl
  | inl saved ↦ elim (Option-cases (find_order o.id w)) [
    | inl missing ↦ unfold terminate_vps in rw saved (rw missing refl)
    | inr (row, found) ↦ elim (Bool-cases (may_terminate o row)) [
      | inl may ↦ rw (run_job-orders (termination reason) a now o w found may saved) (
          find-update_row_other (has_id i) (has_id o.id) (as_terminated now reason) w.orders
            (λ x. refl) (λ x h. ground (arith, h, apart)))
      | inr may_not ↦ rw (run_job-blocked (termination reason) a now o w found may_not saved) refl
    ]
  ]
]

pub terminate_due-spares :
    (now i : ℕ) (answers : ℕ → CallAnswers) (o : Order) (since : Option ℕ)
    (s : ProcessingStats × World)
    → not (has_id i o && grace_over now o since) ≡ true
    → find_order i (terminate_due now answers o since s).1 ≡ find_order i s.1
terminate_due-spares now i answers o none (t, w) h = refl
terminate_due-spares now i answers o (some since) (t, w) h =
    elim (Bool-cases (grace_ended now o since)) [
      | inl ended ↦
          let apart : has_id i o ≡ false = ground (arith, h, ended) in
          rw ended (terminate_vps-others (answers o.id) now i expired_no_renewal o w apart)
      | inr early ↦ rw early refl
    ]

pub sweep-spares :
    (now i : ℕ) (answers : ℕ → CallAnswers) (os : List Order) (s : ProcessingStats × World)
    → none_passes i (λ o. grace_over now o o.suspended_at) os ≡ true
    → find_order i (sweep (λ o. terminate_due now answers o o.suspended_at) os s).1
      ≡ find_order i s.1
sweep-spares now i answers [] s h = refl
sweep-spares now i answers (o ∷ os) s h =
    sweep-spares now i answers os (terminate_due now answers o o.suspended_at s) (and_right _ _ h)
    ∙ terminate_due-spares now i answers o o.suspended_at s (and_left _ _ h)

-- With distinct ids, an order that is not suspended, has no time of suspension, or is still in the
-- grace period of its billing period is after the sweep over the suspended orders as it was,
-- whatever the provider and the database answer.
pub process_suspended_vps-spares :
    (now i : ℕ) (answers : ℕ → CallAnswers) (w : World) {o : Order}
    → distinct w.orders ≡ true
    → find_order i w ≡ some o
    → is_due now o ≡ false
    → find_order i (process_suspended_vps now answers w).1 ≡ some o
unfolding process_suspended_vps is_due
process_suspended_vps-spares now i answers w {o} d found k =
    sweep-spares now i answers (filter_where (λ x. x.status =s= suspended) w.orders) (no_stats, w)
      (none_passes-filter_where i (λ x. grace_over now x x.suspended_at)
        (λ x. x.status =s= suspended) w.orders
        (none_passes-find i (λ x. x.status =s= suspended && grace_over now x x.suspended_at)
          w.orders d found k))
    ∙ found
