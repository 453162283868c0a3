-- ===== src/Order/Lifecycle/Warnings/Distinct.antt =====
-- No warning is recorded twice.
use webrana_cloud.Order.Lifecycle.{get_notification_thresholds}
use webrana_cloud.Order.Lifecycle.Sweeps.Due.{distinct-filter_where}
use webrana_cloud.Base.{
  ◌==◌, if◌then◌else◌, Bool-cases, update_row, filter_where, count_where, some_where, ℕ, ◌+◌, ◌≤◌,
  ◌≡◌, refl, sym, subst, inl, inr, Bool, true, false, ◌&&◌, Option, none, some, List, [], ◌∷◌,
  arith,
}
use webrana_cloud.Order.Status.{active, ◌=s=◌}
use webrana_cloud.Order.Records.{
  BillingPeriod, daily, monthly, yearly, Order, StatusHistory, World, has_id, find_order,
  add_status_history, guarded_row,
}
use webrana_cloud.Order.Lifecycle.Sweeps.{ProcessingStats, no_stats, sweep}
use webrana_cloud.Order.Lifecycle.Sweeps.Grace.{distinct}
use webrana_cloud.Order.Lifecycle.Warnings.{
  WarningAnswers, warns, is_expiring, warning_row, as_expiring, mark_expiring,
  send_expiration_notification, warn_one, warn_threshold, warn_thresholds, process_expiring_vps,
}

-- The recorded warnings of an order for a threshold.
abbrev pub warnings : ℕ → ℕ → World → ℕ
warnings i h w = count_where (warns i h) w.status_history

-- The orders of a pass that are warned of this threshold under this id.
abbrev pub warned : ℕ → ℕ → ℕ → List Order → ℕ
warned i h hours os = count_where (λ o. hours == h && has_id i o) os

guarded_row-history :
    (i : ℕ) (g : Order → Bool) (f : Order → Order) (w : World) (o : Option Order)
    → (guarded_row i g f w o).1.status_history ≡ w.status_history
guarded_row-history i g f w none = refl
guarded_row-history i g f w (some o) = ground arith

mark_expiring-history :
    (saved : Bool) (o : Order) (w : World)
    → (mark_expiring saved o w).1.status_history ≡ w.status_history
mark_expiring-history saved o w = elim (Bool-cases (o.status =s= active)) [
  | inr other ↦ rw other refl
  | inl due ↦ rw due (elim (Bool-cases saved) [
    | inl done ↦ rw done (guarded_row-history o.id _ as_expiring w (find_order o.id w))
    | inr fails ↦ rw fails refl
  ])
]

send-warnings :
    (i h hours : ℕ) (a : WarningAnswers) (o : Order) (w : World)
    → warnings i h (send_expiration_notification a hours o w).1
      ≤ (if hours == h && has_id i o then 1 else 0) + warnings i h w
unfolding send_expiration_notification
send-warnings i h hours a o w = elim (Bool-cases a.notified) [
  | inr silent ↦ rw silent (omega arith)
  | inl told ↦ rw told (elim (Bool-cases a.recorded) [
    | inr lost ↦ rw lost (omega arith)
    | inl kept ↦ rw kept (
        rw (mark_expiring-history a.status_saved o (add_status_history (warning_row hours o) w))
          (ground arith))
  ])
]

sweep-warnings :
    (i h hours : ℕ) (answers : ℕ → WarningAnswers) (os : List Order) (s : ProcessingStats × World)
    → warnings i h (sweep (warn_one hours answers) os s).1 ≤ warned i h hours os + warnings i h s.1
sweep-warnings i h hours answers [] s = omega arith
sweep-warnings i h hours answers (o ∷ os) s =
    let first = send-warnings i h hours (answers o.id) o s.1 in
    let rest = sweep-warnings i h hours answers os (warn_one hours answers o s) in
    ground (arith, first, rest)

distinct-absent :
    (i h hours : ℕ) (os : List Order) → some_where (has_id i) os ≡ false → warned i h hours os ≡ 0
distinct-absent i h hours [] d = refl
distinct-absent i h hours (o ∷ os) d =
    ground (arith, d, distinct-absent i h hours os (ground (arith, d)))

distinct-warned : (i h hours : ℕ) (os : List Order) → distinct os ≡ true → warned i h hours os ≤ 1
distinct-warned i h hours [] d = omega arith
distinct-warned i h hours (o ∷ os) d = elim (Bool-cases (has_id i o)) [
  | inl hit ↦
      let at_i : o.id ≡ i = ground (arith, hit) in
      let absent : some_where (has_id i) os ≡ false =
        subst (λ k. some_where (has_id k) os ≡ false) at_i (ground (arith, d)) in
      ground (arith, hit, distinct-absent i h hours os absent)
  | inr miss ↦ ground (arith, miss, distinct-warned i h hours os (ground (arith, d)))
]

is_expiring-unwarned :
    (period : BillingPeriod) (hours now : ℕ) (w : World) (o : Order)
    → is_expiring period hours now w o ≡ true
    → ¬ (some_where (warns o.id hours) w.status_history ≡ true)
is_expiring-unwarned period hours now w o asked known = ground (arith, asked, known)

-- Whom the query gives was not warned of its threshold.
filter_where-warned :
    (i h hours now : ℕ) (period : BillingPeriod) (w : World) (os : List Order)
    → some_where (warns i h) w.status_history ≡ true
    → warned i h hours (filter_where (is_expiring period hours now w) os) ≡ 0
filter_where-warned i h hours now period w [] known = refl
filter_where-warned i h hours now period w (o ∷ os) known =
    elim (Bool-cases (is_expiring period hours now w o)) [
      | inr not_now ↦ rw not_now (filter_where-warned i h hours now period w os known)
      | inl asked ↦ rw asked (elim (Bool-cases (hours == h && has_id i o)) [
        | inr other ↦ rw other (filter_where-warned i h hours now period w os known)
        | inl hit ↦
            let at_i : o.id ≡ i = ground (arith, hit) in
            let at_h : hours ≡ h = ground (arith, hit) in
            absurd (
              is_expiring-unwarned period hours now w o asked (
                subst (λ k. some_where (warns k hours) w.status_history ≡ true) (sym at_i)
                  (subst (λ t. some_where (warns i t) w.status_history ≡ true) (sym at_h) known)))
      ])
    ]

some_where-update_row :
    (k i : ℕ) (f : Order → Order) (os : List Order)
    → ((o : Order) → (f o).id ≡ o.id)
    → some_where (has_id k) (update_row (has_id i) f os) ≡ some_where (has_id k) os
some_where-update_row k i f [] key = refl
some_where-update_row k i f (o ∷ os) key = elim (Bool-cases (has_id i o)) [
  | inl hit ↦ rw hit (rw (key o) refl)
  | inr miss ↦ rw miss (rw (some_where-update_row k i f os key) refl)
]

distinct-update_row :
    (i : ℕ) (f : Order → Order) (os : List Order)
    → ((o : Order) → (f o).id ≡ o.id)
    → distinct os ≡ true
    → distinct (update_row (has_id i) f os) ≡ true
distinct-update_row i f [] key d = refl
distinct-update_row i f (o ∷ os) key d = elim (Bool-cases (has_id i o)) [
  | inl hit ↦ rw hit (rw (key o) d)
  | inr miss ↦ rw miss (
      rw (some_where-update_row o.id i f os key)
        (ground (arith, d, distinct-update_row i f os key (ground (arith, d)))))
]

guarded_row-distinct :
    (i : ℕ) (g : Order → Bool) (w : World) (o : Option Order)
    → distinct w.orders ≡ true
    → distinct (guarded_row i g as_expiring w o).1.orders ≡ true
guarded_row-distinct i g w none d = d
guarded_row-distinct i g w (some o) d = elim (Bool-cases (g o)) [
  | inl may ↦ rw may (distinct-update_row i as_expiring w.orders (λ x. refl) d)
  | inr stale ↦ rw stale d
]

send-distinct :
    (hours : ℕ) (a : WarningAnswers) (o : Order) (w : World)
    → distinct w.orders ≡ true
    → distinct (send_expiration_notification a hours o w).1.orders ≡ true
unfolding send_expiration_notification
send-distinct hours a o w d = elim (Bool-cases a.notified) [
  | inr silent ↦ rw silent d
  | inl told ↦ rw told (elim (Bool-cases a.recorded) [
    | inr lost ↦ rw lost d
    | inl kept ↦ rw kept (elim (Bool-cases (o.status =s= active)) [
      | inr other ↦ rw other d
      | inl due ↦ rw due (elim (Bool-cases a.status_saved) [
        | inr fails ↦ rw fails d
        | inl done ↦ rw done (
            guarded_row-distinct o.id _ (add_status_history (warning_row hours o) w)
              (find_order o.id w) d)
      ])
    ])
  ])
]

sweep-distinct :
    (hours : ℕ) (answers : ℕ → WarningAnswers) (os : List Order) (s : ProcessingStats × World)
    → distinct s.1.orders ≡ true
    → distinct (sweep (warn_one hours answers) os s).1.orders ≡ true
sweep-distinct hours answers [] s d = d
sweep-distinct hours answers (o ∷ os) s d =
    sweep-distinct hours answers os (warn_one hours answers o s)
      (send-distinct hours (answers o.id) o s.1 d)

unwarned :
    (i h : ℕ) (l : List StatusHistory)
    → some_where (warns i h) l ≡ false
    → count_where (warns i h) l ≡ 0
unwarned i h [] e = refl
unwarned i h (x ∷ l) e = ground (arith, e, unwarned i h l (ground (arith, e)))

-- Distinct orders, and at most one warning of this threshold for this order.
abbrev pub IsWarnedOnce : ℕ → ℕ → World → Type 0
IsWarnedOnce i h w = (distinct w.orders ≡ true) × (warnings i h w ≤ 1)

warn_threshold-IsWarnedOnce :
    (i h now hours : ℕ) (read : Bool) (answers : ℕ → WarningAnswers) (period : BillingPeriod)
    (s : ProcessingStats × World)
    → IsWarnedOnce i h s.1
    → IsWarnedOnce i h (warn_threshold now read answers period hours s).1
unfolding warn_threshold
warn_threshold-IsWarnedOnce i h now hours false answers period (t, w) v = v
warn_threshold-IsWarnedOnce i h now hours true answers period (t, w) (d, once) =
    let asked = filter_where (is_expiring period hours now w) w.orders in
    let bound = sweep-warnings i h hours answers asked (t, w) in
    (
      sweep-distinct hours answers asked (t, w) d,
      elim (Bool-cases (some_where (warns i h) w.status_history)) [
        | inl known ↦
            let nobody = filter_where-warned i h hours now period w w.orders known in
            omega (arith, bound, nobody, once)
        | inr new ↦
            let none_yet = unwarned i h w.status_history new in
            let one =
              distinct-warned i h hours asked
                (distinct-filter_where (is_expiring period hours now w) w.orders d) in
            omega (arith, bound, none_yet, one)
      ],
    )

warn_thresholds-IsWarnedOnce :
    (i h now : ℕ) (read : BillingPeriod → ℕ → Bool)
    (answers : BillingPeriod → ℕ → ℕ → WarningAnswers) (period : BillingPeriod) (hs : List ℕ)
    (s : ProcessingStats × World)
    → IsWarnedOnce i h s.1
    → IsWarnedOnce i h (warn_thresholds now read answers period hs s).1
warn_thresholds-IsWarnedOnce i h now read answers period [] s v = v
warn_thresholds-IsWarnedOnce i h now read answers period (x ∷ hs) s v =
    warn_thresholds-IsWarnedOnce i h now read answers period hs
      (warn_threshold now (read period x) (answers period x) period x s)
      (warn_threshold-IsWarnedOnce i h now x (read period x) (answers period x) period s v)

-- With distinct ids, where each order has at most one recorded warning of a threshold, it still
-- has after the job that sends the warnings, whatever is answered; so runs of the job one after
-- another record no warning twice.
pub process_expiring_vps-IsWarnedOnce :
    (i h now : ℕ) (read : BillingPeriod → ℕ → Bool)
    (answers : BillingPeriod → ℕ → ℕ → WarningAnswers) (w : World)
    → IsWarnedOnce i h w
    → IsWarnedOnce i h (process_expiring_vps now read answers w).1
unfolding process_expiring_vps
process_expiring_vps-IsWarnedOnce i h now read answers w v =
    let run =
      λ (p : BillingPeriod). warn_thresholds now read answers p (get_notification_thresholds p) in
    let step = λ (p : BillingPeriod).
      warn_thresholds-IsWarnedOnce i h now read answers p (get_notification_thresholds p) in
    let after_daily = run daily (no_stats, w) in
    step yearly (run monthly after_daily) (step monthly after_daily (step daily (no_stats, w) v))
