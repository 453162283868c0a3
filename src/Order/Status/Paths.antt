-- ===== src/Order/Status/Paths.antt =====
-- Where an order can go by valid transitions.
use webrana_cloud.Base.{◌≡◌, refl, subst, ◌≢◌, ◌⊎◌, inl, inr, Bool, true, false, ◌||◌, arith}
use webrana_cloud.Order.Status.{
  OrderStatus, pending, processing, provisioning, active, expiring_soon, expired, suspended,
  terminated, failed, canceled, pending_payment, paid, ◌=s=◌, is_valid_transition,
  is_terminal_state,
}

-- Finitely many valid transitions.
infix 40 ◌⟶*◌
pub data ◌⟶*◌ (s : OrderStatus) : OrderStatus → Type 0 where
  here : s ⟶* s
  then : {t u : OrderStatus} → s ⟶* t → is_valid_transition t u ≡ true → s ⟶* u

abbrev pub is_closed : OrderStatus → Bool
is_closed terminated = true
is_closed canceled = true
is_closed _ = false

-- A status has no way on exactly if it is TERMINATED or CANCELED.
pub is_terminal_state-is_closed : (s : OrderStatus) → is_terminal_state s ≡ is_closed s
unfolding is_terminal_state
is_terminal_state-is_closed s = ground arith

closed_step : (s t : OrderStatus) → is_terminal_state s ≡ true → is_valid_transition s t ≡ true → ⊥
unfolding is_terminal_state is_valid_transition
closed_step s t h step = ground arith

-- Nothing leads out of a terminal state.
pub terminal_stays : {s t : OrderStatus} → is_terminal_state s ≡ true → s ⟶* t → t ≡ s
terminal_stays h here = refl
terminal_stays {s} h (then {t} {u} path step) =
    let same : t ≡ s = terminal_stays h path in
    absurd (closed_step s u h (subst (λ x. is_valid_transition x u ≡ true) same step))

-- Whether a path passes through a status.
pub visits : {s t : OrderStatus} → OrderStatus → s ⟶* t → Bool
visits {s} x here = s =s= x
visits x (then {t} {u} path step) = visits x path || u =s= x

-- The statuses of an order whose VPS has been created.
abbrev pub is_served : OrderStatus → Bool
is_served active = true
is_served expiring_soon = true
is_served expired = true
is_served suspended = true
is_served terminated = true
is_served _ = false

served_step :
    (t u : OrderStatus)
    → is_valid_transition t u ≡ true
    → is_served u ≡ true
    → (t ≡ provisioning) ⊎ (is_served t ≡ true)
unfolding is_valid_transition
served_step t u step h = ground arith

provisioning_step :
    (t : OrderStatus) → is_valid_transition t provisioning ≡ true → (t ≡ processing) ⊎ (t ≡ paid)
unfolding is_valid_transition
provisioning_step t step = ground arith

paid_step :
    (t u : OrderStatus)
    → is_valid_transition t u ≡ true
    → (u ≡ pending_payment) ⊎ (u ≡ paid)
    → t ≡ pending_payment
unfolding is_valid_transition
paid_step t u step h = ground arith

pub visits_last : {s t : OrderStatus} (path : s ⟶* t) → visits t path ≡ true
unfolding visits
visits_last {s} here = ground arith
visits_last (then {t} {u} path step) = ground arith

-- An order of the balance-based flow never enters the legacy statuses.
pub pending_no_legacy : {t : OrderStatus} → pending ⟶* t → (t ≢ pending_payment) × (t ≢ paid)
pending_no_legacy here = (λ e. cc, λ e. cc)
pending_no_legacy (then {t} {u} path step) =
    let before = pending_no_legacy path in
    (λ e. before.0 (paid_step t u step (inl e)), λ e. before.0 (paid_step t u step (inr e)))

visits_processing :
    {t : OrderStatus} (path : pending ⟶* t) → t ≡ provisioning → visits processing path ≡ true
unfolding visits
visits_processing here e = cc
visits_processing (then {t} {u} path step) e =
    elim (provisioning_step t (subst (λ x. is_valid_transition t x ≡ true) e step)) [
      | inl from ↦
          let last : visits processing path ≡ true =
            subst (λ x. visits x path ≡ true) from (visits_last path) in
          rw last refl
      | inr old ↦ absurd ((pending_no_legacy path).1 old)
    ]

-- An order of the balance-based flow is served only after it has been paid (PROCESSING) and then
-- provisioned (PROVISIONING).
pub served_visits :
    {t : OrderStatus} (path : pending ⟶* t)
    → is_served t ≡ true
    → (visits processing path ≡ true) × (visits provisioning path ≡ true)
unfolding visits
served_visits here h = cc
served_visits (then {t} {u} path step) h = elim (served_step t u step h) [
  | inl from ↦
      let last : visits provisioning path ≡ true =
        subst (λ x. visits x path ≡ true) from (visits_last path) in
      (rw (visits_processing path from) refl, rw last refl)
  | inr still ↦ let before = served_visits path still in (rw before.0 refl, rw before.1 refl)
]

provisioned : {s : OrderStatus} → s ⟶* provisioning → s ⟶* active
unfolding is_valid_transition
provisioned path = then {t = provisioning} path refl

processed : {s : OrderStatus} → s ⟶* processing → s ⟶* active
unfolding is_valid_transition
processed path = provisioned (then {t = processing} path refl)

-- Every order that is not closed can still become ACTIVE.
pub active_reachable : (s : OrderStatus) → is_terminal_state s ≡ false → s ⟶* active
unfolding is_terminal_state is_valid_transition
active_reachable pending h = processed (then {t = pending} here refl)
active_reachable processing h = processed here
active_reachable provisioning h = provisioned here
active_reachable active h = here
active_reachable expiring_soon h = then {t = expiring_soon} here refl
active_reachable expired h = then {t = expired} here refl
active_reachable suspended h = then {t = suspended} here refl
active_reachable failed h = processed (then {t = failed} here refl)
active_reachable pending_payment h = processed (then {t = pending_payment} here refl)
active_reachable paid h = provisioned (then {t = paid} here refl)
active_reachable terminated h = cc
active_reachable canceled h = cc
