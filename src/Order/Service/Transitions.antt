-- ===== src/Order/Service/Transitions.antt =====
-- The status updates of apps/order-service/src/modules/order/order.service.ts: what they require and
-- what they write.
use webrana_cloud.Base.{
  ◌==◌, Bool-cases, Option-cases, Result, ok, is_ok, Action, bind-ok, find-update_row,
  find-update_row_other, ℕ, ◌≡◌, refl, sym, ap, ◌∙◌, subst, ◌⊎◌, inl, inr, Bool, true, false,
  Option, none, some, arith,
}
use webrana_cloud.Order.Status.{OrderStatus, ◌=s=◌, is_valid_transition}
use webrana_cloud.Order.Records.{
  Order, World, has_id, find_order, update_order, add_status_history, guarded_row,
}
use webrana_cloud.Order.Service.{
  OrderError, denied, get_order_by_id, status_row, with_status, write_status, change_status,
  update_order_status, Additional, moved_to, AtomicAnswers, is_in, claimed, claim_status,
  record_move, update_order_status_atomic,
}

has_id-other : (i j : ℕ) (o : Order) → i == j ≡ false → has_id j o ≡ true → has_id i o ≡ false
has_id-other i j o apart h = ground arith

-- A written order is found again.
pub find_order-update :
    (i : ℕ) (f : Order → Order) (w : World) {o : Order}
    → ((x : Order) → (f x).id ≡ x.id)
    → find_order i w ≡ some o
    → find_order i (update_order i f w) ≡ some (f o)
find_order-update i f w key h =
    find-update_row (has_id i) f w.orders (λ x. ap (λ k. k == i) (key x)) h

-- The other orders are as they were.
pub find_order-update_other :
    (i j : ℕ) (f : Order → Order) (w : World)
    → ((x : Order) → (f x).id ≡ x.id)
    → i == j ≡ false
    → find_order i (update_order j f w) ≡ find_order i w
find_order-update_other i j f w key apart =
    find-update_row_other (has_id i) (has_id j) f w.orders (λ x. ap (λ k. k == i) (key x))
      (λ x h. has_id-other i j x apart h)

claim_status-found :
    (found : Option Order) (i : ℕ) (from to : OrderStatus) (d : Additional) (w : World)
    → is_ok (claimed (guarded_row i (is_in from) (moved_to to d) w found)).0 ≡ true
    → (o : Order) × (found ≡ some o)
      × (is_in from o ≡ true)
      × ((claimed (guarded_row i (is_in from) (moved_to to d) w found)).1
          ≡ update_order i (moved_to to d) w)
claim_status-found none i from to d w h = cc
claim_status-found (some o) i from to d w h = elim (Bool-cases (is_in from o)) [
  | inl hit ↦ (o, refl, hit, rw hit refl)
  | inr miss ↦ cc (rw miss at h)
]

pub claim_status-ok :
    (written : Bool) (i : ℕ) (from to : OrderStatus) (d : Additional) (w : World)
    → is_ok (claim_status written i from to d w).0 ≡ true
    → (o : Order) × (find_order i w ≡ some o)
      × (is_in from o ≡ true)
      × ((claim_status written i from to d w).1 ≡ update_order i (moved_to to d) w)
claim_status-ok true i from to d w h = claim_status-found (find_order i w) i from to d w h
claim_status-ok false i from to d w h = cc

record_move-ok :
    (recorded reread : Bool) (i : ℕ) (from to : OrderStatus) (w : World)
    → is_ok (record_move recorded reread i from to w).0 ≡ true
    → record_move recorded reread i from to w
      ≡ (ok (find_order i w), add_status_history (status_row i (some from) to) w)
record_move-ok true true i from to w h = refl
record_move-ok true false i from to w h = cc
record_move-ok false reread i from to w h = cc

-- An atomic update that goes through found the order in the status it expected, has moved it and
-- has recorded the move.
pub update_order_status_atomic-ok :
    (a : AtomicAnswers) (i : ℕ) (from to : OrderStatus) (d : Additional) (w : World)
    → is_ok (update_order_status_atomic a i from to d w).0 ≡ true
    → (o : Order) × (find_order i w ≡ some o)
      × (o.status =s= from ≡ true)
      × (update_order_status_atomic a i from to d w ≡ (
        ok (some (moved_to to d o)),
        add_status_history (status_row i (some from) to) (update_order i (moved_to to d) w),
      ))
unfolding update_order_status_atomic
update_order_status_atomic-ok a i from to d w h =
    let move : Unit {0} → Action World OrderError (Option Order) =
      λ _. record_move a.recorded a.reread i from to in
    let (x, claimed_ok, whole) = bind-ok (claim_status a.written i from to d) move w h in
    let (o, found, hit, after) = claim_status-ok a.written i from to d w (ap is_ok claimed_ok) in
    let w' = (claim_status a.written i from to d w).1 in
    let end =
      record_move-ok a.recorded a.reread i from to w' (sym (ap (λ r. is_ok r.0) whole) ∙ h) in
    let kept = find_order-update i (moved_to to d) w (λ _. refl) found in
    (o, found, hit, whole ∙ end ∙ rw after (rw kept refl))

-- Reading changes nothing.
pub get_order_by_id-reads :
    (answers : Bool) (i : ℕ) (user : Option ℕ) (w : World)
    → (get_order_by_id answers i user w).1 ≡ w
unfolding get_order_by_id
get_order_by_id-reads true i user w = elim (Option-cases (find_order i w)) [
  | inl missing ↦ rw missing refl
  | inr (o, found) ↦ rw found elim (Bool-cases (denied user o)) [
    | inl refused ↦ rw refused refl
    | inr allowed ↦ rw allowed refl
  ]
]
get_order_by_id-reads false i user w = refl

abbrev pub Ends : ℕ → ℕ → OrderStatus → World → Result OrderError Order × World → Type 0
Ends now i next w r =
    ((is_ok r.0 ≡ false) × (r.1 ≡ w))
    ⊎ ((o : Order) × (find_order i w ≡ some o)
        × (is_valid_transition o.status next ≡ true)
        × (r ≡ (ok (with_status now next o), write_status now i o.status next w)))

change_status-Ends :
    (now : ℕ) (commits valid : Bool) (i : ℕ) (next : OrderStatus) (o : Order) (w : World)
    → find_order i w ≡ some o
    → is_valid_transition o.status next ≡ valid
    → Ends now i next w (change_status now commits i next o w)
change_status-Ends now true true i next o w found valid = inr (o, found, valid, rw valid refl)
change_status-Ends now false true i next o w found valid = inl (rw valid refl, rw valid refl)
change_status-Ends now commits false i next o w found valid = inl (rw valid refl, rw valid refl)

-- How a status update ends.
pub update_order_status-Ends :
    (now : ℕ) (commits : Bool) (i : ℕ) (next : OrderStatus) (w : World)
    → Ends now i next w (update_order_status now commits i next w)
unfolding update_order_status
update_order_status-Ends now commits i next w = elim (Option-cases (find_order i w)) [
  | inl missing ↦ inl (rw missing refl, rw missing refl)
  | inr (o, found) ↦
      let here : update_order_status now commits i next w ≡ change_status now commits i next o w =
        rw found refl in
      subst (Ends now i next w) (sym here)
        (change_status-Ends now commits (is_valid_transition o.status next) i next o w found refl)
]

-- Of two atomic updates that expect the same status and leave it, only one goes through: the second
-- raises and writes nothing.
pub update_order_status_atomic-once :
    (a a2 : AtomicAnswers) (i : ℕ) (from to to2 : OrderStatus) (d d2 : Additional) (w : World)
    → is_ok (update_order_status_atomic a i from to d w).0 ≡ true
    → to =s= from ≡ false
    → (is_ok
          (update_order_status_atomic a2 i from to2 d2
            (update_order_status_atomic a i from to d w).1).0
        ≡ false)
      × ((update_order_status_atomic a2 i from to2 d2
            (update_order_status_atomic a i from to d w).1).1
          ≡ (update_order_status_atomic a i from to d w).1)
unfolding update_order_status_atomic
update_order_status_atomic-once a a2 i from to to2 d d2 w h apart =
    let (o, found, _, whole) = update_order_status_atomic-ok a i from to d w h in
    let w1 = (update_order_status_atomic a i from to d w).1 in
    let now_found : find_order i w1 ≡ some (moved_to to d o) =
      ap (λ r. find_order i r.1) whole ∙ find_order-update i (moved_to to d) w (λ _. refl) found in
    elim (Bool-cases a2.written) [
      | inl written ↦ rw written (rw now_found (rw apart (refl, refl)))
      | inr unwritten ↦ rw unwritten (refl, refl)
    ]
