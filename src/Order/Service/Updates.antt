-- ===== src/Order/Service/Updates.antt =====
-- `updateOrderStatus` of apps/order-service/src/modules/order/order.service.ts: when it goes through,
-- and what it writes.
use webrana_cloud.Base.{
  ◌==◌, if◌then◌else◌, Bool-cases, Option-cases, Result, ok, is_ok, ℕ, ◌≡◌, refl, ap, ◌∙◌, ◌⊎◌, inl,
  inr, Bool, false, ◌&&◌, none, some, ◌∷◌, arith,
}
use webrana_cloud.Order.Status.{OrderStatus, paid, ◌=s=◌, is_valid_transition}
use webrana_cloud.Order.Records.{Order, World, find_order}
use webrana_cloud.Order.Service.{OrderError, with_status, update_order_status}
use webrana_cloud.Order.Service.Transitions.{
  find_order-update, find_order-update_other, update_order_status-Ends,
}

-- The database commits, the order is there, and the state machine allows the change.
abbrev pub can_change : Bool → ℕ → OrderStatus → World → Bool
can_change commits i next w =
    commits && elim (find_order i w) [ none ↦ false | some o ↦ is_valid_transition o.status next ]

-- The order with its new status.
abbrev pub in_status : ℕ → OrderStatus → Order → Order
in_status now next o = record o {
  status = next;
  paid_at = (if next =s= paid then some now else o.paid_at);
}

-- The order has the new status, as it is returned and in the database, the other orders are as
-- before, and the newest history row tells the change.
abbrev pub Changed : ℕ → ℕ → OrderStatus → World → Result OrderError Order × World → Type 0
Changed now i next w r =
    (o : Order) × (find_order i w ≡ some o)
    × (r.0 ≡ ok (in_status now next o))
    × (find_order i r.1 ≡ some (in_status now next o))
    × ((j : ℕ) → j == i ≡ false → find_order j r.1 ≡ find_order j w)
    × (r.1.status_history
        ≡ record {
          order_id = i;
          previous_status = some o.status;
          new_status = next;
          threshold = none;
        }
          ∷ w.status_history)

update_order_status_ok :
    (now : ℕ) (commits : Bool) (i : ℕ) (next : OrderStatus) (w : World)
    → is_ok (update_order_status now commits i next w).0 ≡ can_change commits i next w
unfolding update_order_status
update_order_status_ok now commits i next w = elim (Option-cases (find_order i w)) [
  | inl missing ↦ rw missing (ground arith)
  | inr (o, found) ↦ rw found elim (Bool-cases (is_valid_transition o.status next)) [
    | inl valid ↦
        rw valid elim (Bool-cases commits) [ inl done ↦ rw done refl | inr undone ↦ rw undone refl ]
    | inr invalid ↦ rw invalid (ground arith)
  ]
]

-- A status update goes through just where the database commits, the order is there and the state
-- machine allows the change. Then the order has the new status, as it is returned and in the
-- database, the other orders are as before, and a history row tells the change; otherwise it raises
-- and changes nothing.
pub update_order_status-Changed :
    (now : ℕ) (commits : Bool) (i : ℕ) (next : OrderStatus) (w : World)
    → let r = update_order_status now commits i next w in
      (is_ok r.0 ≡ can_change commits i next w)
      × (((is_ok r.0 ≡ false) × (r.1 ≡ w)) ⊎ Changed now i next w r)
update_order_status-Changed now commits i next w = (
  update_order_status_ok now commits i next w,
  elim (update_order_status-Ends now commits i next w) [
    | inl undone ↦ inl undone
    | inr (o, found, _, whole) ↦ inr (
      o,
      found,
      ap (λ r. r.0) whole,
      ap (λ r. find_order i r.1) whole
          ∙ find_order-update i (with_status now next) w (λ _. refl) found,
      λ j apart.
          ap (λ r. find_order j r.1) whole
          ∙ find_order-update_other j i (with_status now next) w (λ _. refl) apart,
      ap (λ r. r.1.status_history) whole,
    )
  ],
)
