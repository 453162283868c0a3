-- ===== src/Order/Status.antt =====
-- The order state machine (apps/order-service/src/modules/order/order-state-machine.ts) over the
-- statuses of apps/order-service/prisma/schema.prisma.
pub mod Descriptions
pub mod Paths
use webrana_cloud.Base.{◌==◌, length, some_where, Bool, true, false, List, [], ◌∷◌}

pub data OrderStatus : Type 0 where
  pending processing provisioning active expiring_soon expired suspended terminated : OrderStatus
  failed canceled pending_payment paid : OrderStatus

pub OrderStatus-discrete : Discrete OrderStatus
OrderStatus-discrete = hlevel

-- `===` on statuses.
infix 50 ◌=s=◌
abbrev pub ◌=s=◌ : OrderStatus → OrderStatus → Bool
pending =s= pending = true
processing =s= processing = true
provisioning =s= provisioning = true
active =s= active = true
expiring_soon =s= expiring_soon = true
expired =s= expired = true
suspended =s= suspended = true
terminated =s= terminated = true
failed =s= failed = true
canceled =s= canceled = true
pending_payment =s= pending_payment = true
paid =s= paid = true
_ =s= _ = false

-- `VALID_TRANSITIONS`.
abbrev pub valid_transitions : OrderStatus → List OrderStatus
valid_transitions pending = processing ∷ failed ∷ canceled ∷ []
valid_transitions processing = provisioning ∷ failed ∷ []
valid_transitions provisioning = active ∷ failed ∷ []
valid_transitions active = expiring_soon ∷ suspended ∷ terminated ∷ []
valid_transitions expiring_soon = active ∷ expired ∷ []
valid_transitions expired = active ∷ suspended ∷ terminated ∷ []
valid_transitions suspended = active ∷ terminated ∷ []
valid_transitions pending_payment = paid ∷ canceled ∷ processing ∷ []
valid_transitions paid = provisioning ∷ []
valid_transitions terminated = []
valid_transitions failed = processing ∷ []
valid_transitions canceled = []

-- `Array.includes`.
abbrev pub includes : OrderStatus → List OrderStatus → Bool
includes s l = some_where (λ x. x =s= s) l

unfoldable pub is_valid_transition : OrderStatus → OrderStatus → Bool
is_valid_transition current next = includes next (valid_transitions current)

unfoldable pub get_valid_next_states : OrderStatus → List OrderStatus
get_valid_next_states current = valid_transitions current

unfoldable pub is_terminal_state : OrderStatus → Bool
is_terminal_state s = length (valid_transitions s) == 0
