-- ===== src/Order/Status/Descriptions.antt =====
-- The descriptions of the transitions, a second table beside the transitions themselves.
use webrana_cloud.Base.{is_some, ◌≡◌, Option, none, some, arith}
use webrana_cloud.Order.Status.{
  OrderStatus, pending, processing, provisioning, active, expiring_soon, expired, suspended,
  terminated, failed, canceled, pending_payment, paid, is_valid_transition,
}
use Prim.Native.String.{String, ◌++◌ as ◌<>◌}

-- The names of the Prisma enum.
abbrev pub status_name : OrderStatus → String
status_name pending = "PENDING"
status_name processing = "PROCESSING"
status_name provisioning = "PROVISIONING"
status_name active = "ACTIVE"
status_name expiring_soon = "EXPIRING_SOON"
status_name expired = "EXPIRED"
status_name suspended = "SUSPENDED"
status_name terminated = "TERMINATED"
status_name failed = "FAILED"
status_name canceled = "CANCELED"
status_name pending_payment = "PENDING_PAYMENT"
status_name paid = "PAID"

-- The record `transitions`, keyed by `from->to`.
abbrev pub transitions : OrderStatus → OrderStatus → Option String
transitions pending processing = some "Balance deducted, processing started"
transitions pending failed = some "Balance deduction failed"
transitions pending canceled = some "Order canceled"
transitions processing provisioning = some "VPS provisioning started"
transitions processing failed = some "Provisioning setup failed"
transitions provisioning active = some "VPS provisioned successfully"
transitions provisioning failed = some "Provisioning failed, balance refunded"
transitions active expiring_soon = some "VPS approaching expiration"
transitions active suspended = some "VPS suspended due to expiration"
transitions active terminated = some "VPS terminated"
transitions expiring_soon active = some "VPS renewed successfully"
transitions expiring_soon expired = some "VPS expired"
transitions expired active = some "VPS reactivated after renewal"
transitions expired suspended = some "VPS suspended (grace period)"
transitions expired terminated = some "VPS terminated (no grace period)"
transitions suspended active = some "VPS reactivated"
transitions suspended terminated = some "VPS terminated (grace period ended)"
transitions pending_payment paid = some "Payment verified"
transitions pending_payment canceled = some "Order canceled"
transitions pending_payment processing = some "Migrated to balance-based flow"
transitions paid provisioning = some "Provisioning started"
transitions failed processing = some "Admin triggered retry provisioning"
transitions _ _ = none

abbrev or_else : Option String → String → String
or_else none d = d
or_else (some t) d = t

unfoldable pub get_transition_description : OrderStatus → OrderStatus → String
get_transition_description from to =
    or_else (transitions from to)
      ("Status changed from " <> (status_name from <> (" to " <> status_name to)))

-- The two tables agree: a transition has a description of its own exactly when it is valid.
pub transitions-valid :
    (from to : OrderStatus) → is_some (transitions from to) ≡ is_valid_transition from to
unfolding is_valid_transition
transitions-valid from to = ground arith
