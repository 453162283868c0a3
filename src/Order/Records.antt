-- ===== src/Order/Records.antt =====
-- The rows of the order service's database (apps/order-service/prisma/schema.prisma), with the
-- columns that the modelled code reads or writes, and what it does outside of it. Ids and names are
-- numbers, times milliseconds.
use webrana_cloud.Base.{
  ◌==◌, if◌then◌else◌, ℤ, find, update_row, Code, ℕ, Bool, true, false, Option, none, some, List,
  ◌∷◌,
}
use webrana_cloud.Order.Status.{OrderStatus}

pub data BillingPeriod : Type 0 where
  daily monthly yearly : BillingPeriod

-- `PlanDuration`, the legacy field.
pub data PlanDuration : Type 0 where
  monthly_plan quarterly_plan semi_annual_plan annual_plan : PlanDuration

pub data ProvisioningStatus : Type 0 where
  task_pending task_in_progress task_success task_failed : ProvisioningStatus

-- The texts that the code writes to `error_code`.
pub data ErrorCode : Type 0 where
  droplet_creation_failed droplet_errored_code polling_error provisioning_timeout : ErrorCode

pub data TerminationReason : Type 0 where
  user_deleted expired_no_renewal insufficient_balance admin_terminated : TerminationReason
  do_account_issue policy_violation : TerminationReason

pub data RenewalType : Type 0 where
  by_auto_renewal by_manual_renewal by_admin_extension by_replacement_vps : RenewalType

-- The texts that the code writes to `renewal_fail_reason` and `fail_reason`.
pub data FailReason : Type 0 where
  no_balance system_error : FailReason

pub record Order : Type 0 where
  pub id : ℕ
  pub user_id : ℕ
  pub plan_id : ℕ
  pub image_id : ℕ
  pub duration : PlanDuration
  pub billing_period : BillingPeriod
  pub base_price : ℤ
  pub promo_discount : ℤ
  pub coupon_code : Option Code
  pub coupon_discount : ℤ
  pub final_price : ℤ
  pub status : OrderStatus
  pub version : ℕ
  pub activated_at : Option ℕ
  pub paid_at : Option ℕ
  pub expires_at : Option ℕ
  pub suspended_at : Option ℕ
  pub terminated_at : Option ℕ
  pub auto_renew : Bool
  pub last_renewal_at : Option ℕ
  pub renewal_fail_reason : Option FailReason
  pub termination_reason : Option TerminationReason

pub record OrderItem : Type 0 where
  pub order_id : ℕ
  pub reference_id : ℕ
  pub unit_price : ℤ
  pub quantity : ℕ
  pub total_price : ℤ

-- A new order has no previous status. Of the metadata, the threshold of an expiry warning is kept.
pub record StatusHistory : Type 0 where
  pub order_id : ℕ
  pub previous_status : Option OrderStatus
  pub new_status : OrderStatus
  pub threshold : Option ℕ

pub record RenewalHistory : Type 0 where
  pub order_id : ℕ
  pub renewal_type : RenewalType
  pub amount : ℤ
  pub previous_expiry : Option ℕ
  pub new_expiry : Option ℕ
  pub success : Bool
  pub fail_reason : Option FailReason

-- The texts that the code compares with or writes, and any other that the provider reports.
pub data DropletStatus : Type 0 where
  droplet_active droplet_errored destroyed : DropletStatus
  reported : ℕ → DropletStatus

pub record ProvisioningTask : Type 0 where
  pub id : ℕ
  pub order_id : ℕ
  pub status : ProvisioningStatus
  pub do_account_id : Option ℕ
  pub droplet_id : Option ℕ
  pub droplet_status : Option DropletStatus
  pub ipv4_public : Option ℕ
  pub ipv4_private : Option ℕ
  pub error_code : Option ErrorCode
  pub attempts : ℕ
  pub started_at : Option ℕ
  pub completed_at : Option ℕ

pub data AccountHealth : Type 0 where
  healthy degraded unhealthy unknown_health : AccountHealth

pub record DoAccount : Type 0 where
  pub id : ℕ
  pub name : ℕ
  pub email : ℕ
  pub access_token : ℕ
  pub droplet_limit : ℤ
  pub active_droplets : ℤ
  pub is_active : Bool
  pub is_primary : Bool
  pub last_health_check : Option ℕ
  pub health_status : AccountHealth

-- A deduction that the billing service has made at this service's request.
pub record Charge : Type 0 where
  pub user_id : ℕ
  pub amount : ℤ
  pub order_id : ℕ

pub data DropletAction : Type 0 where
  power_off power_on delete_droplet : ℕ → DropletAction

pub record World : Type 0 where
  pub orders : List Order
  pub items : List OrderItem
  pub status_history : List StatusHistory
  pub renewal_history : List RenewalHistory
  pub tasks : List ProvisioningTask
  pub accounts : List DoAccount
  pub charges : List Charge
  pub droplet_actions : List DropletAction

abbrev pub has_id : ℕ → Order → Bool
has_id i o = o.id == i

abbrev pub find_order : ℕ → World → Option Order
find_order i w = find (has_id i) w.orders

-- `order.update({ where: { id } })`.
abbrev pub update_order : ℕ → (Order → Order) → World → World
update_order i f w = record w { orders = update_row (has_id i) f w.orders }

abbrev pub add_status_history : StatusHistory → World → World
add_status_history h w = record w { status_history = h ∷ w.status_history }

abbrev pub add_renewal_history : RenewalHistory → World → World
add_renewal_history h w = record w { renewal_history = h ∷ w.renewal_history }

-- `order.updateMany` on a unique id with further conditions: whether a row was written.
abbrev pub guarded_row : ℕ → (Order → Bool) → (Order → Order) → World → Option Order → Bool × World
guarded_row i guard f w none = (false, w)
guarded_row i guard f w (some o) = if guard o then (true, update_order i f w) else (false, w)

abbrev pub update_guarded : ℕ → (Order → Bool) → (Order → Order) → World → Bool × World
update_guarded i guard f w = guarded_row i guard f w (find_order i w)
