-- ===== src/Tests/Orders.antt =====
-- Rows of the order service's database for the tests.
use webrana_cloud.Base.{pos, ℕ, true, Option, none, some, List, [], ◌∷◌}
use webrana_cloud.Order.Status.{OrderStatus}
use webrana_cloud.Order.Records.{
  monthly, monthly_plan, task_success, Order, ProvisioningTask, healthy, DoAccount, World,
}

abbrev pub order : ℕ → OrderStatus → Option ℕ → Order
order i status suspended_at = record {
  id = i;
  user_id = 9;
  plan_id = 3;
  image_id = 2;
  duration = monthly_plan;
  billing_period = monthly;
  base_price = pos 150;
  promo_discount = pos 0;
  coupon_code = none;
  coupon_discount = pos 0;
  final_price = pos 150;
  status = status;
  version = 2;
  activated_at = none;
  paid_at = none;
  expires_at = some 1000;
  suspended_at = suspended_at;
  terminated_at = none;
  auto_renew = true;
  last_renewal_at = none;
  renewal_fail_reason = none;
  termination_reason = none;
}

abbrev pub task : ProvisioningTask
task = record {
  id = 4;
  order_id = 2;
  status = task_success;
  do_account_id = some 6;
  droplet_id = some 8;
  droplet_status = none;
  ipv4_public = none;
  ipv4_private = none;
  error_code = none;
  attempts = 0;
  started_at = none;
  completed_at = none;
}

abbrev pub do_account : DoAccount
do_account = record {
  id = 6;
  name = 60;
  email = 61;
  access_token = 62;
  droplet_limit = pos 25;
  active_droplets = pos 1;
  is_active = true;
  is_primary = true;
  last_health_check = none;
  health_status = healthy;
}

abbrev pub orders_world : List Order → World
orders_world orders = record {
  orders = orders;
  items = [];
  status_history = [];
  renewal_history = [];
  tasks = task ∷ [];
  accounts = do_account ∷ [];
  charges = [];
  droplet_actions = [];
}
