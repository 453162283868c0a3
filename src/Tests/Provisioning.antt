-- ===== src/Tests/Provisioning.antt =====
-- The service's updates, the provisioning and the accounts at concrete rows.
use webrana_cloud.Base.{
  ltb, leb, if◌then◌else◌, is_some, pos, ok, is_ok, ℕ, ◌≤◌, ◌≡◌, refl, ◌⊎◌, true, false, Option,
  none, some, List, [], ◌∷◌, arith,
}
use webrana_cloud.Order.Status.{provisioning, active, expiring_soon, failed, paid}
use webrana_cloud.Order.Records.{
  ProvisioningStatus, task_success, task_failed, DropletStatus, droplet_active, DoAccount, World,
}
use webrana_cloud.Order.Service.{
  status_row, update_order_status, nothing_more, AtomicAnswers, update_order_status_atomic,
}
use webrana_cloud.Order.Service.Updates.{can_change, Changed, update_order_status-Changed}
use webrana_cloud.Order.Service.Transitions.{update_order_status_atomic-once}
use webrana_cloud.Order.Service.Audit.{
  IsLogged, Call, change, move, retry, run_calls, run_calls-IsLogged,
}
use webrana_cloud.Order.Accounts.{
  least_used, get_account_capacity, ProbeAnswers, try_account, is_candidate,
  apply_strategy_reordering, get_active_accounts, select_available_account,
}
use webrana_cloud.Order.Accounts.Admin.{UpdateAccount, TokenAnswers, update_account}
use webrana_cloud.Order.Accounts.Primary.{primaries, update_account-primaries}
use webrana_cloud.Order.Accounts.Selection.{HasRoom, select_available_account-HasRoom}
use webrana_cloud.Order.Provisioning.{
  Droplet, CloseAnswers, find_task, mark_provisioning_success, mark_provisioning_failed,
  PollAnswers, update_droplet_metadata_generic, poll_round, Polled, poll_from, poll_droplet_status,
}
use webrana_cloud.Order.Provisioning.Execution.{
  StartAnswers, update_order_to_provisioning, start_provisioning, ExecuteAnswers,
  increment_active_count, execute_provisioning,
}
use webrana_cloud.Order.Provisioning.Closing.{IsClosed}
use webrana_cloud.Order.Provisioning.Rounds.{execute_provisioning-IsClosed}
use webrana_cloud.Order.Provisioning.Termination.{
  poll_droplet_status-returns, poll_droplet_status-bounded,
}
use webrana_cloud.Tests.Orders.{order, task, do_account, orders_world}

abbrev paid_world : World
paid_world = record (orders_world (order 1 paid none ∷ [])) { tasks = [] }

abbrev saved : CloseAnswers
saved = record { now = 50; task_read = true; commits = true }

abbrev lost : CloseAnswers
lost = record { now = 50; task_read = true; commits = false }

abbrev droplet : DropletStatus → Droplet
droplet s = record { id = 8; status = s; ipv4_public = some 80; ipv4_private = none }

-- The droplet is new for two rounds, then active.
abbrev polls : ℕ → PollAnswers
polls k = record {
  droplet = ok (droplet (if ltb k 3 then DropletStatus.reported 0 else droplet_active));
  metadata_saved = true;
  closing = saved;
  attempts_saved = true;
  failing = saved;
}

abbrev room : ℕ → ProbeAnswers
room i = record {
  reported = some (record { droplet_limit = pos 25; active_count = pos 4 });
  saved = true;
  fault_saved = true;
}

abbrev start : StartAnswers
start = record { task_id = 11; now = 40; probes = room; task_created = true; moved = true }

abbrev started : World
started = (start_provisioning start 1 paid_world).1

abbrev execution : ExecuteAnswers
execution = record {
  droplet = ok (droplet (DropletStatus.reported 0));
  counted = true;
  droplet_saved = true;
  progress_saved = true;
  now = 45;
  polls = polls;
  timeout = saved;
  failing = saved;
}

-- The provider never makes the droplet active.
abbrev stuck : ℕ → PollAnswers
stuck k = record (polls k) { droplet = ok (droplet (DropletStatus.reported 0)) }

starts : (start_provisioning start 1 paid_world).0 ≡ ok (some 6)
unfolding start_provisioning update_order_to_provisioning select_available_account
    get_active_accounts apply_strategy_reordering try_account get_account_capacity
starts = refl

-- With three attempts allowed the third finds the droplet active.
abbrev end_status : Option Polled → Option ProvisioningStatus
end_status none = none
end_status (some r) = elim (find_task 4 r.1) [ none ↦ none | some t ↦ some t.status ]

abbrev tracked : World
tracked = orders_world (order 2 provisioning none ∷ [])

third_time :
    (end_status (execute_provisioning 3 execution 4 (some 6) tracked) ≡ some task_success)
    × (end_status (execute_provisioning 2 execution 4 (some 6) tracked) ≡ some task_failed)
unfolding execute_provisioning poll_droplet_status poll_from poll_round mark_provisioning_success
    mark_provisioning_failed update_droplet_metadata_generic increment_active_count
third_time = (refl, refl)

execute_provisioning-IsClosed_example :
    (r : Polled) × (execute_provisioning 2 execution 4 none tracked ≡ some r) × IsClosed 4 2 r.1
execute_provisioning-IsClosed_example =
    execute_provisioning-IsClosed 2 execution 4 2 none tracked
      (task, order 2 provisioning none, refl, refl, refl) refl refl

poll_droplet_status-returns_example : is_some (poll_droplet_status stuck lost 60 4 tracked) ≡ true
poll_droplet_status-returns_example = poll_droplet_status-returns stuck lost 60 4 tracked

abbrev later : ℕ → PollAnswers
later k = if leb k 2 then stuck k else polls k

later-agrees : (j : ℕ) → j ≤ 2 → stuck j ≡ later j
later-agrees j h = ground (arith, h)

poll_droplet_status-bounded_example :
    poll_droplet_status stuck lost 2 4 tracked ≡ poll_droplet_status later lost 2 4 tracked
poll_droplet_status-bounded_example =
    poll_droplet_status-bounded stuck later lost 2 4 tracked later-agrees

abbrev fleet : List DoAccount
fleet = do_account ∷ []

picked :
    (select_available_account least_used (λ x. x) 0 room 40 fleet).0.0
    ≡ ok (record do_account { active_droplets = pos 4 })
unfolding select_available_account get_active_accounts apply_strategy_reordering try_account
    get_account_capacity
picked = refl

select_available_account-HasRoom_example :
    (is_candidate (record do_account { active_droplets = pos 4 }) ≡ true)
    × HasRoom room (record do_account { active_droplets = pos 4 })
select_available_account-HasRoom_example =
    select_available_account-HasRoom least_used (λ x. x) 0 room 40 fleet
      (record do_account { active_droplets = pos 4 }) picked

abbrev token : TokenAnswers
token = record {
  validity = some true;
  account_email = 61;
  capacity = some (record { droplet_limit = pos 25; active_count = pos 0 });
}

abbrev to_primary : UpdateAccount
to_primary = record {
  name = none;
  email = none;
  access_token = none;
  is_active = none;
  is_primary = some true;
}

abbrev two : List DoAccount
two = record do_account { id = 7; is_primary = false } ∷ fleet

update_account-primaries_example :
    primaries (update_account (λ x. x) 40 token true true 7 to_primary two).1 ≤ 1
update_account-primaries_example =
    update_account-primaries (λ x. x) 40 token true true 7 to_primary two (omega arith)
      (omega arith)

abbrev updates : List Call
updates =
    change 30 true 2 active
    ∷ move true true 2 active expiring_soon nothing_more
    ∷ retry true 2
    ∷ change 31 true 2 active
    ∷ []

abbrev logged : World
logged = record tracked { status_history = status_row 2 (some paid) provisioning ∷ [] }

run_calls-IsLogged_example : IsLogged 2 (run_calls updates logged)
run_calls-IsLogged_example = run_calls-IsLogged 2 updates logged refl

update_order_status-Changed_example :
    (is_ok (update_order_status 30 true 2 active logged).0 ≡ can_change true 2 active logged)
    × (((is_ok (update_order_status 30 true 2 active logged).0 ≡ false)
          × ((update_order_status 30 true 2 active logged).1 ≡ logged))
        ⊎ Changed 30 2 active logged (update_order_status 30 true 2 active logged))
update_order_status-Changed_example = update_order_status-Changed 30 true 2 active logged

abbrev all_saved : AtomicAnswers
all_saved = record { written = true; recorded = true; reread = true }

first_moves :
    is_ok (update_order_status_atomic all_saved 2 provisioning active nothing_more logged).0 ≡ true
unfolding update_order_status_atomic
first_moves = refl

update_order_status_atomic-once_example :
    (is_ok
        (update_order_status_atomic all_saved 2 provisioning failed nothing_more
          (update_order_status_atomic all_saved 2 provisioning active nothing_more logged).1).0
      ≡ false)
    × ((update_order_status_atomic all_saved 2 provisioning failed nothing_more
          (update_order_status_atomic all_saved 2 provisioning active nothing_more logged).1).1
        ≡ (update_order_status_atomic all_saved 2 provisioning active nothing_more logged).1)
update_order_status_atomic-once_example =
    update_order_status_atomic-once all_saved all_saved 2 provisioning active failed nothing_more
      nothing_more logged first_moves refl
