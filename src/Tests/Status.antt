-- ===== src/Tests/Status.antt =====
-- The order state machine on concrete paths.
use webrana_cloud.Base.{is_some, ◌≡◌, refl, true}
use webrana_cloud.Order.Status.{
  pending, processing, provisioning, active, terminated, failed, is_valid_transition,
  is_terminal_state,
}
use webrana_cloud.Order.Status.Descriptions.{
  transitions, get_transition_description, transitions-valid,
}
use webrana_cloud.Order.Status.Paths.{
  ◌⟶*◌, here, then, is_closed, is_terminal_state-is_closed, terminal_stays, visits, served_visits,
  active_reachable,
}

abbrev bought : pending ⟶* active
unfolding is_valid_transition
bought = then {t = provisioning} (then {t = processing} (then {t = pending} here refl) refl) refl

description_example :
    get_transition_description pending active ≡ "Status changed from PENDING to ACTIVE"
unfolding get_transition_description
description_example = refl

transitions-valid_example :
    is_some (transitions pending failed) ≡ is_valid_transition pending failed
transitions-valid_example = transitions-valid pending failed

is_terminal_state-is_closed_example : is_terminal_state failed ≡ is_closed failed
is_terminal_state-is_closed_example = is_terminal_state-is_closed failed

terminal_stays_example : terminated ≡ terminated
unfolding is_terminal_state
terminal_stays_example = terminal_stays {s = terminated} {t = terminated} refl here

served_visits_example : (visits processing bought ≡ true) × (visits provisioning bought ≡ true)
served_visits_example = served_visits bought refl

active_reachable_example : failed ⟶* active
unfolding is_terminal_state
active_reachable_example = active_reachable failed refl
