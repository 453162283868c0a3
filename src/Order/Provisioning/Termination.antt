-- ===== src/Order/Provisioning/Termination.antt =====
-- The polling loop ends.
use webrana_cloud.Base.{
  ltb, is_some, Bool-cases, Result, ok, err, ℕ, zero, suc, ◌+◌, ◌≤◌, ◌<◌, ◌≡◌, refl, inl, inr, Bool,
  true, false, Option, none, some, arith,
}
use webrana_cloud.Order.Records.{droplet_creation_failed, World}
use webrana_cloud.Order.Provisioning.{
  ProvisioningError, CloseAnswers, mark_provisioning_failed, PollAnswers, poll_round, Polled,
  after_round, poll_from, poll_droplet_status,
}
use webrana_cloud.Order.Provisioning.Execution.{
  ExecuteAnswers, create_droplet, then_poll, caught, execute_provisioning,
}

after_round-ends :
    (r : Result ProvisioningError Bool × World) (next : World → Option Polled)
    → ((w : World) → is_some (next w) ≡ true)
    → is_some (after_round r next) ≡ true
after_round-ends (ok true, w) next ends = refl
after_round-ends (ok false, w) next ends = ends w
after_round-ends (err e, w) next ends = refl

-- Fuel for one round more than the attempts that are left is enough.
poll_from-ends :
    (a : ℕ → PollAnswers) (end : CloseAnswers) (max i fuel k : ℕ) (w : World)
    → k ≤ max
    → max < fuel + k
    → is_some (poll_from a end max i fuel k w) ≡ true
unfolding poll_from
poll_from-ends a end max i zero k w within enough = absurd (omega arith)
poll_from-ends a end max i (suc fuel) k w within enough = elim (Bool-cases (ltb k max)) [
  | inl more ↦
      let left : suc k ≤ max = ground (arith, more) in
      rw (is_some, more)
        (after_round-ends (poll_round (a (suc k)) (suc k) i w) (poll_from a end max i fuel (suc k))
          (λ u. poll_from-ends a end max i fuel (suc k) u left (omega arith)))
  | inr over ↦ rw (is_some, over) refl
]

-- The polling loop returns, whatever the provider and the database answer.
pub poll_droplet_status-returns :
    (a : ℕ → PollAnswers) (end : CloseAnswers) (max i : ℕ) (w : World)
    → is_some (poll_droplet_status a end max i w) ≡ true
unfolding poll_droplet_status
poll_droplet_status-returns a end max i w =
    poll_from-ends a end max i (suc max) 0 w (omega arith) (omega arith)

after_round-agree :
    (r : Result ProvisioningError Bool × World) (next next2 : World → Option Polled)
    → ((w : World) → next w ≡ next2 w)
    → after_round r next ≡ after_round r next2
after_round-agree (ok true, w) next next2 agree = refl
after_round-agree (ok false, w) next next2 agree = agree w
after_round-agree (err e, w) next next2 agree = refl

poll_from-agree :
    (a a2 : ℕ → PollAnswers) (end : CloseAnswers) (max i fuel k : ℕ) (w : World)
    → ((j : ℕ) → j ≤ max → a j ≡ a2 j)
    → poll_from a end max i fuel k w ≡ poll_from a2 end max i fuel k w
unfolding poll_from
poll_from-agree a a2 end max i zero k w agree = refl
poll_from-agree a a2 end max i (suc fuel) k w agree = elim (Bool-cases (ltb k max)) [
  | inl more ↦
      let left : suc k ≤ max = ground (arith, more) in
      rw (poll_from, more)
        (rw (agree (suc k) left) (
          after_round-agree (poll_round (a2 (suc k)) (suc k) i w)
            (poll_from a end max i fuel (suc k)) (poll_from a2 end max i fuel (suc k))
            (λ u. poll_from-agree a a2 end max i fuel (suc k) u agree)))
  | inr over ↦ rw (poll_from, over) refl
]

-- It makes at most `max` attempts: no answer to a later one has a part in the result.
pub poll_droplet_status-bounded :
    (a a2 : ℕ → PollAnswers) (end : CloseAnswers) (max i : ℕ) (w : World)
    → ((j : ℕ) → j ≤ max → a j ≡ a2 j)
    → poll_droplet_status a end max i w ≡ poll_droplet_status a2 end max i w
unfolding poll_droplet_status
poll_droplet_status-bounded a a2 end max i w agree =
    poll_from-agree a a2 end max i (suc max) 0 w agree

pub then_poll-returns :
    (r : Polled) (poll : World → Option Polled)
    → ((w : World) → is_some (poll w) ≡ true)
    → is_some (then_poll r poll) ≡ true
then_poll-returns (ok x, w) poll ends = ends w
then_poll-returns (err e, w) poll ends = refl

caught-returns :
    (r : Option Polled) (handler : World → Polled)
    → is_some r ≡ true
    → is_some (caught r handler) ≡ true
caught-returns none handler h = h
caught-returns (some r) handler h = refl

pub execute_provisioning-returns :
    (max : ℕ) (a : ExecuteAnswers) (i : ℕ) (account : Option ℕ) (w : World)
    → is_some (execute_provisioning max a i account w) ≡ true
unfolding execute_provisioning
execute_provisioning-returns max a i account w =
    caught-returns
      (then_poll (create_droplet a i account w) (poll_droplet_status a.polls a.timeout max i))
      (mark_provisioning_failed a.failing droplet_creation_failed i)
      (then_poll-returns (create_droplet a i account w)
        (poll_droplet_status a.polls a.timeout max i)
        (λ u. poll_droplet_status-returns a.polls a.timeout max i u))
