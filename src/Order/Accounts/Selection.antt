-- ===== src/Order/Accounts/Selection.antt =====
-- Which account is selected.
use webrana_cloud.Base.{
  Bool-cases, Option-cases, ◌<ℤ◌, ltb_ℤ, Result, ok, pure, ◌>>=◌, bind-post, recover-post, attempt,
  filter_where, ℕ, ◌≡◌, sym, ap, ◌∙◌, subst, inl, inr, Bool, true, false, Option, none, some, List,
  [], ◌∷◌, arith,
}
use webrana_cloud.Order.Records.{DoAccount}
use webrana_cloud.Order.Accounts.Ordering.{
  AllWhere, filter_where-AllWhere, ordered-AllWhere, reordering-AllWhere,
}
use webrana_cloud.Order.Accounts.{
  AccountError, account_error, SelectionStrategy, Accounts, find_account, update_account_row,
  mark_account_unhealthy, AccountCapacity, get_account_capacity, with_capacity, ProbeAnswers,
  counted, if_room, probe, skip, try_account, or_next, select_from, is_candidate, ordered,
  apply_strategy_reordering, get_active_accounts, select_among, select_available_account,
}

-- The account as the provider has just reported it, with room.
abbrev pub HasRoom : (ℕ → ProbeAnswers) → DoAccount → Type 0
HasRoom p y =
    ((p y.id).reported
      ≡ some (record { droplet_limit = y.droplet_limit; active_count = y.active_droplets }))
    × (y.active_droplets <ℤ y.droplet_limit)

skip-none :
    (saved : Bool) (now i : ℕ) (s : List DoAccount) {y : DoAccount}
    → ((mark_account_unhealthy saved now i >>= λ _. pure none) s).0 ≡ ok (some y)
    → ⊥
unfolding mark_account_unhealthy
skip-none true now i s h = cc
skip-none false now i s h = cc

capacity-reported :
    (answer : Option AccountCapacity) (i : ℕ) (s : List DoAccount) {c : AccountCapacity}
    → (get_account_capacity answer i s).0 ≡ ok c
    → answer ≡ some c
unfolding get_account_capacity
capacity-reported answer i s {c} h = elim (Option-cases (find_account i s)) [
  | inl missing ↦ cc (rw missing at h)
  | inr (x, found) ↦ elim (Option-cases answer) [
    | inl unknown ↦ cc (rw (found, unknown) at h)
    | inr (c2, known) ↦ let same : c2 ≡ c = cc (rw (found, known) at h) in known ∙ ap some same
  ]
]

if_room-some :
    (c : AccountCapacity) (x : DoAccount) {y : DoAccount}
    → if_room c x ≡ some y
    → (c.active_count <ℤ c.droplet_limit) × (y ≡ counted c x)
if_room-some c x {y} h = elim (Bool-cases (ltb_ℤ c.active_count c.droplet_limit)) [
  | inl room ↦ (ground (arith, room), cc (rw room at h))
  | inr full ↦ cc (rw full at h)
]

saved-ok :
    (saved : Bool) (f : List DoAccount → List DoAccount) (r : Option DoAccount) (s : List DoAccount)
    {y : DoAccount}
    → ((attempt saved account_error f >>= λ _. pure r) s).0 ≡ ok (some y)
    → r ≡ some y
saved-ok true f r s h = cc
saved-ok false f r s h = cc

-- What a successful probe has seen.
abbrev Seen : ProbeAnswers → DoAccount → DoAccount → Type 0
Seen p x y =
    (c : AccountCapacity) × (p.reported ≡ some c)
    × (c.active_count <ℤ c.droplet_limit)
    × (y ≡ counted c x)

try_account-Seen :
    (p : ProbeAnswers) (now : ℕ) (x : DoAccount) (s : List DoAccount) {y : DoAccount}
    → (try_account p now x s).0 ≡ ok (some y)
    → Seen p x y
unfolding try_account
try_account-Seen p now x s {y} =
    let Goal : Result AccountError (Option DoAccount) × List DoAccount → Type 0 =
      λ r. r.0 ≡ ok (some y) → Seen p x y in
    recover-post Goal (probe p now x s) (λ _. skip p now x)
      (λ _ _.
        bind-post Goal (get_account_capacity p.reported x.id)
          (λ c.
            (attempt p.saved account_error (update_account_row x.id (with_capacity now c)) >>= λ _.
            pure (if_room c x)))
          s
          (λ c known h.
            let room = if_room-some c x (
              saved-ok p.saved (update_account_row x.id (with_capacity now c)) (if_room c x)
                (get_account_capacity p.reported x.id s).1 h) in
            (c, capacity-reported p.reported x.id s known, room.0, room.1))
          (λ e _ h. cc))
      (λ e _ h. absurd (skip-none p.fault_saved now x.id (probe p now x s).1 h))

abbrev Selected : (ℕ → ProbeAnswers) → DoAccount → Type 0
Selected p y = (is_candidate y ≡ true) × HasRoom p y

Seen-Selected :
    (p : ℕ → ProbeAnswers) (x : DoAccount) {y : DoAccount}
    → is_candidate x ≡ true
    → Seen (p x.id) x y
    → Selected p y
Seen-Selected p x one (c, known, room, same) = subst (Selected p) (sym same) (one, (known, room))

or_next-Selected :
    (p : ℕ → ProbeAnswers) (next : Accounts DoAccount) (r : Option DoAccount) (s : List DoAccount)
    {y : DoAccount}
    → ((next s).0 ≡ ok y → Selected p y)
    → (r ≡ some y → Selected p y)
    → (or_next next r s).0 ≡ ok y
    → Selected p y
or_next-Selected p next none s later here h = later h
or_next-Selected p next (some z) s later here h = here cc

select_from-Selected :
    (p : ℕ → ProbeAnswers) (now : ℕ) (xs : List DoAccount) (s : List DoAccount) {y : DoAccount}
    → AllWhere is_candidate xs
    → (select_from p now xs s).0 ≡ ok y
    → Selected p y
select_from-Selected p now [] s all h = cc
select_from-Selected p now (x ∷ xs) s {y} (one, rest) h =
    let Goal : Result AccountError DoAccount × List DoAccount → Type 0 =
      λ r. r.0 ≡ ok y → Selected p y in
    bind-post Goal (try_account (p x.id) now x) (λ r. or_next (select_from p now xs) r) s
      (λ r tried.
        or_next-Selected p (select_from p now xs) r (try_account (p x.id) now x s).1
          (λ k. select_from-Selected p now xs (try_account (p x.id) now x s).1 rest k)
          (λ k. Seen-Selected p x one (try_account-Seen (p x.id) now x s (tried ∙ ap ok k))))
      (λ e _ k. cc) h

select_among-Selected :
    (p : ℕ → ProbeAnswers) (now : ℕ) (xs : List DoAccount) (s : List DoAccount) {y : DoAccount}
    → AllWhere is_candidate xs
    → (select_among p now xs s).0 ≡ ok y
    → Selected p y
select_among-Selected p now [] s all h = cc
select_among-Selected p now (x ∷ xs) s all h = select_from-Selected p now (x ∷ xs) s all h

-- A selected account is active and usable, and the provider has just reported that it has room.
pub select_available_account-HasRoom :
    (strategy : SelectionStrategy) (draw : ℕ → ℕ) (last : ℕ) (p : ℕ → ProbeAnswers) (now : ℕ)
    (s : List DoAccount) (y : DoAccount)
    → (select_available_account strategy draw last p now s).0.0 ≡ ok y
    → (is_candidate y ≡ true) × HasRoom p y
unfolding select_available_account get_active_accounts
select_available_account-HasRoom strategy draw last p now s y h =
    let xs = ordered (filter_where is_candidate s) in
    select_among-Selected p now (apply_strategy_reordering strategy draw last xs).0 s
      (reordering-AllWhere is_candidate strategy draw last xs (
        ordered-AllWhere is_candidate (filter_where is_candidate s)
          (filter_where-AllWhere is_candidate s)))
      h
