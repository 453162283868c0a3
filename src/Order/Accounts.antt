-- ===== src/Order/Accounts.antt =====
-- The provider accounts (apps/order-service/src/modules/do-account/do-account.service.ts): the
-- selection of an account with room, health and the counts. What the provider and the database
-- answer is an argument, and so is what `Math.random` draws.
pub mod Admin
pub mod Ordering
pub mod Primary
pub mod Selection
use webrana_cloud.Base.{
  ◌==◌, if◌then◌else◌, ℤ, ◌-ℤ◌, ltb_ℤ, leb_ℤ, Result, Action, pure, raise, gets, or_raise,
  catch_with, ◌>>=◌, attempt, length, find, update_row, filter_where, ℕ, zero, suc, ◌%◌, Bool, true,
  false, not, ◌&&◌, ◌||◌, Option, none, some, List, [], ◌∷◌, ◌++◌,
}
use webrana_cloud.Order.Records.{AccountHealth, healthy, unhealthy, unknown_health, DoAccount}

pub data AccountError : Type 0 where
  no_available_account all_accounts_full account_not_found : AccountError
  invalid_token account_has_active_tasks account_error : AccountError

pub data SelectionStrategy : Type 0 where
  least_used round_robin random primary_first : SelectionStrategy

abbrev pub Accounts : Type 0 → Type 0
Accounts A = Action (List DoAccount) AccountError A

abbrev pub is_account : ℕ → DoAccount → Bool
is_account i x = x.id == i

abbrev pub find_account : ℕ → List DoAccount → Option DoAccount
find_account i s = find (is_account i) s

abbrev pub update_account_row : ℕ → (DoAccount → DoAccount) → List DoAccount → List DoAccount
update_account_row i f s = update_row (is_account i) f s

abbrev pub with_health : ℕ → AccountHealth → DoAccount → DoAccount
with_health now h x = record x { health_status = h; last_health_check = some now }

unfoldable pub mark_account_unhealthy : Bool → ℕ → ℕ → Accounts (Unit {0})
mark_account_unhealthy saved now i =
    attempt saved account_error (update_account_row i (with_health now unhealthy))

unfoldable pub mark_account_healthy : Bool → ℕ → ℕ → Accounts (Unit {0})
mark_account_healthy saved now i =
    attempt saved account_error (update_account_row i (with_health now healthy))

-- The limit and the count of droplets that the provider reports.
pub record AccountCapacity : Type 0 where
  pub droplet_limit : ℤ
  pub active_count : ℤ

abbrev pub available_capacity : AccountCapacity → ℤ
available_capacity c = c.droplet_limit -ℤ c.active_count

-- `reported` is none where the row, the token or the provider's answer cannot be had.
unfoldable pub get_account_capacity : Option AccountCapacity → ℕ → Accounts AccountCapacity
get_account_capacity reported i = gets (find_account i) >>= λ found.
    (or_raise found account_not_found >>= λ _. or_raise reported account_error)

abbrev pub with_capacity : ℕ → AccountCapacity → DoAccount → DoAccount
with_capacity now c x = record x {
  droplet_limit = c.droplet_limit;
  active_droplets = c.active_count;
  last_health_check = some now;
  health_status = healthy;
}

-- What is answered while one account is tried.
pub record ProbeAnswers : Type 0 where
  pub reported : Option AccountCapacity
  pub saved : Bool
  pub fault_saved : Bool

abbrev pub counted : AccountCapacity → DoAccount → DoAccount
counted c x = record x { droplet_limit = c.droplet_limit; active_droplets = c.active_count }

abbrev pub if_room : AccountCapacity → DoAccount → Option DoAccount
if_room c x = if ltb_ℤ c.active_count c.droplet_limit then some (counted c x) else none

-- The `try` of one turn of the loop; the result is the account where it has room.
abbrev pub probe : ProbeAnswers → ℕ → DoAccount → Accounts (Option DoAccount)
probe p now x = get_account_capacity p.reported x.id >>= λ c.
    (attempt p.saved account_error (update_account_row x.id (with_capacity now c)) >>= λ _.
    pure (if_room c x))

abbrev pub skip : ProbeAnswers → ℕ → DoAccount → Accounts (Option DoAccount)
skip p now x = mark_account_unhealthy p.fault_saved now x.id >>= λ _. pure none

unfoldable pub try_account : ProbeAnswers → ℕ → DoAccount → Accounts (Option DoAccount)
unfolding get_account_capacity mark_account_unhealthy
try_account p now x = catch_with (probe p now x) (λ _. skip p now x)

abbrev pub or_next : Accounts DoAccount → Option DoAccount → Accounts DoAccount
or_next next none = next
or_next next (some x) = pure x

abbrev pub select_from : (ℕ → ProbeAnswers) → ℕ → List DoAccount → Accounts DoAccount
select_from p now [] = raise all_accounts_full
select_from p now (x ∷ xs) =
    let next = select_from p now xs in try_account (p x.id) now x >>= λ r. or_next next r

abbrev pub is_usable : AccountHealth → Bool
is_usable healthy = true
is_usable unknown_health = true
is_usable _ = false

abbrev pub is_candidate : DoAccount → Bool
is_candidate x = x.is_active && is_usable x.health_status

-- `orderBy: [{ isPrimary: 'desc' }, { activeDroplets: 'asc' }]`, which every strategy has.
abbrev pub comes_first : DoAccount → DoAccount → Bool
comes_first x y =
    x.is_primary && not y.is_primary
    || (x.is_primary || not y.is_primary) && leb_ℤ x.active_droplets y.active_droplets

abbrev pub insert : DoAccount → List DoAccount → List DoAccount
insert x [] = x ∷ []
insert x (y ∷ ys) = let rest = insert x ys in if comes_first x y then x ∷ y ∷ ys else y ∷ rest

abbrev pub ordered : List DoAccount → List DoAccount
ordered [] = []
ordered (x ∷ xs) = insert x (ordered xs)

abbrev pub drop : {A : Type 0} → ℕ → List A → List A
drop zero xs = xs
drop (suc k) [] = []
drop (suc k) (x ∷ xs) = drop k xs

abbrev pub take : {A : Type 0} → ℕ → List A → List A
take zero xs = []
take (suc k) [] = []
take (suc k) (x ∷ xs) = x ∷ take k xs

abbrev pub at : {A : Type 0} → ℕ → List A → Option A
at k [] = none
at zero (x ∷ xs) = some x
at (suc k) (x ∷ xs) = at k xs

abbrev pub set_at : {A : Type 0} → ℕ → A → List A → List A
set_at k y [] = []
set_at zero y (x ∷ xs) = y ∷ xs
set_at (suc k) y (x ∷ xs) = x ∷ set_at k y xs

-- `[a[i], a[j]] = [a[j], a[i]]`.
abbrev pub swapped : {A : Type 0} → ℕ → ℕ → Option A → Option A → List A → List A
swapped i j none y xs = xs
swapped i j (some x) none xs = xs
swapped i j (some x) (some y) xs = set_at i y (set_at j x xs)

abbrev pub swap : {A : Type 0} → ℕ → ℕ → List A → List A
swap i j xs = swapped i j (at i xs) (at j xs) xs

-- The Fisher-Yates loop from the index down to 1; `draw i` is `Math.floor(Math.random() * (i + 1))`.
abbrev pub shuffle : {A : Type 0} → (ℕ → ℕ) → ℕ → List A → List A
shuffle draw zero xs = xs
shuffle draw (suc i) xs = shuffle draw i (swap (suc i) (draw (suc i)) xs)

-- `lastRoundRobinIndex` comes in and goes out.
unfoldable pub apply_strategy_reordering :
    SelectionStrategy → (ℕ → ℕ) → ℕ → List DoAccount → List DoAccount × ℕ
apply_strategy_reordering strategy draw last [] = ([], last)
apply_strategy_reordering round_robin draw last (x ∷ xs) =
    let k = suc last % length (x ∷ xs) in (drop k (x ∷ xs) ++ take k (x ∷ xs), k)
apply_strategy_reordering random draw last (x ∷ xs) = (shuffle draw (length xs) (x ∷ xs), last)
apply_strategy_reordering _ draw last (x ∷ xs) = (x ∷ xs, last)

unfoldable pub get_active_accounts :
    SelectionStrategy → (ℕ → ℕ) → ℕ → List DoAccount → List DoAccount × ℕ
unfolding apply_strategy_reordering
get_active_accounts strategy draw last s =
    apply_strategy_reordering strategy draw last (ordered (filter_where is_candidate s))

abbrev pub select_among : (ℕ → ProbeAnswers) → ℕ → List DoAccount → Accounts DoAccount
select_among p now [] = raise no_available_account
select_among p now (x ∷ xs) = select_from p now (x ∷ xs)

-- The account, and the index of the round-robin strategy.
unfoldable pub select_available_account :
    SelectionStrategy
    → (ℕ → ℕ)
    → ℕ
    → (ℕ → ProbeAnswers)
    → ℕ
    → List DoAccount
    → (Result AccountError DoAccount × List DoAccount) × ℕ
unfolding get_active_accounts try_account
select_available_account strategy draw last p now s =
    let (accounts, index) = get_active_accounts strategy draw last s in
    (select_among p now accounts s, index)
