-- ===== src/Order/Accounts/Admin.antt =====
-- The administration of the provider accounts
-- (apps/order-service/src/modules/do-account/do-account.service.ts): create, update, delete, the
-- counts, the synchronisation and the health check. Tokens are numbers; encryption is a parameter, and a
-- stored token can be decrypted.
use webrana_cloud.Base.{
  ◌==◌, if◌then◌else◌, given, ℤ, pos, ltb_ℤ, Result, ok, err, Action, pure, raise, gets, or_raise,
  catch_with, ◌>>=◌, attempt, delete_row, update_where, filter_where, some_where, ℕ, suc, Bool,
  true, false, not, ◌&&◌, Option, none, some, List, [], ◌∷◌, ◌++◌,
}
use webrana_cloud.Order.Records.{
  ProvisioningStatus, task_pending, task_in_progress, ProvisioningTask, AccountHealth, healthy,
  degraded, unhealthy, DoAccount, World,
}
use webrana_cloud.Order.Accounts.{
  AccountError, account_not_found, invalid_token, account_has_active_tasks, account_error, Accounts,
  is_account, find_account, update_account_row, with_health, AccountCapacity, with_capacity,
  ProbeAnswers,
}

-- `CreateDoAccountDto`.
pub record CreateAccount : Type 0 where
  pub name : ℕ
  pub email : Option ℕ
  pub access_token : ℕ
  pub is_active : Option Bool
  pub is_primary : Option Bool

-- `UpdateDoAccountDto`.
pub record UpdateAccount : Type 0 where
  pub name : Option ℕ
  pub email : Option ℕ
  pub access_token : Option ℕ
  pub is_active : Option Bool
  pub is_primary : Option Bool

-- What the provider says of a token: whether it is valid, and then the account's email, limit and
-- count; none where there is no answer.
pub record TokenAnswers : Type 0 where
  pub validity : Option Bool
  pub account_email : ℕ
  pub capacity : Option AccountCapacity

-- `validateToken`, `getAccountInfo` and `getDropletCount`.
abbrev pub ask_capacity : Option AccountCapacity → Bool → Accounts AccountCapacity
ask_capacity capacity false = raise invalid_token
ask_capacity capacity true = or_raise capacity account_error

abbrev pub check_token : TokenAnswers → Accounts AccountCapacity
check_token a = or_raise a.validity account_error >>= λ valid. ask_capacity a.capacity valid

abbrev pub is_true : Option Bool → Bool
is_true none = false
is_true (some x) = x

abbrev pub not_primary : DoAccount → DoAccount
not_primary x = record x { is_primary = false }

abbrev pub holds_primary : DoAccount → Bool
holds_primary x = x.is_primary

-- `updateMany({ where: { isPrimary: true } })`, where the new account is to be the primary one.
abbrev pub unset_primaries : Bool → List DoAccount → List DoAccount
unset_primaries false s = s
unset_primaries true s = update_where holds_primary not_primary s

abbrev pub new_account :
    (ℕ → ℕ) → ℕ → ℕ → TokenAnswers → CreateAccount → AccountCapacity → DoAccount
new_account encrypt now id a dto c = record {
  id = id;
  name = dto.name;
  email = given dto.email a.account_email;
  access_token = encrypt dto.access_token;
  droplet_limit = c.droplet_limit;
  active_droplets = c.active_count;
  is_active = given dto.is_active true;
  is_primary = is_true dto.is_primary;
  last_health_check = some now;
  health_status = healthy;
}

abbrev pub insert_account : DoAccount → List DoAccount → List DoAccount
insert_account x s = x ∷ s

-- The two writes are not one transaction.
unfoldable pub create_account :
    (ℕ → ℕ) → ℕ → ℕ → TokenAnswers → Bool → Bool → CreateAccount → Accounts (Unit {0})
create_account encrypt now id a unset created dto = check_token a >>= λ c.
    (attempt unset account_error (unset_primaries (is_true dto.is_primary)) >>= λ _.
    attempt created account_error (insert_account (new_account encrypt now id a dto c)))

abbrev pub is_other_primary : ℕ → DoAccount → Bool
is_other_primary i x = x.is_primary && not (x.id == i)

-- `dto.isPrimary === true && !existing.isPrimary`.
abbrev pub becomes_primary : UpdateAccount → DoAccount → Bool
becomes_primary dto x = is_true dto.is_primary && not x.is_primary

abbrev pub unset_others : Bool → ℕ → List DoAccount → List DoAccount
unset_others false i s = s
unset_others true i s = update_where (is_other_primary i) not_primary s

abbrev pub with_token : (ℕ → ℕ) → ℕ → Option (ℕ × AccountCapacity) → DoAccount → DoAccount
with_token encrypt now none x = x
with_token encrypt now (some (token, c)) x = record x {
  access_token = encrypt token;
  droplet_limit = c.droplet_limit;
  active_droplets = c.active_count;
  health_status = healthy;
  last_health_check = some now;
}

-- A flag that is already set is not written again, which leaves it set.
abbrev pub with_fields : UpdateAccount → DoAccount → DoAccount
with_fields dto x = record x {
  name = given dto.name x.name;
  email = given dto.email x.email;
  is_active = given dto.is_active x.is_active;
  is_primary = given dto.is_primary x.is_primary;
}

-- A token is checked only where the request has one.
abbrev pub new_token : TokenAnswers → Option ℕ → Accounts (Option (ℕ × AccountCapacity))
new_token a none = pure none
new_token a (some token) = check_token a >>= λ c. pure (some (token, c))

abbrev pub write_account :
    (ℕ → ℕ)
    → ℕ
    → Bool
    → Bool
    → UpdateAccount
    → DoAccount
    → Option (ℕ × AccountCapacity)
    → Accounts (Unit {0})
write_account encrypt now unset saved dto x token =
    attempt unset account_error (unset_others (becomes_primary dto x) x.id) >>= λ _.
    attempt saved account_error
      (update_account_row x.id (λ y. with_fields dto (with_token encrypt now token y)))

unfoldable pub update_account :
    (ℕ → ℕ) → ℕ → TokenAnswers → Bool → Bool → ℕ → UpdateAccount → Accounts (Unit {0})
update_account encrypt now a unset saved i dto = gets (find_account i) >>= λ found.
    (or_raise found account_not_found >>= λ x.
    (new_token a dto.access_token >>= λ token. write_account encrypt now unset saved dto x token))

abbrev pub is_open_status : ProvisioningStatus → Bool
is_open_status task_pending = true
is_open_status task_in_progress = true
is_open_status _ = false

abbrev pub uses_account : ℕ → ProvisioningTask → Bool
uses_account i t = elim t.do_account_id [ none ↦ false | some acc ↦ acc == i ]

abbrev pub works_on : ℕ → ProvisioningTask → Bool
works_on i t = uses_account i t && is_open_status t.status

abbrev pub without_account : ProvisioningTask → ProvisioningTask
without_account t = record t { do_account_id = none }

-- The tasks that are left refer to no account: the relation is optional.
abbrev pub remove_account : ℕ → World → World
remove_account i w = record w {
  accounts = delete_row (is_account i) w.accounts;
  tasks = update_where (uses_account i) without_account w.tasks;
}

abbrev pub delete_found : Bool → ℕ → Bool → Action World AccountError (Unit {0})
delete_found deleted i true = raise account_has_active_tasks
delete_found deleted i false = attempt deleted account_error (remove_account i)

unfoldable pub delete_account : Bool → ℕ → Action World AccountError (Unit {0})
delete_account deleted i = gets (λ w. find_account i w.accounts) >>= λ found.
    (or_raise found account_not_found >>= λ _.
    (gets (λ w. some_where (works_on i) w.tasks) >>= λ busy. delete_found deleted i busy))

abbrev pub sync_write : Bool → ℕ → ℕ → AccountCapacity → Accounts (Unit {0})
sync_write saved now i c = attempt saved account_error (update_account_row i (with_capacity now c))

-- The failure is noted and raised again.
abbrev pub sync_failed : Bool → ℕ → ℕ → AccountError → Accounts (Unit {0})
sync_failed saved now i e =
    attempt saved account_error (update_account_row i (with_health now unhealthy)) >>= λ _. raise e

unfoldable pub sync_account_limits : ProbeAnswers → ℕ → ℕ → Accounts (Unit {0})
sync_account_limits p now i = gets (find_account i) >>= λ found.
    (or_raise found account_not_found >>= λ _.
    catch_with (or_raise p.reported account_error >>= λ c. sync_write p.saved now i c)
      (sync_failed p.fault_saved now i))

pub record SyncResult : Type 0 where
  pub synced : ℕ
  pub failed : ℕ
  pub errors : List ℕ

abbrev pub count_sync : ℕ → Result AccountError (Unit {0}) → SyncResult → SyncResult
count_sync i (ok _) r = record r { synced = suc r.synced }
count_sync i (err _) r = record r { failed = suc r.failed; errors = r.errors ++ i ∷ [] }

abbrev pub sync_each :
    (ℕ → ProbeAnswers)
    → ℕ
    → List DoAccount
    → SyncResult
    → List DoAccount
    → SyncResult × List DoAccount
sync_each p now [] r s = (r, s)
sync_each p now (x ∷ xs) r s =
    let (one, s') = sync_account_limits (p x.id) now x.id s in
    sync_each p now xs (count_sync x.id one r) s'

abbrev pub no_syncs : SyncResult
no_syncs = record { synced = 0; failed = 0; errors = [] }

unfoldable pub sync_all_accounts :
    (ℕ → ProbeAnswers) → ℕ → List DoAccount → SyncResult × List DoAccount
unfolding sync_account_limits
sync_all_accounts p now s = sync_each p now (filter_where (λ x. x.is_active) s) no_syncs s

-- What a health check learns: no answer, an invalid token, or a valid one with the rate limit that
-- is left where it is known.
pub data TokenHealth : Type 0 where
  no_answer invalid_answer : TokenHealth
  valid_answer : Option ℤ → TokenHealth

abbrev pub health_of : TokenHealth → AccountHealth
health_of no_answer = unhealthy
health_of invalid_answer = unhealthy
health_of (valid_answer none) = healthy
health_of (valid_answer (some remaining)) = if ltb_ℤ remaining (pos 100) then degraded else healthy

unfoldable pub health_check : Bool → TokenHealth → ℕ → ℕ → Accounts AccountHealth
health_check saved t now i = gets (find_account i) >>= λ found.
    (or_raise found account_not_found >>= λ _.
    (attempt saved account_error (update_account_row i (with_health now (health_of t))) >>= λ _.
    pure (health_of t)))
