-- ===== src/Order/Lock.antt =====
-- The distributed lock of the cron jobs
-- (apps/order-service/src/common/services/distributed-lock.service.ts). Instances and jobs are
-- numbers, since they are only compared; times are milliseconds.
pub mod Exclusion
use webrana_cloud.Base.{
  ltb, ◌==◌, if◌then◌else◌, Result, ok, err, Action, find, update_where, count_where, delete_where,
  ℕ, ◌+◌, ◌*◌, Bool, false, ◌&&◌, ◌||◌, Option, none, some, List, [], ◌∷◌,
}

pub record CronJobLock : Type 0 where
  pub job_name : ℕ
  pub locked_at : ℕ
  pub locked_by : ℕ
  pub expires_at : ℕ

-- The table `cron_job_locks`, whose `job_name` is unique.
abbrev pub Locks : Type 0
Locks = List CronJobLock

abbrev pub of_job : ℕ → CronJobLock → Bool
of_job job l = l.job_name == job

abbrev pub held_by : ℕ → ℕ → CronJobLock → Bool
held_by job self l = of_job job l && l.locked_by == self

abbrev pub add_seconds : ℕ → ℕ → ℕ
add_seconds date seconds = date + seconds * 1000

-- How the database answers the calls of one method: a call that fails has no effect, and the
-- method catches the exception.
pub data Answer : Type 0 where
  answers write_fails read_fails : Answer

-- `INSERT … ON CONFLICT (job_name) DO UPDATE … WHERE expires_at < now OR locked_by = instanceId`.
unfoldable pub upsert_lock : ℕ → ℕ → ℕ → ℕ → Locks → Locks
upsert_lock self now job expires [] =
    record { job_name = job; locked_at = now; locked_by = self; expires_at = expires } ∷ []
upsert_lock self now job expires (l ∷ ls) =
    let rest = l ∷ upsert_lock self now job expires ls in
    if of_job job l
    then (if ltb l.expires_at now || l.locked_by == self
        then record l { locked_at = now; locked_by = self; expires_at = expires }
        else l)
      ∷ ls
    else rest

-- `lock?.lockedBy === this.instanceId`.
abbrev pub is_owner : ℕ → Option CronJobLock → Bool
is_owner self none = false
is_owner self (some l) = l.locked_by == self

unfoldable pub acquire_lock : ℕ → ℕ → Answer → ℕ → ℕ → Locks → Bool × Locks
unfolding upsert_lock
acquire_lock self now write_fails job ttl ls = (false, ls)
acquire_lock self now read_fails job ttl ls =
    (false, upsert_lock self now job (add_seconds now ttl) ls)
acquire_lock self now answers job ttl ls =
    let ls' = upsert_lock self now job (add_seconds now ttl) ls in
    (is_owner self (find (of_job job) ls'), ls')

unfoldable pub release_lock : ℕ → Answer → ℕ → Locks → Locks
release_lock self write_fails job ls = ls
release_lock self _ job ls = delete_where (held_by job self) ls

-- `return await fn()`, typed `T | null`.
abbrev pub returned : {E A : Type 0} → Result E A → Result E (Option A)
returned (ok a) = ok (some a)
returned (err e) = err e

-- `fn` may write to the table too; an exception is passed on after the release.
unfoldable pub with_lock :
    {E A : Type 0} → ℕ → ℕ → Answer → Answer → ℕ → ℕ → Action Locks E A → Action Locks E (Option A)
unfolding acquire_lock release_lock
with_lock self now first last job ttl fn ls =
    let (acquired, ls') = acquire_lock self now first job ttl ls in
    if acquired
    then (
      elim (fn ls').0 [ ok a ↦ ok (some a) | err e ↦ err e ],
      release_lock self last job (fn ls').1,
    )
    else (ok none, ls')

unfoldable pub extend_lock : ℕ → ℕ → Answer → ℕ → ℕ → Locks → Bool × Locks
extend_lock self now write_fails job seconds ls = (false, ls)
extend_lock self now _ job seconds ls = (
  ltb 0 (count_where (held_by job self) ls),
  update_where (held_by job self) (λ l. record l { expires_at = add_seconds now seconds }) ls,
)

unfoldable pub is_locked : ℕ → ℕ → Locks → Bool
is_locked now job ls = elim (find (of_job job) ls) [ none ↦ false | some l ↦ ltb now l.expires_at ]

unfoldable pub get_lock_info : ℕ → Locks → Option CronJobLock
get_lock_info job ls = find (of_job job) ls

unfoldable pub cleanup_expired_locks : ℕ → Locks → ℕ × Locks
cleanup_expired_locks now ls =
    let stale = λ (l : CronJobLock). ltb l.expires_at now in
    (count_where stale ls, delete_where stale ls)
