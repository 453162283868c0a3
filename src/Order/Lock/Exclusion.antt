-- ===== src/Order/Lock/Exclusion.antt =====
-- While a lock has not expired, no other instance gets it, whatever the others do.
use webrana_cloud.Base.{
  ltb, ◌==◌, Bool-cases, ok, Action, find, find-filter_where, find-delete_where, find-update_where,
  ℕ, ◌≤◌, ◌≡◌, refl, sym, ◌∙◌, subst, ◌≢◌, inl, inr, true, false, not, ◌||◌, none, some, List, [],
  ◌∷◌, arith,
}
use webrana_cloud.Order.Lock.{
  CronJobLock, Locks, of_job, held_by, add_seconds, Answer, answers, write_fails, read_fails,
  upsert_lock, is_owner, acquire_lock, release_lock, returned, with_lock, extend_lock,
  cleanup_expired_locks,
}

-- A method call of the instance `self` at its own clock's time.
pub data LockCall : Type 0 where
  acquire extend : ℕ → ℕ → Answer → ℕ → ℕ → LockCall
  release : ℕ → ℕ → Answer → ℕ → LockCall
  cleanup : ℕ → ℕ → LockCall

abbrev pub caller : LockCall → ℕ
caller (acquire self now a job ttl) = self
caller (extend self now a job seconds) = self
caller (release self now a job) = self
caller (cleanup self now) = self

abbrev pub time : LockCall → ℕ
time (acquire self now a job ttl) = now
time (extend self now a job seconds) = now
time (release self now a job) = now
time (cleanup self now) = now

abbrev pub effect : LockCall → Locks → Locks
effect (acquire self now a job ttl) ls = (acquire_lock self now a job ttl ls).1
effect (extend self now a job seconds) ls = (extend_lock self now a job seconds ls).1
effect (release self now a job) ls = release_lock self a job ls
effect (cleanup self now) ls = (cleanup_expired_locks now ls).1

abbrev pub effects : List LockCall → Locks → Locks
effects [] ls = ls
effects (c ∷ cs) ls = effects cs (effect c ls)

-- Every call is another instance's, made no later than `expires`.
abbrev pub Rivals : ℕ → ℕ → List LockCall → Type 0
Rivals owner expires [] = Unit
Rivals owner expires (c ∷ cs) = (caller c ≢ owner) × (time c ≤ expires) × Rivals owner expires cs

-- Taking a lock that is free, expired or one's own, and the refusal otherwise.
upsert_lock-held :
    (self now job job' expires : ℕ) (ls : Locks) {l : CronJobLock}
    → find (of_job job) ls ≡ some l
    → now ≤ l.expires_at
    → self ≢ l.locked_by
    → find (of_job job) (upsert_lock self now job' expires ls) ≡ some l
unfolding upsert_lock
upsert_lock-held self now job job' expires [] e fresh other = cc
upsert_lock-held self now job job' expires (x ∷ ls) {l} e fresh other =
    elim (Bool-cases (of_job job x)) [
      | inl hit ↦ let same : x ≡ l = cc (rw hit at e) in ground (arith, same)
      | inr miss ↦
          ground (arith, upsert_lock-held self now job job' expires ls (rw miss at e) fresh other)
    ]

-- What an instance owns after the upsert is the lock that the upsert has written.
upsert_lock-owner :
    (self now job expires : ℕ) (ls : Locks)
    → is_owner self (find (of_job job) (upsert_lock self now job expires ls)) ≡ true
    → (l : CronJobLock) × (find (of_job job) (upsert_lock self now job expires ls) ≡ some l)
      × (l.locked_by ≡ self)
      × (l.expires_at ≡ expires)
unfolding upsert_lock
upsert_lock-owner self now job expires [] h = (
  record { job_name = job; locked_at = now; locked_by = self; expires_at = expires },
  ground arith,
  refl,
  refl,
)
upsert_lock-owner self now job expires (x ∷ ls) h = elim (Bool-cases (of_job job x)) [
  | inl hit ↦ elim (Bool-cases (ltb x.expires_at now || x.locked_by == self)) [
    | inl taken ↦ (
      record x { locked_at = now; locked_by = self; expires_at = expires },
      ground arith,
      refl,
      refl,
    )
    | inr refused ↦ absurd (ground arith)
  ]
  | inr miss ↦
      let (l, found, own, end) = upsert_lock-owner self now job expires ls (ground arith) in
      (l, ground arith, own, end)
]

module _ (owner job : ℕ) (l : CronJobLock) (own : l.locked_by ≡ owner) where
  -- One call of another instance leaves an unexpired lock as it is.
  effect-keeps :
      (c : LockCall) (ls : Locks)
      → find (of_job job) ls ≡ some l
      → caller c ≢ owner
      → time c ≤ l.expires_at
      → find (of_job job) (effect c ls) ≡ some l
  unfolding acquire_lock extend_lock release_lock cleanup_expired_locks
  effect-keeps (acquire self now write_fails j ttl) ls e ne early = e
  effect-keeps (acquire self now read_fails j ttl) ls e ne early =
      upsert_lock-held self now job j (add_seconds now ttl) ls e early (ground arith)
  effect-keeps (acquire self now answers j ttl) ls e ne early =
      upsert_lock-held self now job j (add_seconds now ttl) ls e early (ground arith)
  effect-keeps (extend self now write_fails j seconds) ls e ne early = e
  effect-keeps (extend self now _ j seconds) ls e ne early =
      find-update_where (of_job job) (held_by j self) _ ls (λ x. refl) e (ground arith)
  effect-keeps (release self now write_fails j) ls e ne early = e
  effect-keeps (release self now _ j) ls e ne early =
      find-filter_where (of_job job) (λ x. not (held_by j self x)) ls e (ground arith)
  effect-keeps (cleanup self now) ls e ne early =
      find-filter_where (of_job job) (λ x. not (ltb x.expires_at now)) ls e (ground arith)

  effects-keep :
      (cs : List LockCall) (ls : Locks)
      → find (of_job job) ls ≡ some l
      → Rivals owner l.expires_at cs
      → find (of_job job) (effects cs ls) ≡ some l
  effects-keep [] ls e r = e
  effects-keep (c ∷ cs) ls e (ne, early, r) =
      effects-keep cs (effect c ls) (effect-keeps c ls e ne early) r

refused :
    (rival now job ttl : ℕ) (a : Answer) (ls : Locks) {l : CronJobLock}
    → find (of_job job) ls ≡ some l
    → now ≤ l.expires_at
    → rival ≢ l.locked_by
    → (acquire_lock rival now a job ttl ls).0 ≡ false
unfolding acquire_lock
refused rival now job ttl write_fails ls e early ne = refl
refused rival now job ttl read_fails ls e early ne = refl
refused rival now job ttl answers ls e early ne =
    rw (upsert_lock-held rival now job job (add_seconds now ttl) ls e early ne) (ground arith)

-- After an instance has acquired the lock of a job, any calls of the other instances until it
-- expires leave the lock with it, and an attempt of any of them to acquire it returns false.
pub acquire_lock-excludes :
    (owner now job ttl : ℕ) (ls : Locks) (cs : List LockCall) (rival then : ℕ) (a : Answer)
    (ttl' : ℕ)
    → (acquire_lock owner now answers job ttl ls).0 ≡ true
    → Rivals owner (add_seconds now ttl) cs
    → rival ≢ owner
    → then ≤ add_seconds now ttl
    → let ls' = effects cs (acquire_lock owner now answers job ttl ls).1 in
      (is_owner owner (find (of_job job) ls') ≡ true)
      × ((acquire_lock rival then a job ttl' ls').0 ≡ false)
unfolding acquire_lock
acquire_lock-excludes owner now job ttl ls cs rival then a ttl' h rivals ne early =
    let (l, found, own, end) = upsert_lock-owner owner now job (add_seconds now ttl) ls h in
    let kept =
      effects-keep owner job l own cs _ found (subst (λ t. Rivals owner t cs) (sym end) rivals) in
    (
      rw kept (ground (arith, own)),
      refused rival then job ttl' a _ kept (subst (λ t. then ≤ t) (sym end) early)
          (λ e. ne (e ∙ own)),
    )

-- Without the lock the result is null, and the job function has written nothing.
pub with_lock-skips :
    {E A : Type 0} (self now job ttl : ℕ) (first last : Answer) (fn : Action Locks E A) (ls : Locks)
    → (acquire_lock self now first job ttl ls).0 ≡ false
    → with_lock self now first last job ttl fn ls
      ≡ (ok none, (acquire_lock self now first job ttl ls).1)
unfolding with_lock
with_lock-skips self now job ttl first last fn ls h = rw h refl

-- With the lock acquired, the result is the job function's, returned or thrown, and the instance
-- holds no lock of the job afterwards, provided the database answers the release.
pub with_lock-releases :
    {E A : Type 0} (self now job ttl : ℕ) (first : Answer) (fn : Action Locks E A) (ls : Locks)
    → (acquire_lock self now first job ttl ls).0 ≡ true
    → let (r, ls') = with_lock self now first answers job ttl fn ls in
      (r ≡ returned (fn (acquire_lock self now first job ttl ls).1).0)
      × (find (held_by job self) ls' ≡ none)
unfolding with_lock release_lock
with_lock-releases self now job ttl first fn ls h =
    rw h (refl, find-delete_where (held_by job self) (held_by job self) _ (λ x e. e))
