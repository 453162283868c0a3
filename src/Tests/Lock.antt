-- ===== src/Tests/Lock.antt =====
-- Two instances that want the lock of one job.
use webrana_cloud.Base.{err, raise, find, ℕ, ◌≡◌, refl, true, false, none, List, [], ◌∷◌, arith}
use webrana_cloud.Order.Lock.{of_job, held_by, answers, is_owner, acquire_lock, with_lock}
use webrana_cloud.Order.Lock.Exclusion.{
  LockCall, acquire, extend, release, cleanup, effects, acquire_lock-excludes, with_lock-releases,
}

-- Instance 2 tries, cleans up, extends and releases what it does not hold.
abbrev rivalry : List LockCall
rivalry =
    acquire 2 1500 answers 9 60
    ∷ cleanup 2 2000
    ∷ extend 2 2500 answers 9 600
    ∷ release 2 3000 answers 9
    ∷ []

acquire_lock-excludes_example :
    let ls = effects rivalry (acquire_lock 1 1000 answers 9 60 []).1 in
    (is_owner 1 (find (of_job 9) ls) ≡ true) × ((acquire_lock 2 61000 answers 9 60 ls).0 ≡ false)
unfolding acquire_lock
acquire_lock-excludes_example =
    acquire_lock-excludes 1 1000 9 60 [] rivalry 2 61000 answers 60 refl (ground arith)
      (omega arith) (omega arith)

with_lock-releases_example :
    let (r, ls) = with_lock {E = ℕ} {A = ℕ} 1 1000 answers answers 9 60 (raise 5) [] in
    (r ≡ err 5) × (find (held_by 9 1) ls ≡ none)
unfolding acquire_lock
with_lock-releases_example =
    with_lock-releases {E = ℕ} {A = ℕ} 1 1000 9 60 answers (raise 5) [] refl

-- After the expiry the lock passes on.
expired_lock : (acquire_lock 2 61001 answers 9 60 (acquire_lock 1 1000 answers 9 60 []).1).0 ≡ true
unfolding acquire_lock
expired_lock = refl
