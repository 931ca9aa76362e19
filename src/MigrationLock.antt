-- ===== src/MigrationLock.antt =====
-- core/lifecycle/migration_lock.py: the advisory lock round every check of the migrations. Times
-- are in milliseconds: the five seconds of the timeout are 5000, the poll interval is 100.
pub mod Polling
pub mod Scope
use df_local_foundation.Prelude.{
  ℕ, zero, suc, ◌+◌, ◌-◌, ◌/◌, min, Bool, true, false, leb, if◌then◌else◌,
}
use df_local_foundation.Runtime.{
  Exc, migration_lock_timeout, migration_lock_error, ok, diverged, Py, pure, raise, ◌>>=◌, ◌>>◌,
  try_except, try_finally, Level, log_fields,
}
use df_local_foundation.Database.{Database}

abbrev pub migration_advisory_lock_id : ℕ
migration_advisory_lock_id = 454989609

abbrev pub default_lock_timeout : ℕ
default_lock_timeout = 5000

abbrev pub poll_interval : ℕ
poll_interval = 100

module _ {W : Type 0} (db : Database W) where
  -- One query of the loop; a failure of the query becomes a `MigrationLockError`.
  unfoldable pub query_lock : ℕ → Py W Bool
  query_lock id = try_except (db.try_advisory_lock id) (λ _. raise migration_lock_error)

  -- `while True`, on fuel. `remaining <= 0` is that the deadline is not after the time.
  unfoldable pub poll : ℕ → ℕ → ℕ → Py W Bool
  poll zero id deadline w = (diverged, w)
  poll (suc fuel) id deadline w =
      let again = poll fuel id deadline in
      (query_lock id >>= λ acquired. if acquired then pure true else λ t.
      let time = db.loop_time t in
      if leb deadline time
      then (ok false, t)
      else (db.sleep (min poll_interval (deadline - time)) >> again) t)
        w

  -- `_try_acquire_lock`. The rounds that the timeout has room for, and two more.
  unfoldable pub try_acquire_lock : ℕ → ℕ → Py W Bool
  try_acquire_lock id timeout w = poll (timeout / poll_interval + 2) id (db.loop_time w + timeout) w

  -- `_release_lock`
  unfoldable pub release_lock : Level → ℕ → Py W (Unit {0})
  release_lock threshold id =
      try_except (db.advisory_unlock id) (λ _. log_fields threshold Level.warning)

  module _ {A : Type 0} where
    -- What stands in `async with pool.acquire()`: the body of the `async with` is at the `yield`.
    unfoldable pub locked_body : Level → ℕ → Py W A → Bool → Py W A
    locked_body threshold id body acquired =
        if acquired
        then (log_fields threshold Level.debug
            >> try_finally body (release_lock threshold id >> log_fields threshold Level.debug))
        else raise migration_lock_timeout

    -- `async with migration_lock(pool): body`
    unfoldable pub migration_lock : Level → ℕ → ℕ → Py W A → Py W A
    migration_lock threshold id timeout body =
        db.acquire
        >> try_finally (try_acquire_lock id timeout >>= locked_body threshold id body) db.release
