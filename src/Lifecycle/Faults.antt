-- ===== src/Lifecycle/Faults.antt =====
-- What `status` does where the lock is taken or the version cannot be read.
use df_local_foundation.Prelude.{
  ◌≡◌, refl, ◌≢◌, true, false, Option, none, some, Bool-cases, inl, inr, if◌then◌else◌,
}
use df_local_foundation.Contract.{LifecycleState, Time, unavailable, migrating, migration_failure}
use df_local_foundation.Config.{FoundationSettings}
use df_local_foundation.Runtime.{
  Exc, type_error, undefined_table_error, ok, raised, Level, is_enabled,
}
use df_local_foundation.Database.{Database}
use df_local_foundation.MigrationLock.{
  migration_advisory_lock_id, default_lock_timeout, try_acquire_lock, migration_lock, locked_body,
}
use df_local_foundation.Lifecycle.{
  bare_state, report, check_and_migrate, version_handler, contention_handler,
  locked_check_and_migrate, started_or_now, get_core_schema_version,
}

module _ {W : Type 0} (db : Database W) (level : Level) (settings : FoundationSettings) where
  not_missing :
      (e : Exc) (t : W)
      → e ≢ undefined_table_error
      → version_handler db level settings e t ≡ (raised e, t)
  unfolding version_handler
  not_missing undefined_table_error t h = absurd (h refl)
  not_missing _ t h = refl

  -- If the version query fails, other than for a missing table, the check reports the unavailable
  -- state of a migration failure only where errors are not logged: at the usual level the log call
  -- raises `TypeError`.
  pub version_query_fails :
      (started : Option Time) (w : W) (e : Exc)
      → (db.fetch_core_version w).0 ≡ raised e
      → e ≢ undefined_table_error
      → (check_and_migrate db level settings started w).0 ≡ (
          if is_enabled level Level.error
          then raised type_error
          else ok (
              bare_state settings unavailable "unknown" true
                (started_or_now db level settings started (db.fetch_core_version w).1)
                (some migration_failure)))
  unfolding check_and_migrate get_core_schema_version report
  version_query_fails started w e failed other =
      rw (failed, not_missing e (db.fetch_core_version w).1 other)
        (elim (Bool-cases (is_enabled level Level.error)) [
          | inl loud ↦ rw loud
          | inr quiet ↦ rw quiet
        ])

  -- If another process holds the lock until the timeout, and connections can be taken and given
  -- back, the manager reports `migrating` with no error class, at every level of logging.
  pub contention_migrates :
      (started : Option Time) (w : W)
      → (db.acquire w).0 ≡ ok tt
      → (try_acquire_lock db migration_advisory_lock_id default_lock_timeout (db.acquire w).1).0
        ≡ ok false
      → ((t : W) → (db.release t).0 ≡ ok tt)
      → (st : LifecycleState) × ((locked_check_and_migrate db level settings started w).0 ≡ ok st)
        × (st.status ≡ migrating)
        × (st.last_error_class ≡ none)
        × (st.migration_required ≡ true)
  unfolding locked_check_and_migrate migration_lock locked_body contention_handler report
  contention_migrates started w taken gave_up released = (
    bare_state settings migrating "unknown" true
        (started_or_now db level settings started (db.release waited).1) none,
    rw (taken, gave_up, released waited),
    refl,
    refl,
    refl,
  )
    where
      waited : W
      waited =
          (try_acquire_lock db migration_advisory_lock_id default_lock_timeout (db.acquire w).1).1
