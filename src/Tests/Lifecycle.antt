-- ===== src/Tests/Lifecycle.antt =====
-- Runs of core/lifecycle/manager.py and core/lifecycle/migration_lock.py on the test site, and the
-- theorems about them at those runs.
use df_local_foundation.Prelude.{
  ℕ, ltb, arith, if◌then◌else◌, ◌+◌, ◌≤◌, ◌≡◌, ◌≢◌, refl, true, false, none, some,
}
use df_local_foundation.Contract.{
  AppMode, LifecycleState, ready, unavailable, migrating, connection_failure,
}
use df_local_foundation.Runtime.{driver_error, type_error, ok, raised, diverged, Py, Level}
use df_local_foundation.MigrationLock.{
  migration_advisory_lock_id, default_lock_timeout, try_acquire_lock, migration_lock,
}
use df_local_foundation.MigrationLock.Polling.{try_acquire_lock_ends}
use df_local_foundation.MigrationLock.Scope.{body_runs_locked, lock_released}
use df_local_foundation.Lifecycle.{bare_state, locked_check_and_migrate, status, start, stop}
use df_local_foundation.Lifecycle.Coherence.{IsCoherent, status-IsCoherent}
use df_local_foundation.Lifecycle.Readiness.{polled, ready_was_read}
use df_local_foundation.Lifecycle.Startup.{start_without_pool, start-IsCoherent, status_after_stop}
use df_local_foundation.Lifecycle.Faults.{contention_migrates}
use df_local_foundation.Tests.Site.{
  Site, site_depth, database, database-IsMonotonic, database-LockLaws, database-IsAnswered,
  dev_settings, good_site, busy_site, down_site, fresh_manager, running_manager, running,
}

abbrev ready_state : LifecycleState
ready_state = bare_state dev_settings ready "0002" false 1000 none

abbrev started_state : LifecycleState
started_state = bare_state dev_settings ready "0002" false 3000 none

good_status : (status database Level.warning (running_manager good_site)).0 ≡ ok ready_state
unfolding running
good_status = refl

good_start : (start database Level.warning (fresh_manager good_site)).0 ≡ ok started_state
unfolding running
good_start = refl

ready_was_read_example :
    (true ≡ true)
    × ((polled database good_site).0 ≡ ok true)
    × (1 ≤ (polled database good_site).1.depth)
    × ((polled database good_site).1.version ≡ ok (some "0002"))
ready_was_read_example =
    ready_was_read database Level.warning site_depth (database-LockLaws migration_advisory_lock_id)
      (running_manager good_site) ready_state good_status refl

status-IsCoherent_example : IsCoherent AppMode.local ready_state
status-IsCoherent_example =
    status-IsCoherent database Level.warning (running_manager good_site) ready_state good_status

start-IsCoherent_example :
    IsCoherent AppMode.local started_state
    × ((start database Level.warning (fresh_manager good_site)).1.current_state
        ≡ some started_state)
    × ((start database Level.warning (fresh_manager good_site)).1.has_pool ≡ true)
start-IsCoherent_example =
    start-IsCoherent database Level.warning (fresh_manager good_site) started_state good_start

start_without_pool_example :
    ((start database Level.warning (fresh_manager down_site)).1.has_pool ≡ false)
    × (((start database Level.warning (fresh_manager down_site)).0 ≡ raised type_error)
        × ((start database Level.warning (fresh_manager down_site)).1.current_state ≡ none))
start_without_pool_example =
    start_without_pool database Level.warning (fresh_manager down_site) (driver_error 1) refl

status_after_stop_example :
    status database Level.warning (stop database Level.warning (running_manager good_site)).1 ≡ (
      ok (bare_state dev_settings unavailable "unknown" true 1000 (some connection_failure)),
      (stop database Level.warning (running_manager good_site)).1,
    )
unfolding running
status_after_stop_example =
    status_after_stop database Level.warning (running_manager good_site) refl

gives_up :
    (try_acquire_lock database migration_advisory_lock_id default_lock_timeout busy_site).0
    ≡ ok false
unfolding running
gives_up = refl

contention_migrates_example :
    (st : LifecycleState) × ((locked_check_and_migrate database Level.warning dev_settings
        (some 1000)
        busy_site).0
      ≡ ok st)
    × (st.status ≡ migrating)
    × (st.last_error_class ≡ none)
    × (st.migration_required ≡ true)
contention_migrates_example =
    contention_migrates database Level.warning dev_settings (some 1000) busy_site refl gives_up
      (λ t. refl)

try_acquire_lock_ends_example :
    ((try_acquire_lock database 5 5000 busy_site).0 ≢ diverged)
    × ((try_acquire_lock database 5 5000 busy_site).0 ≡ ok false
        → 3 + 5000 ≤ (try_acquire_lock database 5 5000 busy_site).1.clock)
try_acquire_lock_ends_example = try_acquire_lock_ends database database-IsMonotonic 5 5000 busy_site

-- A body that raises where the lock is not held, and one that does not look: they agree under it.
abbrev guarded : Py Site ℕ
guarded w = if ltb 0 w.depth then (ok w.clock, w) else (raised type_error, w)

abbrev careless : Py Site ℕ
careless w = (ok w.clock, w)

agree : (t : Site) → 1 ≤ t.depth → guarded t ≡ careless t
agree t h = ground arith

body_runs_locked_example :
    migration_lock database Level.warning 5 5000 guarded busy_site
    ≡ migration_lock database Level.warning 5 5000 careless busy_site
body_runs_locked_example =
    body_runs_locked database 5 site_depth (database-LockLaws 5) Level.warning 5000 guarded careless
      busy_site agree

lock_released_example :
    (migration_lock database Level.warning 5 5000 careless good_site).1.depth ≡ 0
lock_released_example =
    lock_released database 5 site_depth (database-LockLaws 5) Level.warning 5000 careless good_site
      refl refl (database-IsAnswered 5) (λ t. refl) (λ t. ((λ h. cc), omega arith))
