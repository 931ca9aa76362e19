-- ===== src/Lifecycle.antt =====
-- core/lifecycle/manager.py: `LifecycleManager`, a method at a time. Its fields are a record, with
-- the state `world` of all that lies outside the process.
pub mod Coherence
pub mod Readiness
pub mod Startup
pub mod Faults
use df_local_foundation.Prelude.{
  ℕ, Bool, true, false, not, String, Option, none, some, str_eq, if◌then◌else◌,
}
use df_local_foundation.Contract.{
  LifecycleStatus, ErrorClass, LifecycleState, Time, ready, unavailable, migrating,
  connection_failure, migration_failure,
}
use df_local_foundation.Config.{FoundationSettings, connection_string}
use df_local_foundation.Runtime.{
  Exc, undefined_table_error, migration_lock_timeout, lifecycle_start_error, Outcome, ok, raised,
  diverged, Py, pure, raise, ◌>>=◌, ◌>>◌, try_except, try_else, Level, log_fields, log_event,
}
use df_local_foundation.Database.{Database, HealthEvent}
use df_local_foundation.MigrationLock.{
  migration_advisory_lock_id, default_lock_timeout, migration_lock,
}

abbrev pub expected_core_version : String
expected_core_version = "0002"

pub record LifecycleManager (W : Type 0) : Type 0 where
  pub settings : FoundationSettings
  pub started_at : Option Time
  -- whether `_pool` holds a pool
  pub has_pool : Bool
  pub current_state : Option LifecycleState
  pub world : W

-- A state with the defaults of the optional arguments.
abbrev pub bare_state :
    FoundationSettings → LifecycleStatus → String → Bool → Time → Option ErrorClass → LifecycleState
bare_state settings status version required started error = record {
  status = status;
  schema_version = version;
  expected_schema_version = expected_core_version;
  migration_required = required;
  started_at = started;
  app_mode = settings.df_local_app_mode;
  last_error_class = error;
  backup_available = false;
  last_backup_at = none;
  export_available = false;
}

-- `current_version or "none"`
abbrev pub or_none : Option String → String
or_none none = "none"
or_none (some v) = if str_eq v "" then "none" else v

-- `current_version != EXPECTED_CORE_VERSION`
abbrev pub is_pending : Option String → Bool
is_pending none = true
is_pending (some v) = not (str_eq v expected_core_version)

module _ {W : Type 0} (db : Database W) (threshold : Level) (settings : FoundationSettings) where
  -- `self._started_at or datetime.now(UTC)`
  unfoldable pub started_or_now : Option Time → W → Time
  started_or_now none w = db.now w
  started_or_now (some t) w = t

  -- A state that is built from what the manager knows, and the time.
  unfoldable pub report :
      Option Time → LifecycleStatus → String → Bool → Option ErrorClass → Py W LifecycleState
  report started status version required error w =
      (ok (bare_state settings status version required (started_or_now started w) error), w)

  unfoldable pub version_handler : Exc → Py W (Option String)
  version_handler undefined_table_error = pure none
  version_handler e = raise e

  -- `_get_core_schema_version`
  unfoldable pub get_core_schema_version : Py W (Option String)
  get_core_schema_version = try_except db.fetch_core_version version_handler

  -- What `_check_and_migrate` does with the version that it has read.
  unfoldable pub check_version : Option Time → Option String → Py W LifecycleState
  check_version started current =
      if is_pending current
      then (log_fields threshold Level.info >> report started migrating (or_none current) true none)
      else report started ready (or_none current) false none

  -- `_check_and_migrate`
  unfoldable pub check_and_migrate : Option Time → Py W LifecycleState
  check_and_migrate started =
      try_else get_core_schema_version
        (λ _.
          log_fields threshold Level.error
          >> report started unavailable "unknown" true (some migration_failure))
        (check_version started)

  -- `except MigrationLockTimeout`
  unfoldable pub contention_handler : Option Time → Exc → Py W LifecycleState
  contention_handler started migration_lock_timeout =
      log_event threshold Level.info >> report started migrating "unknown" true none
  contention_handler started e = raise e

  -- `_locked_check_and_migrate`
  unfoldable pub locked_check_and_migrate : Option Time → Py W LifecycleState
  locked_check_and_migrate started =
      try_except
        (migration_lock db threshold migration_advisory_lock_id default_lock_timeout
          (check_and_migrate started))
        (contention_handler started)

module _ {W : Type 0} (db : Database W) (threshold : Level) where
  -- A method that reads and writes nothing of the manager but the world.
  abbrev pub on_world : {A : Type 0} → Py W A → Py (LifecycleManager W) A
  on_world m s = let (r, w) = m s.world in (r, record s { world = w })

  -- `_connect`
  unfoldable pub connect : Py (LifecycleManager W) (Unit {0})
  connect s =
      (on_world (db.create_pool (connection_string s.settings)) >> λ t.
      (ok tt, record t { has_pool = true }))
        s

  -- `_log_health_event`
  unfoldable pub log_health_event : HealthEvent → Py (LifecycleManager W) (Unit {0})
  log_health_event event s =
      if s.has_pool
      then try_except (on_world (db.insert_health_event event))
          (λ _. log_fields threshold Level.warning) s
      else (ok tt, s)

  -- The `except` of `start`: the state is kept, and `LifecycleStartError` carries it.
  unfoldable pub start_failed : Time → Py (LifecycleManager W) LifecycleState
  start_failed now = log_fields threshold Level.error >> λ s.
      let state = bare_state s.settings unavailable "unknown" true now (some connection_failure) in
      (
        raised (lifecycle_start_error connection_failure state),
        record s { current_state = some state },
      )

  -- What `start` does once it is connected.
  unfoldable pub start_connected : Py (LifecycleManager W) LifecycleState
  start_connected s =
      (on_world (locked_check_and_migrate db threshold s.settings s.started_at) >>= λ state.
      log_health_event (record {
        app_id = "core";
        previous_status = none;
        new_status = state.status;
        error_class = state.last_error_class;
      })
      >> λ t. (ok state, record t { current_state = some state }))
        s

  -- `start`
  unfoldable pub start : Py (LifecycleManager W) LifecycleState
  start s =
      let now = db.now s.world in
      try_else connect (λ _. start_failed now) (λ _. start_connected)
        (record s { started_at = some now })

  -- `status`
  unfoldable pub status : Py (LifecycleManager W) LifecycleState
  status s =
      if s.has_pool
      then on_world (locked_check_and_migrate db threshold s.settings s.started_at) s
      else on_world
          (report db threshold s.settings s.started_at unavailable "unknown" true
            (some connection_failure))
          s

  -- `stop`
  unfoldable pub stop : Py (LifecycleManager W) (Unit {0})
  stop s =
      if s.has_pool
      then (on_world db.close_pool >> λ t. (ok tt, record t { has_pool = false })) s
      else (ok tt, s)
