-- ===== src/Contract.antt =====
-- The vocabulary of the visibility contract: `AppMode` of core/config/settings.py, and
-- `LifecycleStatus`, `ErrorClass` and `LifecycleState` of core/lifecycle/manager.py. The words
-- that contracts/health.schema.json lists are the `…_value` functions.
use df_local_foundation.Prelude.{ℕ, Bool, String, Option}

pub data AppMode : Type 0 where
  local hybrid cloud_enabled : AppMode

pub data LifecycleStatus : Type 0 where
  ready degraded unavailable migrating : LifecycleStatus

pub data ErrorClass : Type 0 where
  migration_failure connection_failure integrity_failure : ErrorClass
  compatibility_failure startup_failure restore_blocked : ErrorClass

-- A `datetime` in UTC, as microseconds since `datetime.min`.
abbrev pub Time : Type 0
Time = ℕ

abbrev pub mode_value : AppMode → String
mode_value AppMode.local = "local"
mode_value AppMode.hybrid = "hybrid"
mode_value AppMode.cloud_enabled = "cloud-enabled"

abbrev pub status_value : LifecycleStatus → String
status_value LifecycleStatus.ready = "ready"
status_value LifecycleStatus.degraded = "degraded"
status_value LifecycleStatus.unavailable = "unavailable"
status_value LifecycleStatus.migrating = "migrating"

abbrev pub error_value : ErrorClass → String
error_value ErrorClass.migration_failure = "migration_failure"
error_value ErrorClass.connection_failure = "connection_failure"
error_value ErrorClass.integrity_failure = "integrity_failure"
error_value ErrorClass.compatibility_failure = "compatibility_failure"
error_value ErrorClass.startup_failure = "startup_failure"
error_value ErrorClass.restore_blocked = "restore_blocked"

-- The two flags are `bool` fields that default to `False`, never `None`.
pub record LifecycleState : Type 0 where
  pub status : LifecycleStatus
  pub schema_version : String
  pub expected_schema_version : String
  pub migration_required : Bool
  pub started_at : Time
  pub app_mode : AppMode
  pub last_error_class : Option ErrorClass
  pub backup_available : Bool
  pub last_backup_at : Option Time
  pub export_available : Bool
