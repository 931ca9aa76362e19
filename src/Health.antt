-- ===== src/Health.antt =====
-- core/health/reporter.py with `LifecycleState.to_health_dict` of core/lifecycle/manager.py, and
-- the contract contracts/health.schema.json as data.
pub mod Contract
pub mod Serialized
pub mod Response
use df_local_foundation.Prelude.{
  Bool, true, false, not, ◌&&◌, ◌||◌, String, Option, none, some, List, [], ◌∷◌, ◌++◌, map, str_eq,
  if◌then◌else◌,
}
use df_local_foundation.Contract.{
  AppMode, LifecycleStatus, ErrorClass, LifecycleState, Time, mode_value, status_value, error_value,
}
use df_local_foundation.Runtime.{
  Exc, privacy_violation_error, value_error, Outcome, ok, raised, diverged, Py, Level, ◌>>=◌,
}
use df_local_foundation.Database.{Database}
use df_local_foundation.Lifecycle.{LifecycleManager}
use df_local_foundation.Lifecycle

-- The values that a health dict holds: texts, Booleans and `None`.
pub data Value : Type 0 where
  text : String → Value
  truth : Bool → Value
  null : Value

-- A dict in the order of insertion.
abbrev pub Dict : Type 0
Dict = List (String × Value)

abbrev pub keys : Dict → List String
keys [] = []
keys ((k, v) ∷ d) = k ∷ keys d

-- `d[key]`, where `none` is the `KeyError`.
abbrev pub lookup : String → Dict → Option Value
lookup k [] = none
lookup k ((j, v) ∷ d) = if str_eq k j then some v else lookup k d

abbrev pub is_in : String → List String → Bool
is_in k [] = false
is_in k (w ∷ ws) = str_eq k w || is_in k ws

abbrev pub error_entry : Option ErrorClass → Value
error_entry none = null
error_entry (some e) = text (error_value e)

abbrev pub backup_entry : (Time → String) → Option Time → Dict
backup_entry isoformat none = []
backup_entry isoformat (some t) = ("last_backup_at", text (isoformat t)) ∷ []

-- `to_health_dict`; `isoformat` is that of `datetime`. The tests of the two flags for `None` always
-- pass.
unfoldable pub to_health_dict : (Time → String) → LifecycleState → Dict
to_health_dict isoformat s =
    ("status", text (status_value s.status))
    ∷ ("schema_version", text s.schema_version)
    ∷ ("expected_schema_version", text s.expected_schema_version)
    ∷ ("migration_required", truth s.migration_required)
    ∷ ("last_error_class", error_entry s.last_error_class)
    ∷ ("started_at", text (isoformat s.started_at))
    ∷ ("db_engine", text "postgresql")
    ∷ ("ownership", text "app-local")
    ∷ ("app_mode", text (mode_value s.app_mode))
    ∷ ("backup_available", truth s.backup_available)
    ∷ (backup_entry isoformat s.last_backup_at
        ++ (("export_available", truth s.export_available) ∷ []))

abbrev pub banned_fields : List String
banned_fields =
    "table_contents" ∷ "record_counts" ∷ "project_names" ∷ "manuscript_names" ∷ "domain_metadata"
    ∷ "query_surface" ∷ "table_list" ∷ "customer_data" ∷ []

-- `set(data.keys()) & _BANNED_FIELDS` is not empty.
unfoldable pub has_banned : List String → Bool
has_banned [] = false
has_banned (k ∷ ks) = is_in k banned_fields || has_banned ks

pub record HealthResponse : Type 0 where
  pub content : Dict

-- `is_ready`
unfoldable pub is_ready : HealthResponse → Bool
is_ready r = elim (lookup "status" r.content) [ some (text s) ↦ str_eq s "ready" | _ ↦ false ]

-- `is_valid` says whether `jsonschema.validate` accepts a dict by the health schema.
module _ (is_valid : Dict → Bool) where
  -- `HealthResponse(data)`
  unfoldable pub health_response : Dict → Outcome HealthResponse
  health_response d =
      if has_banned (keys d)
      then raised privacy_violation_error
      else if not (is_valid d)
      then raised value_error
      else ok (record { content = d })

  -- `HealthReporter.from_state`
  unfoldable pub from_state : (Time → String) → LifecycleState → Outcome HealthResponse
  from_state isoformat s = health_response (to_health_dict isoformat s)

  -- `HealthReporter.get_health`
  unfoldable pub get_health :
      {W : Type 0} → (Time → String) → Database W → Level → Py (LifecycleManager W) HealthResponse
  get_health isoformat db threshold =
      Lifecycle.status db threshold >>= λ state t. (from_state isoformat state, t)
