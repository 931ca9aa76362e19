-- ===== src/Analytics.antt =====
-- app/analytics_services.py: how fresh the sources are, from the rows that the database has of them,
-- with the response models of app/analytics_models.py and the thresholds of app/analytics_config.py.
pub mod Posture
pub mod Queue
pub mod Leases
pub mod Overview
pub mod Handlers
pub mod Summary
pub mod Failures
use df_local_foundation.Prelude.{
  ℕ, ◌+◌, ◌-◌, ◌/◌, max, Bool, true, false, ◌||◌, String, Option, none, some, List, [], ◌∷◌, map,
  str_eq, if◌then◌else◌,
}
use df_local_foundation.Prelude.Int.{ℤ, pos, ltb_ℤ}
use df_local_foundation.Contract.{Time}

pub data SystemStatus : Type 0 where
  healthy degraded offline unknown : SystemStatus

pub data StalenessPosture : Type 0 where
  fresh aging stale unknown_age : StalenessPosture

-- A row of `_SYSTEMS_SQL` or of `_FRESHNESS_SQL`; the latter has no `service_state`.
pub record ServiceRow : Type 0 where
  pub service_id : String
  pub service_name : Option String
  pub service_state : Option String
  pub last_status_recorded_at : Option Time

pub record SystemEntry : Type 0 where
  pub system_id : String
  pub system_name : String
  pub status : SystemStatus
  pub staleness_posture : StalenessPosture
  pub last_success_at : Option String
  pub age_seconds : ℕ

pub record SystemsResponse : Type 0 where
  pub computed_at : String
  pub staleness_posture : StalenessPosture
  pub systems : List SystemEntry

pub record FreshnessSource : Type 0 where
  pub source_id : String
  pub source_name : String
  pub staleness_posture : StalenessPosture
  pub age_seconds : ℕ
  pub last_updated_at : Option String

pub record FreshnessResponse : Type 0 where
  pub computed_at : String
  pub overall_staleness_posture : StalenessPosture
  pub max_source_age_seconds : ℕ
  pub sources : List FreshnessSource

-- `_age_seconds`: the whole seconds since a time, 0 for a time to come.
unfoldable pub age_seconds : Time → Option Time → Option ℕ
age_seconds now none = none
age_seconds now (some t) = some ((now - t) / 1000000)

-- `age or 0`
abbrev pub age_or_zero : Option ℕ → ℕ
age_or_zero none = 0
age_or_zero (some n) = n

-- `value or fallback` of a text that may be missing: the empty text counts as missing.
abbrev pub text_or : Option String → String → String
text_or none fallback = fallback
text_or (some s) fallback = if str_eq s "" then fallback else s

-- `_SERVICE_STATE_TO_STATUS.get(state, SystemStatus.UNKNOWN)`
unfoldable pub status_of : String → SystemStatus
status_of state =
    if str_eq state "ready"
    then healthy
    else if str_eq state "degraded" || str_eq state "migrating"
    then degraded
    else if str_eq state "unavailable"
    then offline
    else unknown

abbrev pub same_posture : StalenessPosture → StalenessPosture → Bool
same_posture fresh fresh = true
same_posture aging aging = true
same_posture stale stale = true
same_posture unknown_age unknown_age = true
same_posture _ _ = false

-- `posture in seen`
abbrev pub is_seen : StalenessPosture → List StalenessPosture → Bool
is_seen p [] = false
is_seen p (q ∷ qs) = same_posture p q || is_seen p qs

-- `_overall_posture`
unfoldable pub overall_posture : List StalenessPosture → StalenessPosture
overall_posture seen =
    if is_seen stale seen
    then stale
    else if is_seen aging seen
    then aging
    else if is_seen fresh seen
    then fresh
    else unknown_age

abbrev pub format_time : (Time → String) → Option Time → Option String
format_time iso none = none
format_time iso (some t) = some (iso t)

-- `iso` is `_iso` of a time; the thresholds are those of the environment.
module _ (iso : Time → String) (aging_threshold stale_threshold : ℤ) where
  -- `_posture_for_age`
  unfoldable pub posture_for_age : Option ℕ → StalenessPosture
  posture_for_age none = unknown_age
  posture_for_age (some age) =
      if ltb_ℤ (pos age) aging_threshold
      then fresh
      else if ltb_ℤ (pos age) stale_threshold
      then aging
      else stale

  abbrev pub system_entry : Time → ServiceRow → SystemEntry
  system_entry now row =
      let age = age_seconds now row.last_status_recorded_at in
      record {
        system_id = row.service_id;
        system_name = text_or row.service_name row.service_id;
        status = status_of (text_or row.service_state "unknown");
        staleness_posture = posture_for_age age;
        last_success_at = format_time iso row.last_status_recorded_at;
        age_seconds = age_or_zero age;
      }

  -- `compute_systems_response`
  unfoldable pub compute_systems_response : List ServiceRow → Time → SystemsResponse
  compute_systems_response rows now =
      let systems = map (system_entry now) rows in
      record {
        computed_at = iso now;
        staleness_posture =
            overall_posture (map (λ (s : SystemEntry). s.staleness_posture) systems);
        systems = systems;
      }

  abbrev pub freshness_source : Time → ServiceRow → FreshnessSource
  freshness_source now row =
      let age = age_seconds now row.last_status_recorded_at in
      record {
        source_id = row.service_id;
        source_name = text_or row.service_name row.service_id;
        staleness_posture = posture_for_age age;
        age_seconds = age_or_zero age;
        last_updated_at = format_time iso row.last_status_recorded_at;
      }

  -- `max(ages, default=0)`
  abbrev pub max_age : List FreshnessSource → ℕ
  max_age [] = 0
  max_age (s ∷ ss) = max s.age_seconds (max_age ss)

  -- `compute_freshness_response`
  unfoldable pub compute_freshness_response : List ServiceRow → Time → FreshnessResponse
  compute_freshness_response rows now =
      let sources = map (freshness_source now) rows in
      record {
        computed_at = iso now;
        overall_staleness_posture =
            overall_posture (map (λ (s : FreshnessSource). s.staleness_posture) sources);
        max_source_age_seconds = max_age sources;
        sources = sources;
      }
