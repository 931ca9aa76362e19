-- ===== src/Analytics/Overview.antt =====
-- app/analytics_services.py: the overview, which is composed of the three other responses.
use df_local_foundation.Prelude.{
  ℕ, ◌+◌, ◌-◌, Bool, true, false, String, List, [], ◌∷◌, ◌++◌, length, ltb, ◌==◌, if◌then◌else◌,
}
use df_local_foundation.Contract.{Time}
use df_local_foundation.Runtime.{overflow_error, Outcome, ok, raised}
use df_local_foundation.Analytics.{
  SystemStatus, healthy, degraded, offline, unknown, StalenessPosture, stale, SystemEntry,
  SystemsResponse, FreshnessSource, FreshnessResponse, overall_posture, same_posture,
}
use df_local_foundation.Analytics.Queue.{QueueStatusCounts, QueueResponse}

pub record SystemsSummary : Type 0 where
  pub total_systems : ℕ
  pub healthy_systems : ℕ
  pub degraded_systems : ℕ
  pub offline_systems : ℕ

pub record QueueSummary : Type 0 where
  pub status_counts : QueueStatusCounts
  pub stale_leases : ℕ
  pub oldest_item_age_seconds : ℕ
  pub average_queue_dwell_seconds : ℕ

pub record FreshnessSummary : Type 0 where
  pub sources_total : ℕ
  pub stale_sources : ℕ
  pub max_source_age_seconds : ℕ

pub record OverviewResponse : Type 0 where
  pub computed_at : String
  pub window_start : String
  pub window_end : String
  pub staleness_posture : StalenessPosture
  pub degradation_flags : List String
  pub systems_summary : SystemsSummary
  pub queue_summary : QueueSummary
  pub freshness_summary : FreshnessSummary

abbrev same_status : SystemStatus → SystemStatus → Bool
same_status healthy healthy = true
same_status degraded degraded = true
same_status offline offline = true
same_status unknown unknown = true
same_status _ _ = false

-- `sum(1 for s in systems if s.status == status)`
abbrev pub count_systems : SystemStatus → List SystemEntry → ℕ
count_systems status [] = 0
count_systems status (s ∷ ss) =
    (if same_status s.status status then 1 else 0) + count_systems status ss

abbrev pub count_stale : List FreshnessSource → ℕ
count_stale [] = 0
count_stale (s ∷ ss) = (if same_posture s.staleness_posture stale then 1 else 0) + count_stale ss

-- `if n: flags.append(flag)`
abbrev pub flag_if : ℕ → String → List String → List String
flag_if n flag flags = if n == 0 then flags else flags ++ (flag ∷ [])

module _ (iso : Time → String) where
  abbrev pub overview :
      SystemsResponse → QueueResponse → FreshnessResponse → Time → Time → OverviewResponse
  overview systems queue freshness now window_start =
      let healthy_systems = count_systems healthy systems.systems in
      let degraded_systems = count_systems degraded systems.systems in
      let offline_systems = count_systems offline systems.systems in
      let stale_sources = count_stale freshness.sources in
      record {
        computed_at = iso now;
        window_start = iso window_start;
        window_end = iso now;
        staleness_posture =
            overall_posture (systems.staleness_posture ∷ freshness.overall_staleness_posture ∷ []);
        degradation_flags = flag_if stale_sources "stale_source_detected" (
            flag_if degraded_systems "degraded_system_detected"
              (flag_if offline_systems "offline_system_detected" queue.degradation_flags));
        systems_summary = record {
          total_systems = length systems.systems;
          healthy_systems = healthy_systems;
          degraded_systems = degraded_systems;
          offline_systems = offline_systems;
        };
        queue_summary = record {
          status_counts = queue.status_counts;
          stale_leases = queue.stale_leases;
          oldest_item_age_seconds = queue.oldest_item_age_seconds;
          average_queue_dwell_seconds = queue.average_queue_dwell_seconds;
        };
        freshness_summary = record {
          sources_total = length freshness.sources;
          stale_sources = stale_sources;
          max_source_age_seconds = freshness.max_source_age_seconds;
        };
      }

  -- `compose_overview_response`: the window begins an hour before, if there is such a time.
  unfoldable pub compose_overview_response :
      SystemsResponse → QueueResponse → FreshnessResponse → Time → Outcome OverviewResponse
  compose_overview_response systems queue freshness now =
      if ltb now 3600000000
      then raised overflow_error
      else ok (overview systems queue freshness now (now - 3600000000))
