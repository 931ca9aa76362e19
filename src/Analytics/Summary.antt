-- ===== src/Analytics/Summary.antt =====
-- The numbers and flags of the overview of app/analytics_services.py.
use df_local_foundation.Prelude.{◌+◌, max, ◌≤◌, ◌≡◌, ◌↔◌, String, [], length}
use df_local_foundation.Contract.{Time}
use df_local_foundation.Analytics.{unknown, SystemsResponse, FreshnessResponse}
use df_local_foundation.Analytics.Posture.{rank}
use df_local_foundation.Analytics.Queue.{QueueResponse}
use df_local_foundation.Analytics.Overview.{OverviewResponse, count_systems}

module _ (iso : Time → String) where
  -- What an overview says of the three responses that it is composed of.
  pub record IsOverview (systems : SystemsResponse) (queue : QueueResponse)
      (freshness : FreshnessResponse) (o : OverviewResponse) : Type 0 where
    pub total : o.systems_summary.total_systems ≡ length systems.systems
    pub counts :
        o.systems_summary.healthy_systems
          + (o.systems_summary.degraded_systems
              + (o.systems_summary.offline_systems + count_systems unknown systems.systems))
        ≡ length systems.systems
    pub stale_bound : o.freshness_summary.stale_sources ≤ o.freshness_summary.sources_total
    pub posture :
        rank o.staleness_posture
        ≡ max (rank systems.staleness_posture) (rank freshness.overall_staleness_posture)
    pub no_flags : (o.degradation_flags ≡ []) ↔ (
        (o.freshness_summary.stale_sources ≡ 0)
        × (o.systems_summary.degraded_systems ≡ 0)
        × (o.systems_summary.offline_systems ≡ 0)
        × (queue.degradation_flags ≡ []))
