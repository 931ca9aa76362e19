-- ===== src/Analytics/Handlers.antt =====
-- app/analytics_services.py and app/api/analytics_router.py: the reader, and the routes.
use df_local_foundation.Prelude.{String, none, List, [], codes}
use df_local_foundation.Prelude.Int.{ℤ}
use df_local_foundation.Contract.{Time}
use df_local_foundation.Runtime.{analytics, ok, Py, ◌>>=◌, Level}
use df_local_foundation.Web.Reader.{Query, Connection, read}
use df_local_foundation.Web.Routes.{route, lift}
use df_local_foundation.Analytics.{
  ServiceRow, SystemsResponse, FreshnessResponse, compute_systems_response,
  compute_freshness_response,
}
use df_local_foundation.Analytics.Queue.{QueueRow, QueueResponse, compute_queue_response}
use df_local_foundation.Analytics.Overview.{OverviewResponse, compose_overview_response}

abbrev systems_sql : String
systems_sql =
    "\n    SELECT r.service_id,\n           r.service_name,\n           c.service_state,\n           c.readiness_state,\n           c.degradation_class,\n           c.last_status_recorded_at\n    FROM service_registry.registered_services r\n    LEFT JOIN service_status.service_status_current c\n      ON c.service_id = r.service_id\n    WHERE r.is_enabled = true\n    ORDER BY r.service_name\n"

abbrev pub queue_sql : String
queue_sql =
    "\n    SELECT queue_status, created_at, claim_lease_expires_at\n    FROM runtime_promotion.ps_promotion_staging\n"

abbrev freshness_sql : String
freshness_sql =
    "\n    SELECT r.service_id,\n           r.service_name,\n           c.last_status_recorded_at\n    FROM service_registry.registered_services r\n    LEFT JOIN service_status.service_status_current c\n      ON c.service_id = r.service_id\n    WHERE r.is_enabled = true\n    ORDER BY r.service_name\n"

-- `conn.fetch` of queries whose rows have the columns of these records, of the types that the tables
-- declare.
pub record Tables (W : Type 0) : Type 0 where
  pub service_rows : Query → Py W (List ServiceRow)
  pub queue_rows : Query → Py W (List QueueRow)

-- A query without arguments.
abbrev query : String → Query
query sql = record { sql = codes sql; arguments = [] }

-- `iso` is `_iso` of a time; the thresholds and the grace are those of the environment; `now` is what
-- the clock reads as a handler begins.
module _ {W : Type 0} (db : Connection W) (tables : Tables W) (threshold : Level)
    (iso : Time → String) (aging_threshold stale_threshold grace : ℤ) where
  unfoldable pub fetch_system_rows : Py W (List ServiceRow)
  fetch_system_rows = read db threshold analytics (tables.service_rows (query systems_sql))

  unfoldable pub fetch_queue_rows : Py W (List QueueRow)
  fetch_queue_rows = read db threshold analytics (tables.queue_rows (query queue_sql))

  unfoldable pub fetch_freshness_rows : Py W (List ServiceRow)
  fetch_freshness_rows = read db threshold analytics (tables.service_rows (query freshness_sql))

  unfoldable pub build_systems_response : Time → Py W SystemsResponse
  build_systems_response now = fetch_system_rows >>= λ rows.
      lift (ok (compute_systems_response iso aging_threshold stale_threshold rows now))

  unfoldable pub build_queue_response : Time → Py W QueueResponse
  build_queue_response now =
      fetch_queue_rows >>= λ rows. lift (compute_queue_response iso grace rows now)

  unfoldable pub build_freshness_response : Time → Py W FreshnessResponse
  build_freshness_response now = fetch_freshness_rows >>= λ rows.
      lift (ok (compute_freshness_response iso aging_threshold stale_threshold rows now))

  unfoldable pub build_overview_response : Time → Py W OverviewResponse
  build_overview_response now = build_systems_response now >>= λ systems.
      build_queue_response now >>= λ queue. build_freshness_response now >>= λ freshness.
      lift (compose_overview_response iso systems queue freshness now)

  abbrev pub error_class : String
  error_class = "analytics_read_failure"

  unfoldable pub get_overview : Time → Py W OverviewResponse
  get_overview now = route analytics error_class none (build_overview_response now)

  unfoldable get_systems : Time → Py W SystemsResponse
  get_systems now = route analytics error_class none (build_systems_response now)

  unfoldable get_queue : Time → Py W QueueResponse
  get_queue now = route analytics error_class none (build_queue_response now)

  unfoldable get_freshness : Time → Py W FreshnessResponse
  get_freshness now = route analytics error_class none (build_freshness_response now)
