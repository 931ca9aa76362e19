-- ===== src/Tests/Analytics.antt =====
-- Two services and a queue, and the theorems about app/analytics_services.py at them.
use df_local_foundation.Prelude.{
  ℕ, ◌*◌, ◌⊎◌, ◌≡◌, ◌↔◌, refl, false, String, none, some, List, [], ◌∷◌, arith,
}
use df_local_foundation.Prelude.Int.{pos, ltb_ℤ}
use df_local_foundation.Contract.{Time}
use df_local_foundation.Runtime.{
  driver_error, http_exception, unavailable, overflow_error, ok, raised, Level,
}
use df_local_foundation.Web.Reader.{Connection, read}
use df_local_foundation.Web.Routes.{route}
use df_local_foundation.Analytics.Handlers.{
  Tables, fetch_system_rows, build_systems_response, build_overview_response, get_overview,
}
use df_local_foundation.Analytics.Failures.{get_overview_raises}
use df_local_foundation.Analytics.{
  fresh, aging, stale, unknown_age, ServiceRow, age_seconds, overall_posture, posture_for_age,
  compute_freshness_response,
}
use df_local_foundation.Analytics.Posture.{rank, highest, rank-overall_posture, stale_iff_old}
use df_local_foundation.Analytics.Queue.{
  QueueRow, QueueResponse, count_status, tally_row, tally_rows, stale_before_at,
  compute_queue_response,
}

abbrev iso : Time → String
iso t = "2026-01-05T00:00:00Z"

abbrev seconds : ℕ → Time
seconds n = n * 1000000

-- One service that was heard of 1000 seconds ago, and one that never was.
abbrev services : List ServiceRow
services =
    record {
      service_id = "a";
      service_name = some "Alpha";
      service_state = some "ready";
      last_status_recorded_at = some (seconds 4000);
    }
    ∷ record {
      service_id = "b";
      service_name = none;
      service_state = none;
      last_status_recorded_at = none;
    }
    ∷ []

rank-overall_posture_example :
    rank (overall_posture (fresh ∷ aging ∷ unknown_age ∷ []))
    ≡ highest (fresh ∷ aging ∷ unknown_age ∷ [])
rank-overall_posture_example = rank-overall_posture (fresh ∷ aging ∷ unknown_age ∷ [])

stale_iff_old_example :
    ((compute_freshness_response iso
        (pos 300)
        (pos 900)
        services
        (seconds 5000)).overall_staleness_posture
      ≡ stale)
    ↔ (ltb_ℤ
          (pos
            (compute_freshness_response iso
              (pos 300)
              (pos 900)
              services
              (seconds 5000)).max_source_age_seconds)
          (pos 900)
        ≡ false)
stale_iff_old_example =
    stale_iff_old iso (pos 300) (pos 900) (omega arith) refl services (seconds 5000)

services_are_stale :
    (compute_freshness_response iso
      (pos 300)
      (pos 900)
      services
      (seconds 5000)).overall_staleness_posture
    ≡ stale
unfolding compute_freshness_response overall_posture posture_for_age age_seconds
services_are_stale = refl

-- A claimed item whose lease is over, and one that is accepted.
abbrev items : List QueueRow
items =
    record {
      queue_status = "claimed_for_send";
      created_at = some (seconds 4000);
      claim_lease_expires_at = some (seconds 4500);
    }
    ∷ record {
      queue_status = "accepted";
      created_at = some (seconds 100);
      claim_lease_expires_at = none;
    }
    ∷ []

abbrev view : QueueResponse
view = record {
  computed_at = "2026-01-05T00:00:00Z";
  status_counts = record { queued = 0; leased = 1; failed = 0; deferred = 0 };
  stale_leases = 1;
  oldest_item_age_seconds = 1000;
  average_queue_dwell_seconds = 1000;
  degradation_flags = "stale_lease_detected" ∷ [];
}

items_viewed : compute_queue_response iso (pos 0) items (seconds 5000) ≡ ok view
unfolding compute_queue_response tally_rows tally_row count_status stale_before_at age_seconds
items_viewed = refl

abbrev overview_queue : QueueResponse
overview_queue = record {
  computed_at = iso 0;
  status_counts = record { queued = 0; leased = 0; failed = 0; deferred = 0 };
  stale_leases = 0;
  oldest_item_age_seconds = 0;
  average_queue_dwell_seconds = 0;
  degradation_flags = [];
}

abbrev refusing : Connection ℕ
refusing = record {
  connect = λ w. (raised (driver_error 1), w);
  fetch = λ q w. (ok [], w);
  fetchrow = λ q w. (ok none, w);
  close = λ w. (ok tt, w);
}

abbrev no_tables : Tables ℕ
no_tables = record { service_rows = λ q w. (ok [], w); queue_rows = λ q w. (ok [], w) }

overview_fails :
    (get_overview refusing no_tables Level.warning iso (pos 300) (pos 900) (pos 60) 0 0).0
    ≡ raised (http_exception 503 (unavailable "analytics_read_failure"))
unfolding get_overview route build_overview_response build_systems_response fetch_system_rows read
overview_fails = refl

get_overview_raises_example :
    (http_exception 503 (unavailable "analytics_read_failure")
      ≡ http_exception 503 (unavailable "analytics_read_failure"))
    ⊎ (http_exception 503 (unavailable "analytics_read_failure") ≡ overflow_error)
get_overview_raises_example =
    get_overview_raises refusing no_tables Level.warning iso (pos 300) (pos 900) (pos 60) 0 0
      (http_exception 503 (unavailable "analytics_read_failure")) overview_fails
