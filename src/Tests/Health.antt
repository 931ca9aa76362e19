-- ===== src/Tests/Health.antt =====
-- Health reports of the test site, and the theorems about core/health at those runs.
use df_local_foundation.Prelude.{
  ◌≡◌, ◌≢◌, ◌↔◌, refl, Bool, true, false, String, none, some, [], ◌∷◌, All,
}
use df_local_foundation.Contract.{LifecycleState, Time, ready, unavailable, connection_failure}
use df_local_foundation.Runtime.{privacy_violation_error, type_error, ok, raised, Level}
use df_local_foundation.Lifecycle.{bare_state, status}
use df_local_foundation.Health.{
  text, truth, null, Dict, keys, lookup, to_health_dict, has_banned, HealthResponse, is_ready,
  health_response, from_state, get_health,
}
use df_local_foundation.Health.Contract.{conforms, health_schema}
use df_local_foundation.Health.Serialized.{IsDeclared, IsClean}
use df_local_foundation.Health.Response.{
  health_response_iff, from_state_returns, get_health_coherent,
}
use df_local_foundation.Tests.Site.{
  database, dev_settings, good_site, broken_site, running_manager, running,
}

abbrev is_valid : Dict → Bool
is_valid d = conforms health_schema d

abbrev isoformat : Time → String
isoformat t = "2026-01-05T00:00:00+00:00"

-- A dict that tells how many records there are.
abbrev leak : Dict
leak = ("status", text "ready") ∷ ("record_counts", text "12") ∷ []

health_response_iff_example :
    ((health_response is_valid leak ≡ ok (record { content = leak }))
      ↔ (IsClean (keys leak) × (is_valid leak ≡ true)))
    × (¬ (IsClean (keys leak)) ↔ (health_response is_valid leak ≡ raised privacy_violation_error))
health_response_iff_example = health_response_iff is_valid leak

leak_refused : health_response is_valid leak ≡ raised privacy_violation_error
unfolding health_response has_banned
leak_refused = refl

abbrev down_state : LifecycleState
down_state = bare_state dev_settings unavailable "unknown" true 1000 (some connection_failure)

from_state_returns_example :
    (from_state is_valid isoformat down_state
      ≡ ok (record { content = to_health_dict isoformat down_state }))
    × All IsDeclared (keys (to_health_dict isoformat down_state))
from_state_returns_example = from_state_returns is_valid isoformat (λ d. refl) down_state

broken_status : (status database Level.warning (running_manager broken_site)).0 ≡ raised type_error
unfolding running
broken_status = refl

abbrev good_state : LifecycleState
good_state = bare_state dev_settings ready "0002" false 1000 none

abbrev good_response : HealthResponse
good_response = record { content = to_health_dict isoformat good_state }

good_report :
    (get_health is_valid isoformat database Level.warning (running_manager good_site)).0
    ≡ ok good_response
unfolding running get_health from_state health_response to_health_dict conforms has_banned
good_report = refl

get_health_coherent_example :
    ((is_ready good_response ≡ true)
      ↔ (lookup "migration_required" good_response.content ≡ some (truth false)))
    × ((lookup "status" good_response.content ≡ some (text "unavailable"))
        ↔ (lookup "last_error_class" good_response.content ≢ some null))
    × All IsDeclared (keys good_response.content)
get_health_coherent_example =
    get_health_coherent is_valid isoformat (λ d. refl) database Level.warning
      (running_manager good_site) good_response good_report

good_is_ready : is_ready good_response ≡ true
unfolding is_ready to_health_dict
good_is_ready = refl
