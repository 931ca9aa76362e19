-- ===== src/Web/Lifespan.antt =====
-- app/main.py: `lifespan`, which holds the lifecycle while the application serves, and the two
-- handlers of its own.
pub mod Boot
use df_local_foundation.Prelude.{Bool, true, false, String, none, List, [], ◌∷◌}
use df_local_foundation.Contract.{Time}
use df_local_foundation.Config.{
  FoundationSettings, Validated, accepted, rejected, validate, foundation_version,
}
use df_local_foundation.Runtime.{
  Exc, lifecycle_start_error, value_error, Outcome, ok, raised, Py, pure, raise, ◌>>=◌, ◌>>◌,
  try_except, try_finally, Level, log_event,
}
use df_local_foundation.Database.{Database}
use df_local_foundation.Lifecycle.{LifecycleManager, start, stop}
use df_local_foundation.Health.{Dict, HealthResponse, get_health}
use df_local_foundation.Web.Value
use df_local_foundation.Web.Value.{Row}

-- `LifecycleManager(settings)`
abbrev pub new_manager : {W : Type 0} → FoundationSettings → W → LifecycleManager W
new_manager settings w = record {
  settings = settings;
  started_at = none;
  has_pool = false;
  current_state = none;
  world = w;
}

module _ {W : Type 0} (db : Database W) (threshold : Level) where
  -- `except LifecycleStartError`
  unfoldable pub degraded_start : Exc → Py (LifecycleManager W) (Unit {0})
  degraded_start (lifecycle_start_error c state) = log_event threshold Level.warning
  degraded_start e = raise e

  unfoldable pub started : Py (LifecycleManager W) (Unit {0})
  unfolding degraded_start
  started = try_except (start db threshold >> pure tt) degraded_start

  -- `serve` is what the application does while the manager waits at its `yield`.
  unfoldable pub lifespan : Py (LifecycleManager W) (Unit {0}) → Py (LifecycleManager W) (Unit {0})
  unfolding started
  lifespan serve = started >> try_finally serve (stop db threshold)

  abbrev run_validated :
      Validated → Py (LifecycleManager W) (Unit {0}) → W → Outcome (Unit {0}) × Bool × W
  run_validated (accepted settings) serve w =
      let (r, t) = lifespan serve (new_manager settings w) in (r, t.has_pool, t.world)
  run_validated (rejected e) serve w = (raised value_error, false, w)

  -- The whole run of `lifespan`, with `load_settings` first: its outcome, whether a pool is left open,
  -- and the state of the world.
  unfoldable pub run :
      FoundationSettings → Py (LifecycleManager W) (Unit {0}) → W → Outcome (Unit {0}) × Bool × W
  unfolding lifespan
  run settings serve w = run_validated (validate settings) serve w

  -- `health`
  unfoldable health : (Dict → Bool) → (Time → String) → Py (LifecycleManager W) Dict
  health is_valid isoformat =
      get_health is_valid isoformat db threshold >>= λ response. pure response.content

-- `live`
unfoldable live : Row
live =
    ("service", Value.text "df-local-foundation")
    ∷ ("version", Value.text foundation_version)
    ∷ ("status", Value.text "live")
    ∷ []
