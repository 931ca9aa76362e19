-- ===== src/Tests/Site.antt =====
-- A small installation on which the tests run: a clock, an advisory lock that another process may
-- hold for a while, and the core version that the database has recorded.
use df_local_foundation.Prelude.{
  ℕ, suc, ◌+◌, ◌-◌, ◌*◌, ◌≤◌, ◌≡◌, ◌≢◌, refl, Bool, true, false, String, Option, none, some, List,
  [], ◌∷◌, arith, ltb, if◌then◌else◌, Bool-cases, inl, inr,
}
use df_local_foundation.Contract.{AppMode}
use df_local_foundation.Runtime.{driver_error, undefined_table_error, Outcome, ok, raised, diverged}
use df_local_foundation.Config.{FoundationSettings, connection_string}
use df_local_foundation.Database.{Database, HealthEvent, IsMonotonic}
use df_local_foundation.MigrationLock.Scope.{LockLaws, IsAnswered}
use df_local_foundation.MigrationLock.{
  poll, query_lock, try_acquire_lock, release_lock, locked_body, migration_lock,
}
use df_local_foundation.Lifecycle.{
  LifecycleManager, started_or_now, report, version_handler, get_core_schema_version, check_version,
  check_and_migrate, contention_handler, locked_check_and_migrate, connect, log_health_event,
  start_failed, start_connected, start, status, stop,
}

pub record Site : Type 0 where
  pub clock : ℕ
  -- how many times the session holds the lock
  pub depth : ℕ
  pub busy_until : ℕ
  pub reachable : Bool
  pub version : Outcome (Option String)
  pub events : List HealthEvent

abbrev pub site_depth : Site → ℕ
site_depth w = w.depth

abbrev pub try_lock : Site → Outcome Bool × Site
try_lock w =
    if ltb w.clock w.busy_until then (ok false, w) else (ok true, record w { depth = suc w.depth })

abbrev pub database : Database Site
database = record {
  now = λ w. w.clock * 1000;
  create_pool = λ dsn w. (if w.reachable then ok tt else raised (driver_error 1), w);
  close_pool = λ w. (ok tt, w);
  acquire = λ w. (ok tt, w);
  release = λ w. (ok tt, record w { depth = 0 });
  try_advisory_lock = λ id w. try_lock w;
  advisory_unlock = λ id w. (ok tt, record w { depth = w.depth - 1 });
  fetch_core_version = λ w. (w.version, w);
  insert_health_event = λ e w. (ok tt, record w { events = e ∷ w.events });
  loop_time = λ w. w.clock;
  sleep = λ d w. (ok tt, record w { clock = w.clock + d });
}

-- The same database, where every unlock fails.
abbrev pub failing_unlock : Database Site
failing_unlock = record database { advisory_unlock = λ id w. (raised (driver_error 7), w) }

lock_takes : (w : Site) → w.clock ≡ (try_lock w).1.clock
lock_takes w = ground arith

lock_returns : (w : Site) → (try_lock w).0 ≢ diverged
lock_returns w = ground arith

pub database-IsMonotonic : IsMonotonic database
database-IsMonotonic = record {
  lock_takes = λ id w. omega (arith, lock_takes w);
  sleep_takes = λ d w. omega arith;
  lock_returns = λ id w. lock_returns w;
  sleep_returns = λ d w h. cc;
}

lock_taken : (w : Site) → (try_lock w).0 ≡ ok true → (try_lock w).1.depth ≡ suc w.depth
lock_taken w h = ground arith

lock_refused : (w : Site) → (try_lock w).0 ≡ ok false → (try_lock w).1.depth ≤ w.depth
lock_refused w h = ground arith

pub database-LockLaws : (id : ℕ) → LockLaws database id site_depth
database-LockLaws id = record {
  taken = lock_taken;
  refused = lock_refused;
  unlocked = λ w h. refl;
  acquire_takes_none = λ w. omega arith;
  release_takes_none = λ w. omega arith;
  sleep_takes_none = λ d w. omega arith;
}

pub database-IsAnswered : (id : ℕ) → IsAnswered database id
database-IsAnswered id w = elim (Bool-cases (ltb w.clock w.busy_until)) [
  | inl busy ↦ (false, rw busy refl)
  | inr free ↦ (true, rw free refl)
]

abbrev pub dev_settings : FoundationSettings
dev_settings = record {
  df_local_host = "127.0.0.1";
  df_local_port = 5432;
  df_local_db = "forge";
  df_local_user = "smith";
  df_local_password = "anvil";
  df_local_data_dir = "/var/lib/df-local";
  df_local_app_id = "authorforge";
  df_local_app_mode = AppMode.local;
  df_local_api_host = "127.0.0.1";
  df_local_api_port = 8099;
  df_local_profile = "dev";
}

-- Reachable, up to date, and with the lock free.
abbrev pub good_site : Site
good_site = record {
  clock = 3;
  depth = 0;
  busy_until = 0;
  reachable = true;
  version = ok (some "0002");
  events = [];
}

-- Another process holds the lock for an hour.
abbrev pub busy_site : Site
busy_site = record good_site { busy_until = 3600000 }

-- The core schema has not been made yet.
abbrev pub empty_site : Site
empty_site = record good_site { version = raised undefined_table_error }

abbrev pub broken_site : Site
broken_site = record good_site { version = raised (driver_error 9) }

abbrev pub down_site : Site
down_site = record good_site { reachable = false }

-- A manager that has been constructed, and one that has started.
abbrev pub fresh_manager : Site → LifecycleManager Site
fresh_manager w = record {
  settings = dev_settings;
  started_at = none;
  has_pool = false;
  current_state = none;
  world = w;
}

abbrev pub running_manager : Site → LifecycleManager Site
running_manager w = record (fresh_manager w) { started_at = some 1000; has_pool = true }

-- A run of the manager computes where this name is unfolded.
unfoldable pub running : Unit {0}
unfolding poll query_lock try_acquire_lock release_lock locked_body migration_lock started_or_now
    report version_handler get_core_schema_version check_version check_and_migrate
    contention_handler locked_check_and_migrate connect log_health_event start_failed
    start_connected start status stop connection_string
running = tt
