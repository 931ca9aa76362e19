-- ===== src/Database.antt =====
-- What the program calls of asyncpg, PostgreSQL and the event loop, as the parameter of the
-- modules that use them. `W` is the state of all that lies outside the process.
use df_local_foundation.Prelude.{ℕ, ◌+◌, ◌≤◌, ◌≢◌, Bool, String, Option, List}
use df_local_foundation.Contract.{LifecycleStatus, ErrorClass, Time}
use df_local_foundation.Runtime.{Py, diverged}

-- A row of `core_health_events`.
pub record HealthEvent : Type 0 where
  pub app_id : String
  pub previous_status : Option LifecycleStatus
  pub new_status : LifecycleStatus
  pub error_class : Option ErrorClass

pub record Database (W : Type 0) : Type 0 where
  -- datetime.now(UTC)
  pub now : W → Time
  -- asyncpg.create_pool(dsn), pool.close()
  pub create_pool : List ℕ → Py W (Unit {0})
  pub close_pool : Py W (Unit {0})
  -- `async with pool.acquire()`: taking a connection and giving it back
  pub acquire : Py W (Unit {0})
  pub release : Py W (Unit {0})
  -- SELECT pg_try_advisory_lock($1), SELECT pg_advisory_unlock($1)
  pub try_advisory_lock : ℕ → Py W Bool
  pub advisory_unlock : ℕ → Py W (Unit {0})
  -- SELECT current_version FROM core_schema_versions WHERE target = 'core', as the row's value
  pub fetch_core_version : Py W (Option String)
  -- INSERT INTO core_health_events
  pub insert_health_event : HealthEvent → Py W (Unit {0})
  -- asyncio.get_event_loop().time() and asyncio.sleep(), in milliseconds
  pub loop_time : W → ℕ
  pub sleep : ℕ → Py W (Unit {0})

-- The documented behaviour of the event loop's clock: it never goes back, and a `sleep` that
-- returns has taken at least as long as it was asked to.
pub record IsMonotonic {W : Type 0} (db : Database W) : Type 0 where
  pub lock_takes : (id : ℕ) (w : W) → db.loop_time w ≤ db.loop_time (db.try_advisory_lock id w).1
  pub sleep_takes : (d : ℕ) (w : W) → db.loop_time w + d ≤ db.loop_time (db.sleep d w).1
  pub lock_returns : (id : ℕ) (w : W) → (db.try_advisory_lock id w).0 ≢ diverged
  pub sleep_returns : (d : ℕ) (w : W) → (db.sleep d w).0 ≢ diverged
