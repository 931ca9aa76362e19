-- ===== src/MigrationLock/Polling.antt =====
-- The polling loop of core/lifecycle/migration_lock.py on a clock.
use df_local_foundation.Prelude.{ℕ, zero, suc, ◌+◌, ◌-◌, ◌*◌, ◌/◌, ◌≤◌, min, ◌≡◌, ◌≢◌, false, arith}
use df_local_foundation.Runtime.{ok, diverged}
use df_local_foundation.Database.{Database, IsMonotonic}
use df_local_foundation.MigrationLock.{poll_interval, query_lock, poll, try_acquire_lock}

module _ {W : Type 0} (db : Database W) (clock : IsMonotonic db) where
  query_takes : (id : ℕ) (w : W) → db.loop_time w ≤ db.loop_time (query_lock db id w).1
  unfolding query_lock
  query_takes id w = ground (arith, clock.lock_takes id w)

  query_returns : (id : ℕ) (w : W) → (query_lock db id w).0 ≢ diverged
  unfolding query_lock
  query_returns id w = ground (arith, clock.lock_returns id w)

  poll_returns :
      (rounds id deadline : ℕ) (w : W)
      → deadline ≤ db.loop_time w + rounds * 100
      → (poll db (suc rounds) id deadline w).0 ≢ diverged
  unfolding poll
  poll_returns zero id deadline w h = ground (arith, query_returns id w, query_takes id w)
  poll_returns (suc rounds) id deadline w h =
      let t = (query_lock db id w).1 in
      let d = min poll_interval (deadline - db.loop_time t) in
      ground (
        arith,
        query_returns id w,
        query_takes id w,
        clock.sleep_takes d t,
        clock.sleep_returns d t,
        poll_returns rounds id deadline (db.sleep d t).1,
      )

  poll_waits :
      (fuel id deadline : ℕ) (w : W)
      → (poll db fuel id deadline w).0 ≡ ok false
      → deadline ≤ db.loop_time (poll db fuel id deadline w).1
  unfolding poll
  poll_waits zero id deadline w h = cc
  poll_waits (suc fuel) id deadline w h =
      let t = (query_lock db id w).1 in
      let d = min poll_interval (deadline - db.loop_time t) in
      ground (arith, poll_waits fuel id deadline (db.sleep d t).1)

  -- On a clock that never goes back, if queries and sleeps end, the loop ends: the lock is taken,
  -- an exception is raised, or the loop gives up, and then the timeout has passed.
  pub try_acquire_lock_ends :
      (id timeout : ℕ) (w : W)
      → ((try_acquire_lock db id timeout w).0 ≢ diverged)
        × ((try_acquire_lock db id timeout w).0 ≡ ok false
            → db.loop_time w + timeout ≤ db.loop_time (try_acquire_lock db id timeout w).1)
  unfolding try_acquire_lock
  try_acquire_lock_ends id timeout w = (
    let rounds : ℕ = timeout / poll_interval + 1 in
        let fuel : timeout / poll_interval + 2 ≡ suc rounds = omega arith in
        rw fuel (poll_returns rounds id (db.loop_time w + timeout) w (omega arith)),
    λ h. poll_waits (timeout / poll_interval + 2) id (db.loop_time w + timeout) w h,
  )
