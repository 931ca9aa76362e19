-- ===== src/MigrationLock/Scope.antt =====
-- The lock round the body of `async with migration_lock(pool)`.
use df_local_foundation.Prelude.{
  ℕ, zero, suc, ◌+◌, ◌-◌, ◌/◌, min, ◌≤◌, ◌≡◌, refl, ap, ◌∙◌, ◌≢◌, ◌⊎◌, inl, inr, true, false, arith,
  Bool, if◌then◌else◌, Bool-cases,
}
use df_local_foundation.Runtime.{
  Exc, ok, raised, diverged, Py, ◌>>=◌, try_finally, conclude, type_error, Level, is_enabled,
}
use df_local_foundation.Runtime.Rules.{continue_agrees}
use df_local_foundation.Database.{Database}
use df_local_foundation.MigrationLock.{
  poll_interval, query_lock, poll, try_acquire_lock, release_lock, locked_body, migration_lock,
}

-- The documented behaviour of a session's advisory lock: `depth` is how many times the session of
-- the connection at hand has taken it, for PostgreSQL stacks the requests. A query that answers
-- `true` takes it once more, and an unlock that returns gives it back once. A query that answers
-- `false`, a pause, and the pool, which frees the locks of a connection that comes back, take none.
pub record LockLaws {W : Type 0} (db : Database W) (id : ℕ) (depth : W → ℕ) : Type 0 where
  pub taken :
      (w : W)
      → (db.try_advisory_lock id w).0 ≡ ok true
      → depth (db.try_advisory_lock id w).1 ≡ suc (depth w)
  pub refused :
      (w : W)
      → (db.try_advisory_lock id w).0 ≡ ok false
      → depth (db.try_advisory_lock id w).1 ≤ depth w
  pub unlocked :
      (w : W)
      → (db.advisory_unlock id w).0 ≡ ok tt
      → depth (db.advisory_unlock id w).1 ≡ depth w - 1
  pub acquire_takes_none : (w : W) → depth (db.acquire w).1 ≤ depth w
  pub release_takes_none : (w : W) → depth (db.release w).1 ≤ depth w
  pub sleep_takes_none : (d : ℕ) (w : W) → depth (db.sleep d w).1 ≤ depth w

-- Every query of the lock is answered.
abbrev pub IsAnswered : {W : Type 0} → Database W → ℕ → Type 0
IsAnswered {W = W} db id = (w : W) → (answer : Bool) × ((db.try_advisory_lock id w).0 ≡ ok answer)

-- Two procedures with equal runs from every state in which the session holds the lock.
abbrev pub AgreeLocked : {W A : Type 0} → (W → ℕ) → Py W A → Py W A → Type 0
AgreeLocked {W = W} depth body other = (t : W) → 1 ≤ depth t → body t ≡ other t

module _ {W : Type 0} (db : Database W) (id : ℕ) (depth : W → ℕ) (laws : LockLaws db id depth) where
  query_held : (w : W) → (query_lock db id w).0 ≡ ok true → 1 ≤ depth (query_lock db id w).1
  unfolding query_lock
  query_held w h = ground (arith, laws.taken w)

  query_depth :
      (w : W)
      → IsAnswered db id
      → ((query_lock db id w).0 ≡ ok true × (depth (query_lock db id w).1 ≡ suc (depth w)))
        ⊎ ((query_lock db id w).0 ≡ ok false × (depth (query_lock db id w).1 ≤ depth w))
  unfolding query_lock
  query_depth w answered = by_answer (answered w).0 (answered w).1
    where
      by_answer :
          (b : Bool)
          → (db.try_advisory_lock id w).0 ≡ ok b
          → ((query_lock db id w).0 ≡ ok true × (depth (query_lock db id w).1 ≡ suc (depth w)))
            ⊎ ((query_lock db id w).0 ≡ ok false × (depth (query_lock db id w).1 ≤ depth w))
      by_answer true e = inl (rw e (refl, laws.taken w e))
      by_answer false e = inr (rw e (refl, laws.refused w e))

  poll_held :
      (fuel deadline : ℕ) (w : W)
      → (poll db fuel id deadline w).0 ≡ ok true
      → 1 ≤ depth (poll db fuel id deadline w).1
  unfolding poll
  poll_held zero deadline w h = cc
  poll_held (suc fuel) deadline w h =
      let t = (query_lock db id w).1 in
      let d = min poll_interval (deadline - db.loop_time t) in
      ground (arith, query_held w, poll_held fuel deadline (db.sleep d t).1)

  -- The loop takes the lock at most once, and only where it answers that it did.
  poll_once :
      (fuel deadline : ℕ) (w : W)
      → IsAnswered db id
      → (depth (poll db fuel id deadline w).1 ≤ suc (depth w))
        × ((poll db fuel id deadline w).0 ≢ ok true
            → depth (poll db fuel id deadline w).1 ≤ depth w)
  unfolding poll
  poll_once zero deadline w answered = ground arith
  poll_once (suc fuel) deadline w answered =
      let t = (query_lock db id w).1 in
      let d = min poll_interval (deadline - db.loop_time t) in
      ground (
        arith,
        query_depth w answered,
        laws.sleep_takes_none d t,
        poll_once fuel deadline (db.sleep d t).1 answered,
      )

  pub acquire_held :
      (timeout : ℕ) (w : W)
      → (try_acquire_lock db id timeout w).0 ≡ ok true
      → 1 ≤ depth (try_acquire_lock db id timeout w).1
  unfolding try_acquire_lock
  acquire_held timeout w h = poll_held (timeout / poll_interval + 2) (db.loop_time w + timeout) w h

  acquire_once :
      (timeout : ℕ) (w : W)
      → IsAnswered db id
      → (depth (try_acquire_lock db id timeout w).1 ≤ suc (depth w))
        × ((try_acquire_lock db id timeout w).0 ≢ ok true
            → depth (try_acquire_lock db id timeout w).1 ≤ depth w)
  unfolding try_acquire_lock
  acquire_once timeout w answered =
      poll_once (timeout / poll_interval + 2) (db.loop_time w + timeout) w answered

  module _ {A : Type 0} (level : Level) (timeout : ℕ) (body : Py W A) where
    locked_agrees :
        (other : Py W A) (acquired : Bool) (t : W)
        → (acquired ≡ true → 1 ≤ depth t)
        → AgreeLocked depth body other
        → locked_body db level id body acquired t ≡ locked_body db level id other acquired t
    unfolding locked_body
    locked_agrees other false t taken h = refl
    locked_agrees other true t taken h = elim (Bool-cases (is_enabled level Level.debug)) [
      | inl loud ↦ rw loud refl
      | inr quiet ↦ rw (quiet, h t (taken refl)) refl
    ]

    -- The body runs only while the session holds the lock: any other body that does the same from
    -- every state in which the lock is held gives the block the same outcome and leaves the same
    -- state, whether the lock is taken or not, and whether the block returns, raises or never ends.
    pub body_runs_locked :
        (other : Py W A) (w : W)
        → AgreeLocked depth body other
        → migration_lock db level id timeout body w ≡ migration_lock db level id timeout other w
    unfolding migration_lock
    body_runs_locked other w h =
        continue_agrees (db.acquire w).0 (λ _. block body) (λ _. block other) (db.acquire w).1
          λ _ _. ap (λ q. conclude q.0 db.release q.1) (within (db.acquire w).1)
      where
        block : Py W A → Py W A
        block b =
            try_finally (try_acquire_lock db id timeout >>= locked_body db level id b) db.release

        within :
            (t : W)
            → (try_acquire_lock db id timeout >>= locked_body db level id body) t
              ≡ (try_acquire_lock db id timeout >>= locked_body db level id other) t
        within t =
            continue_agrees (try_acquire_lock db id timeout t).0 (locked_body db level id body)
              (locked_body db level id other) (try_acquire_lock db id timeout t).1
              λ acquired e.
                locked_agrees other acquired (try_acquire_lock db id timeout t).1
                  (λ yes_taken. acquire_held timeout t (e ∙ ap ok yes_taken)) h

    locked_body_frees :
        (acquired : Bool) (t : W)
        → is_enabled level Level.debug ≡ false
        → depth t ≤ 1
        → (acquired ≡ false → depth t ≡ 0)
        → ((t : W) → (db.advisory_unlock id t).0 ≡ ok tt)
        → ((t : W) → ((body t).0 ≢ diverged) × (depth (body t).1 ≤ depth t))
        → depth (locked_body db level id body acquired t).1 ≡ 0
    unfolding locked_body release_lock
    locked_body_frees false t quiet once free unlocks ends = free refl
    locked_body_frees true t quiet once free unlocks ends =
        ground (arith, ends t, unlocks (body t).1, laws.unlocked (body t).1)

    -- With debug messages off, from a state where the session does not hold the lock, if every lock
    -- query is answered and every unlock returns, the session holds the lock no more behind the
    -- block, and needs no help of the pool for it: the body may return or raise, but has to end,
    -- and to give back what it takes of the lock itself.
    pub lock_released :
        (w : W)
        → is_enabled level Level.debug ≡ false
        → depth w ≡ 0
        → IsAnswered db id
        → ((t : W) → (db.advisory_unlock id t).0 ≡ ok tt)
        → ((t : W) → ((body t).0 ≢ diverged) × (depth (body t).1 ≤ depth t))
        → depth (migration_lock db level id timeout body w).1 ≡ 0
    unfolding migration_lock
    lock_released w quiet free answered unlocks ends =
        let t = (db.acquire w).1 in
        let u = (try_acquire_lock db id timeout t).1 in
        ground (
          arith,
          laws.acquire_takes_none w,
          acquire_once timeout t answered,
          locked_body_frees true u quiet,
          locked_body_frees false u quiet,
          laws.release_takes_none u,
          laws.release_takes_none (locked_body db level id body true u).1,
          laws.release_takes_none (locked_body db level id body false u).1,
        )

module _ {W A : Type 0} (db : Database W) (level : Level) (id : ℕ) (body : Py W A) where
  -- If the unlock fails behind a body that has returned, and debug messages are off, the value
  -- that the body computed is kept only where warnings are disabled: where they are enabled, the
  -- warning's keyword fields raise `TypeError` in its place.
  pub failed_unlock :
      (t : W) (a : A) (e : Exc)
      → is_enabled level Level.debug ≡ false
      → (body t).0 ≡ ok a
      → (db.advisory_unlock id (body t).1).0 ≡ raised e
      → (locked_body db level id body true t).0
        ≡ (if is_enabled level Level.warning then raised type_error else ok a)
  unfolding locked_body release_lock
  failed_unlock t a e quiet returned failed = ground arith
