-- ===== src/Lifecycle/Readiness.antt =====
-- Reports of `ready` by core/lifecycle/manager.py.
use df_local_foundation.Prelude.{
  ℕ, ◌≤◌, ◌≡◌, refl, ap, sym, ◌∙◌, ◌⊎◌, Bool, true, false, not, String, Option, none, some, str_eq,
  eq_iff, Bool-cases, inl, inr,
}
use df_local_foundation.Contract.{
  LifecycleState, Time, ready, unavailable, connection_failure, migration_failure,
}
use df_local_foundation.Config.{FoundationSettings}
use df_local_foundation.Runtime.{
  Exc, undefined_table_error, migration_lock_timeout, Outcome, ok, raised, diverged, Py, ◌>>=◌,
  ◌>>◌, try_finally, Level, is_enabled, log_fields, branch, handle,
}
use df_local_foundation.Runtime.Rules.{OnOk, OnOk-map, of_ok, conclude-OnOk, continue_at}
use df_local_foundation.Database.{Database}
use df_local_foundation.MigrationLock.{
  migration_advisory_lock_id, default_lock_timeout, try_acquire_lock, release_lock, locked_body,
  migration_lock,
}
use df_local_foundation.MigrationLock.Scope.{LockLaws, acquire_held}
use df_local_foundation.Lifecycle.{
  LifecycleManager, bare_state, is_pending, report, check_version, check_and_migrate,
  version_handler, contention_handler, locked_check_and_migrate, status, started_or_now,
  get_core_schema_version, expected_core_version,
}

expected_version :
    (current : Option String) → is_pending current ≡ false → current ≡ some expected_core_version
expected_version none h = cc
expected_version (some v) h =
    ap some ((eq_iff v expected_core_version).0 (not_false (str_eq v expected_core_version) h))
  where
    not_false : (b : Bool) → not b ≡ false → b ≡ true
    not_false true h = refl
    not_false false h = cc

-- How the polling of the lock ends, on the connection that is taken in state `w`.
abbrev pub polled : {W : Type 0} → Database W → W → Outcome Bool × W
polled db w = try_acquire_lock db migration_advisory_lock_id default_lock_timeout (db.acquire w).1

module _ {W : Type 0} (db : Database W) (level : Level) where
  -- A report of `ready` rests on the version that is read from state `w`.
  abbrev WasRead : W → LifecycleState → Type 0
  WasRead w st = st.status ≡ ready → (db.fetch_core_version w).0 ≡ ok (some "0002")

  version_from :
      (settings : FoundationSettings) (started : Option Time) (w t : W) (current : Option String)
      → (is_pending current ≡ false → (db.fetch_core_version w).0 ≡ ok current)
      → OnOk (WasRead w) (check_version db level settings started current t).0
  unfolding check_version report
  version_from settings started w t current read = elim (Bool-cases (is_pending current)) [
    | inl pending ↦ elim (Bool-cases (is_enabled level Level.info)) [
      | inl loud ↦ rw (pending, loud) tt
      | inr quiet ↦ rw (pending, quiet) (λ h. cc)
    ]
    | inr up_to_date ↦
        rw up_to_date (λ h. read up_to_date ∙ ap ok (expected_version current up_to_date))
  ]

  version_handler-cases :
      (settings : FoundationSettings) (e : Exc) (t : W)
      → (version_handler db level settings e t ≡ (ok none, t))
        ⊎ (version_handler db level settings e t ≡ (raised e, t))
  unfolding version_handler
  version_handler-cases settings undefined_table_error t = inl refl
  version_handler-cases settings e t = inr refl

  -- The handler of a failed version check reports no `ready`.
  failed_from :
      (settings : FoundationSettings) (started : Option Time) (w t : W)
      → OnOk
          (WasRead w)
          ((log_fields level Level.error
              >> report db level settings started unavailable "unknown" true
                  (some migration_failure))
            t).0
  unfolding report
  failed_from settings started w t = elim (Bool-cases (is_enabled level Level.error)) [
    | inl loud ↦ rw loud tt
    | inr quiet ↦ rw quiet (λ h. cc)
  ]

  check_from :
      (settings : FoundationSettings) (started : Option Time) (w : W)
      → OnOk (WasRead w) (check_and_migrate db level settings started w).0
  unfolding check_and_migrate get_core_schema_version
  check_from settings started w =
      by_outcome (db.fetch_core_version w).0 (db.fetch_core_version w).1 refl
    where
      failed : Exc → Py W LifecycleState
      failed _ =
          log_fields level Level.error
          >> report db level settings started unavailable "unknown" true (some migration_failure)

      by_handled :
          (q : Outcome (Option String) × W) (e : Exc) (t : W)
          → (q ≡ (ok none, t)) ⊎ (q ≡ (raised e, t))
          → OnOk (WasRead w) (branch q.0 failed (check_version db level settings started) q.1).0
      by_handled q e t (inl p) = rw p (version_from settings started w t none (λ h. cc))
      by_handled q e t (inr p) = rw p (failed_from settings started w t)

      by_outcome :
          (r : Outcome (Option String)) (t : W)
          → (db.fetch_core_version w).0 ≡ r
          → let (r', t') = handle r (version_handler db level settings) t in
            OnOk (WasRead w) (branch r' failed (check_version db level settings started) t').0
      by_outcome (ok current) t e = version_from settings started w t current (λ _. e)
      by_outcome (raised x) t e =
          by_handled (version_handler db level settings x t) x t
            (version_handler-cases settings x t)
      by_outcome diverged t e = tt

  -- The same with what comes before the read: the lock was taken.
  abbrev WasLocked : W → LifecycleState → Type 0
  WasLocked w st =
      st.status ≡ ready
      → ((polled db w).0 ≡ ok true) × ((db.fetch_core_version (polled db w).1).0 ≡ ok (some "0002"))

  locked_from :
      (body : Py W LifecycleState) (w : W)
      → ((t : W) → OnOk (WasRead t) (body t).0)
      → (acquired : Bool) → (polled db w).0 ≡ ok acquired
      → OnOk
          (WasLocked w)
          (locked_body db level migration_advisory_lock_id body acquired (polled db w).1).0
  unfolding locked_body
  locked_from body w h false e = tt
  locked_from body w h true e = elim (Bool-cases (is_enabled level Level.debug)) [
    | inl loud ↦ rw loud tt
    | inr quiet ↦ rw quiet (
        conclude-OnOk (WasLocked w) (body (polled db w).1).0
          (release_lock db level migration_advisory_lock_id >> log_fields level Level.debug)
          (body (polled db w).1).1
          (OnOk-map (WasRead (polled db w).1) (WasLocked w) (body (polled db w).1).0
            (λ st read up. (e, read up)) (h (polled db w).1)))
  ]

  block_from :
      (body : Py W LifecycleState) (w : W)
      → ((t : W) → OnOk (WasRead t) (body t).0)
      → OnOk
          (WasLocked w)
          (migration_lock db level migration_advisory_lock_id default_lock_timeout body w).0
  unfolding migration_lock
  block_from body w h =
      continue_at (WasLocked w) (db.acquire w).0 (λ _. try_finally block db.release)
        (db.acquire w).1
        λ _ _.
          conclude-OnOk (WasLocked w) (block (db.acquire w).1).0 db.release
            (block (db.acquire w).1).1
            (continue_at (WasLocked w) (polled db w).0
              (locked_body db level migration_advisory_lock_id body) (polled db w).1
              (locked_from body w h))
    where
      block : Py W LifecycleState
      block =
          try_acquire_lock db migration_advisory_lock_id default_lock_timeout
          >>= locked_body db level migration_advisory_lock_id body

  contention_from :
      (settings : FoundationSettings) (started : Option Time) (w : W) (e : Exc) (t : W)
      → OnOk (WasLocked w) (contention_handler db level settings started e t).0
  unfolding contention_handler report
  contention_from settings started w migration_lock_timeout t = λ h. cc
  contention_from settings started w e t = tt

  locked_check_from :
      (settings : FoundationSettings) (started : Option Time) (w : W)
      → OnOk (WasLocked w) (locked_check_and_migrate db level settings started w).0
  unfolding locked_check_and_migrate
  locked_check_from settings started w =
      let body = check_and_migrate db level settings started in
      let q = migration_lock db level migration_advisory_lock_id default_lock_timeout body w in
      handled q.0 q.1 (block_from body w (check_from settings started))
    where
      handled :
          (r : Outcome LifecycleState) (t : W)
          → OnOk (WasLocked w) r
          → OnOk (WasLocked w) (handle r (contention_handler db level settings started) t).0
      handled (ok a) t h = h
      handled (raised e) t h = contention_from settings started w e t
      handled diverged t h = tt

  -- If `status` reports `ready`, there is a pool, and in this run the migration lock was taken, from
  -- there the session holds it, and the core version that is read then, with the lock held, is the
  -- expected one, `0002`.
  pub ready_was_read :
      (depth : W → ℕ)
      → LockLaws db migration_advisory_lock_id depth
      → (s : LifecycleManager W) (st : LifecycleState) → (status db level s).0 ≡ ok st
      → st.status ≡ ready
      → (s.has_pool ≡ true)
        × ((polled db s.world).0 ≡ ok true)
        × (1 ≤ depth (polled db s.world).1)
        × ((db.fetch_core_version (polled db s.world).1).0 ≡ ok (some "0002"))
  unfolding status report
  ready_was_read depth laws s st h up = elim (Bool-cases s.has_pool) [
    | inl pool ↦
        let (taken, read) =
          of_ok (WasLocked s.world)
            (locked_check_and_migrate db level s.settings s.started_at s.world).0 st
            (locked_check_from s.settings s.started_at s.world) (rw pool at h) up in
        (
          pool,
          taken,
          acquire_held db migration_advisory_lock_id depth laws default_lock_timeout
              (db.acquire s.world).1 taken,
          read,
        )
    | inr no_pool ↦ cc (no_such (rw no_pool at h))
  ]
    where
      no_such :
          ok (
              bare_state s.settings unavailable "unknown" true
                (started_or_now db level s.settings s.started_at s.world)
                (some connection_failure))
            ≡ ok st
          → unavailable ≡ ready
      no_such e = of_ok (λ a. a.status ≡ ready) (ok st) _ up (sym e)
