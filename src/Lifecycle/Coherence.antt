-- ===== src/Lifecycle/Coherence.antt =====
-- The fields of the states that `LifecycleManager` reports.
use df_local_foundation.Prelude.{
  ℕ, ◌≡◌, refl, ◌≢◌, ◌↔◌, Bool, true, false, not, String, Option, none, some, str_eq, eq_iff,
  Bool-cases, inl, inr,
}
use df_local_foundation.Contract.{
  AppMode, ErrorClass, LifecycleState, Time, ready, degraded, unavailable, migrating,
  connection_failure, migration_failure,
}
use df_local_foundation.Config.{FoundationSettings}
use df_local_foundation.Runtime.{
  Exc, migration_lock_timeout, ok, Py, ◌>>=◌, ◌>>◌, try_finally, Level, log_fields,
}
use df_local_foundation.Runtime.Rules.{
  Returns, OnOk, of_ok, Returns-raise, Returns-bind, Returns-try_except, Returns-try_else,
  Returns-try_finally,
}
use df_local_foundation.Database.{Database}
use df_local_foundation.MigrationLock.{
  migration_advisory_lock_id, default_lock_timeout, try_acquire_lock, release_lock, migration_lock,
  locked_body,
}
use df_local_foundation.Lifecycle.{
  LifecycleManager, bare_state, is_pending, or_none, report, check_version, check_and_migrate,
  contention_handler, locked_check_and_migrate, status, started_or_now, get_core_schema_version,
  expected_core_version,
}

-- Ready means: no migration is required and the schema is the expected one. Unavailable, and only
-- that, carries an error class. The other statuses require a migration; none is `degraded`.
pub record IsCoherent (mode : AppMode) (s : LifecycleState) : Type 0 where
  pub ready_iff : (s.status ≡ ready) ↔ (s.migration_required ≡ false)
  pub ready_version : s.status ≡ ready → s.schema_version ≡ s.expected_schema_version
  pub expected : s.expected_schema_version ≡ "0002"
  pub error_iff : (s.status ≡ unavailable) ↔ (s.last_error_class ≢ none)
  pub not_degraded : s.status ≢ degraded
  pub mode_kept : s.app_mode ≡ mode

module _ {W : Type 0} (db : Database W) (level : Level) (settings : FoundationSettings) where
  pub unavailable-IsCoherent :
      (version : String) (t : Time) (e : ErrorClass)
      → IsCoherent settings.df_local_app_mode
          (bare_state settings unavailable version true t (some e))
  unavailable-IsCoherent version t e = record {
    ready_iff = (λ h. cc, λ h. cc);
    ready_version = λ h. cc;
    expected = refl;
    error_iff = (λ _ h. cc, λ _. refl);
    not_degraded = λ h. cc;
    mode_kept = refl;
  }

  migrating-IsCoherent :
      (version : String) (t : Time)
      → IsCoherent settings.df_local_app_mode (bare_state settings migrating version true t none)
  migrating-IsCoherent version t = record {
    ready_iff = (λ h. cc, λ h. cc);
    ready_version = λ h. cc;
    expected = refl;
    error_iff = (λ h. cc, λ h. absurd (h refl));
    not_degraded = λ h. cc;
    mode_kept = refl;
  }

  ready-IsCoherent :
      (version : String) (t : Time)
      → version ≡ expected_core_version
      → IsCoherent settings.df_local_app_mode (bare_state settings ready version false t none)
  ready-IsCoherent version t e = record {
    ready_iff = (λ _. refl, λ _. refl);
    ready_version = λ _. e;
    expected = refl;
    error_iff = (λ h. cc, λ h. absurd (h refl));
    not_degraded = λ h. cc;
    mode_kept = refl;
  }

  current_version :
      (current : Option String)
      → is_pending current ≡ false
      → or_none current ≡ expected_core_version
  current_version none h = cc
  current_version (some v) h =
      rw ((eq_iff v expected_core_version).0 (not_false (str_eq v expected_core_version) h))
    where
      not_false : (b : Bool) → not b ≡ false → b ≡ true
      not_false true h = refl
      not_false false h = cc

  abbrev Reports : Py W LifecycleState → Type 0
  Reports = Returns (IsCoherent settings.df_local_app_mode)

  check_version-Reports :
      (started : Option Time) (current : Option String)
      → Reports (check_version db level settings started current)
  unfolding check_version report
  check_version-Reports started current = elim (Bool-cases (is_pending current)) [
    | inl pending ↦ rw pending (
        Returns-bind (log_fields level Level.info)
          (λ _. report db level settings started migrating (or_none current) true none)
          λ _. record {
            at = λ w.
                migrating-IsCoherent (or_none current) (started_or_now db level settings started w);
          })
    | inr up_to_date ↦ rw up_to_date (record {
      at = λ w.
          ready-IsCoherent (or_none current) (started_or_now db level settings started w)
            (current_version current up_to_date);
    })
  ]

  check_and_migrate-Reports :
      (started : Option Time) → Reports (check_and_migrate db level settings started)
  unfolding check_and_migrate report
  check_and_migrate-Reports started =
      Returns-try_else (get_core_schema_version db level settings) (λ _. failed)
        (check_version db level settings started)
        (λ _.
          Returns-bind (log_fields level Level.error) (λ _. unknown)
            λ _. record {
              at = λ w.
                  unavailable-IsCoherent "unknown" (started_or_now db level settings started w)
                    migration_failure;
            })
        (check_version-Reports started)
    where
      unknown : Py W LifecycleState
      unknown = report db level settings started unavailable "unknown" true (some migration_failure)

      failed : Py W LifecycleState
      failed = log_fields level Level.error >> unknown

  contention-Reports :
      (started : Option Time) (e : Exc) → Reports (contention_handler db level settings started e)
  unfolding contention_handler report
  contention-Reports started migration_lock_timeout = record {
    at = λ w. migrating-IsCoherent "unknown" (started_or_now db level settings started w);
  }
  contention-Reports started e = Returns-raise e

  lock-Reports :
      (id timeout : ℕ) (body : Py W LifecycleState)
      → Reports body
      → Reports (migration_lock db level id timeout body)
  unfolding migration_lock locked_body
  lock-Reports id timeout body h =
      Returns-bind db.acquire (λ _. try_finally within db.release)
        λ _.
          Returns-try_finally within db.release
            (Returns-bind (try_acquire_lock db id timeout) (locked_body db level id body) held)
    where
      within : Py W LifecycleState
      within = try_acquire_lock db id timeout >>= locked_body db level id body

      leave : Py W (Unit {0})
      leave = release_lock db level id >> log_fields level Level.debug

      held : (acquired : Bool) → Reports (locked_body db level id body acquired)
      held true =
          Returns-bind (log_fields level Level.debug) (λ _. try_finally body leave)
            λ _. Returns-try_finally body leave h
      held false = Returns-raise migration_lock_timeout

  -- Whatever the database answers, a state that a check under the lock returns is coherent.
  pub locked_check-Reports :
      (started : Option Time) → Reports (locked_check_and_migrate db level settings started)
  unfolding locked_check_and_migrate
  locked_check-Reports started =
      let body = check_and_migrate db level settings started in
      Returns-try_except
        (migration_lock db level migration_advisory_lock_id default_lock_timeout body)
        (contention_handler db level settings started)
        (lock-Reports migration_advisory_lock_id default_lock_timeout body
          (check_and_migrate-Reports started))
        (contention-Reports started)

module _ {W : Type 0} (db : Database W) (level : Level) where
  -- The state that `status` returns is coherent, whatever the database answers.
  pub status-IsCoherent :
      (s : LifecycleManager W) (st : LifecycleState)
      → (status db level s).0 ≡ ok st
      → IsCoherent s.settings.df_local_app_mode st
  unfolding status report
  status-IsCoherent s st h =
      of_ok (IsCoherent s.settings.df_local_app_mode) (status db level s).0 st outcome h
    where
      outcome : OnOk (IsCoherent s.settings.df_local_app_mode) (status db level s).0
      outcome = elim (Bool-cases s.has_pool) [
        | inl pool ↦ rw pool ((locked_check-Reports db level s.settings s.started_at).at s.world)
        | inr no_pool ↦ rw no_pool (
            unavailable-IsCoherent db level s.settings "unknown"
              (started_or_now db level s.settings s.started_at s.world) connection_failure)
      ]
