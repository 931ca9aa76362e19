-- ===== src/Lifecycle/Startup.antt =====
-- `start`, with a database and without one, and `stop`.
use df_local_foundation.Prelude.{
  ◌≡◌, refl, ◌∙◌, ◌≢◌, true, none, some, arith, Bool-cases, inl, inr, if◌then◌else◌,
}
use df_local_foundation.Contract.{LifecycleState, Time, unavailable, connection_failure}
use df_local_foundation.Config.{FoundationSettings}
use df_local_foundation.Runtime.{
  Exc, type_error, lifecycle_start_error, Outcome, ok, raised, diverged, Py, ◌>>◌, Level,
  is_enabled, branch,
}
use df_local_foundation.Runtime.Rules.{OnOk, of_ok, continue_at}
use mathlib.Core.Path.{subst}
use df_local_foundation.Database.{Database, HealthEvent}
use df_local_foundation.Lifecycle.{
  LifecycleManager, bare_state, report, locked_check_and_migrate, status, stop, started_or_now,
}
use df_local_foundation.Lifecycle.{
  start, start_connected, start_failed, connect, log_health_event, on_world,
}
use df_local_foundation.Lifecycle.Coherence.{
  IsCoherent, locked_check-Reports, unavailable-IsCoherent,
}
use df_local_foundation.Config.{connection_string}

module _ {W : Type 0} (db : Database W) (level : Level) where
  -- If no pool can be made, `start` does not return a state. Where errors are not logged, it raises
  -- `LifecycleStartError` with the unavailable state of a connection failure, which it keeps; at
  -- the usual level the log call raises `TypeError` first, and no state is kept.
  pub start_without_pool :
      (s : LifecycleManager W) (e : Exc)
      → (db.create_pool (connection_string s.settings) s.world).0 ≡ raised e
      → let (r, t) = start db level s in
        (t.has_pool ≡ s.has_pool)
        × (if is_enabled level Level.error
            then (r ≡ raised type_error) × (t.current_state ≡ s.current_state)
            else ((st : LifecycleState) × (r ≡ raised (lifecycle_start_error connection_failure st))
                × (t.current_state ≡ some st)
                × IsCoherent s.settings.df_local_app_mode st
                × (st.status ≡ unavailable)))
  unfolding start start_failed connect
  start_without_pool s e failed = elim (Bool-cases (is_enabled level Level.error)) [
    | inl loud ↦ rw (failed, loud) (refl, (refl, refl))
    | inr quiet ↦ rw (failed, quiet) (refl, (state, refl, refl, coherent, refl))
  ]
    where
      state : LifecycleState
      state =
          bare_state s.settings unavailable "unknown" true (db.now s.world)
            (some connection_failure)

      coherent : IsCoherent s.settings.df_local_app_mode state
      coherent =
          unavailable-IsCoherent db level s.settings "unknown" (db.now s.world) connection_failure

  connect_lem :
      (s : LifecycleManager W)
      → ((connect db level s).1.settings ≡ s.settings)
        × ((connect db level s).0 ≡ ok tt → (connect db level s).1.has_pool ≡ true)
  unfolding connect
  connect_lem s = ground arith

  pool-log_health_event :
      (event : HealthEvent) (s : LifecycleManager W)
      → (log_health_event db level event s).1.has_pool ≡ s.has_pool
  unfolding log_health_event
  pool-log_health_event event s = ground arith

  kept_state :
      (s : LifecycleManager W) (st : LifecycleState)
      → (start_connected db level s).0 ≡ ok st
      → ((start_connected db level s).1.current_state ≡ some st)
        × ((start_connected db level s).1.has_pool ≡ s.has_pool)
  unfolding start_connected
  kept_state s st h = grind (arith, pool-log_health_event)

  connected-IsCoherent :
      (s : LifecycleManager W)
      → OnOk (IsCoherent s.settings.df_local_app_mode) (start_connected db level s).0
  unfolding start_connected
  connected-IsCoherent s =
      continue_at (IsCoherent s.settings.df_local_app_mode) (checked s).0 after (checked s).1
        λ state e.
          continue_at (IsCoherent s.settings.df_local_app_mode)
            (log_health_event db level (event state) (checked s).1).0 (λ _. keep state)
            (log_health_event db level (event state) (checked s).1).1
            λ _ _.
              of_ok (IsCoherent s.settings.df_local_app_mode)
                (locked_check_and_migrate db level s.settings s.started_at s.world).0 state
                ((locked_check-Reports db level s.settings s.started_at).at s.world) e
    where
      checked : Py (LifecycleManager W) LifecycleState
      checked = on_world db level (locked_check_and_migrate db level s.settings s.started_at)

      event : LifecycleState → HealthEvent
      event state = record {
        app_id = "core";
        previous_status = none;
        new_status = state.status;
        error_class = state.last_error_class;
      }

      keep : LifecycleState → Py (LifecycleManager W) LifecycleState
      keep state t = (ok state, record t { current_state = some state })

      after : LifecycleState → Py (LifecycleManager W) LifecycleState
      after state = log_health_event db level (event state) >> keep state

  start_failed-raises :
      (now : Time) (t : LifecycleManager W) (st : LifecycleState)
      → (start_failed db level now t).0 ≢ ok st
  unfolding start_failed
  start_failed-raises now t st = ground arith

  -- A state that `start` returns is coherent, it is the one that the manager keeps, and the manager
  -- has a pool.
  pub start-IsCoherent :
      (s : LifecycleManager W) (st : LifecycleState)
      → (start db level s).0 ≡ ok st
      → IsCoherent s.settings.df_local_app_mode st
        × ((start db level s).1.current_state ≡ some st)
        × ((start db level s).1.has_pool ≡ true)
  unfolding start
  start-IsCoherent s st h =
      let begun : LifecycleManager W = record s { started_at = some (db.now s.world) } in
      by_connect (connect db level begun).0 (connect db level begun).1 (connect_lem begun).0
        (connect_lem begun).1 h
    where
      fails : Exc → Py (LifecycleManager W) LifecycleState
      fails _ = start_failed db level (db.now s.world)

      runs : Unit {0} → Py (LifecycleManager W) LifecycleState
      runs _ = start_connected db level

      by_connect :
          (r : Outcome (Unit {0})) (t : LifecycleManager W)
          → t.settings ≡ s.settings
          → (r ≡ ok tt → t.has_pool ≡ true)
          → (branch r fails runs t).0 ≡ ok st
          → IsCoherent s.settings.df_local_app_mode st
            × ((branch r fails runs t).1.current_state ≡ some st)
            × ((branch r fails runs t).1.has_pool ≡ true)
      by_connect (ok tt) t same pool e = (
        subst (λ (x : FoundationSettings). IsCoherent x.df_local_app_mode st) same
            (of_ok (IsCoherent t.settings.df_local_app_mode) (start_connected db level t).0 st
              (connected-IsCoherent t) e),
        (kept_state t st e).0,
        (kept_state t st e).1 ∙ pool refl,
      )
      by_connect (raised x) t same pool e = absurd (start_failed-raises (db.now s.world) t st e)
      by_connect diverged t same pool e = cc

  -- `stop` leaves no pool if the pool's own close returns, and from then on `status` reports
  -- the unavailable state of a connection failure and changes nothing, without a call of the database.
  pub status_after_stop :
      (s : LifecycleManager W)
      → (stop db level s).0 ≡ ok tt
      → let t = (stop db level s).1 in
        status db level t ≡ (
          ok (
              bare_state t.settings unavailable "unknown" true
                (started_or_now db level t.settings t.started_at t.world)
                (some connection_failure)),
          t,
        )
  unfolding stop status report
  status_after_stop s h = ground arith
