-- ===== src/Web/Lifespan/Boot.antt =====
-- How a run of the application begins and ends.
use df_local_foundation.Prelude.{
  ◌≡◌, ◌≢◌, refl, ap, sym, ◌∙◌, Bool, true, false, some, Bool-cases, inl, inr, if◌then◌else◌,
}
use df_local_foundation.Contract.{unavailable, connection_failure}
use df_local_foundation.Config.{
  FoundationSettings, Validated, accepted, rejected, validate, connection_string,
}
use df_local_foundation.Runtime.{
  Exc, type_error, value_error, Outcome, ok, raised, diverged, Py, try_finally, Level, is_enabled,
}
use df_local_foundation.Database.{Database}
use df_local_foundation.Lifecycle.{
  LifecycleManager, start, stop, start_failed, start_connected, connect, bare_state,
  locked_check_and_migrate,
}
use df_local_foundation.Web.Lifespan.{new_manager, degraded_start, started, lifespan, run}

module _ {W : Type 0} (db : Database W) (level : Level) where
  -- Settings that the validators refuse are a hard stop: nothing outside the process is called.
  run_refuses :
      (settings : FoundationSettings) (serve : Py (LifecycleManager W) (Unit {0})) (w : W)
      → ((s : FoundationSettings) → validate settings ≢ accepted s)
      → run db level settings serve w ≡ (raised value_error, false, w)
  unfolding run
  run_refuses settings serve w refused = by_validated (validate settings) refl
    where
      by_validated :
          (v : Validated)
          → validate settings ≡ v
          → run db level settings serve w ≡ (raised value_error, false, w)
      by_validated (accepted s) e = absurd (refused s e)
      by_validated (rejected x) e = rw e

  -- The manager that is kept where no pool could be made and errors are not logged.
  abbrev degraded_manager : FoundationSettings → W → LifecycleManager W
  degraded_manager settings w =
      let state =
        bare_state settings unavailable "unknown" true (db.now w) (some connection_failure) in
      record {
        settings = settings;
        started_at = some (db.now w);
        has_pool = false;
        current_state = some state;
        world = (db.create_pool (connection_string settings) w).1;
      }

  -- Without a pool, `stop` does nothing.
  finally_without_pool :
      (serve : Py (LifecycleManager W) (Unit {0})) (s : LifecycleManager W)
      → (serve s).1.has_pool ≡ false
      → try_finally serve (stop db level) s ≡ serve s
  unfolding stop
  finally_without_pool serve s h = by_served (serve s).0 (serve s).1 refl h
    where
      by_served :
          (r : Outcome (Unit {0})) (t : LifecycleManager W)
          → serve s ≡ (r, t)
          → t.has_pool ≡ false
          → try_finally serve (stop db level) s ≡ serve s
      by_served (ok a) t e h = rw (e, h)
      by_served (raised x) t e h = rw (e, h)
      by_served diverged t e h = rw e

  stop_ends :
      (s : LifecycleManager W)
      → ((v : W) → (db.close_pool v).0 ≡ ok tt)
      → (u : LifecycleManager W) × (stop db level s ≡ (ok tt, u)) × (u.has_pool ≡ false)
  unfolding stop
  stop_ends s closes = by_pool s.has_pool refl
    where
      by_pool :
          (b : Bool)
          → s.has_pool ≡ b
          → (u : LifecycleManager W) × (stop db level s ≡ (ok tt, u)) × (u.has_pool ≡ false)
      by_pool true h = (
        record s { has_pool = false; world = (db.close_pool s.world).1 },
        rw (h, closes s.world),
        refl,
      )
      by_pool false h = (s, rw h, h)

  abbrev Ended : Type 0
  Ended = Outcome (Unit {0}) × Bool × W

  -- A run that comes to serve ends as the serving ends, and leaves no pool, if the serving ends and the
  -- close of a pool returns.
  pub run_closes :
      (settings : FoundationSettings) (serve : Py (LifecycleManager W) (Unit {0})) (w : W)
      (t : LifecycleManager W)
      → validate settings ≡ accepted settings
      → started db level (new_manager settings w) ≡ (ok tt, t)
      → (serve t).0 ≢ diverged
      → ((v : W) → (db.close_pool v).0 ≡ ok tt)
      → ((run db level settings serve w).0 ≡ (serve t).0)
        × ((run db level settings serve w).1 ≡ false)
  unfolding run lifespan
  run_closes settings serve w t valid up ends closes = by_served (serve t).0 (serve t).1 refl
    where
      by_served :
          (r : Outcome (Unit {0})) (s : LifecycleManager W)
          → serve t ≡ (r, s)
          → ((run db level settings serve w).0 ≡ (serve t).0)
            × ((run db level settings serve w).1 ≡ false)
      by_served diverged s e =
          absurd (ends (ap (λ (q : Outcome (Unit {0}) × LifecycleManager W). q.0) e))
      by_served (ok a) s e =
          let (u, done, gone) = stop_ends s closes in
          let whole : run db level settings serve w ≡ (ok a, u.has_pool, u.world) =
            rw (valid, up, e, done) in
          (
            ap (λ (q : Ended). q.0) whole
                ∙ ap (λ (q : Outcome (Unit {0}) × LifecycleManager W). q.0) (sym e),
            ap (λ (q : Ended). q.1) whole ∙ gone,
          )
      by_served (raised x) s e =
          let (u, done, gone) = stop_ends s closes in
          let whole : run db level settings serve w ≡ (raised x, u.has_pool, u.world) =
            rw (valid, up, e, done) in
          (
            ap (λ (q : Ended). q.0) whole
                ∙ ap (λ (q : Outcome (Unit {0}) × LifecycleManager W). q.0) (sym e),
            ap (λ (q : Ended). q.1) whole ∙ gone,
          )

  -- If no pool can be made: where errors are not logged, the application serves from a manager that has
  -- no pool and keeps the unavailable state, and the run ends as the serving ends; where errors are
  -- logged, as at the usual level, the run raises `TypeError` and serves nothing.
  pub run_without_pool :
      (settings : FoundationSettings) (serve : Py (LifecycleManager W) (Unit {0})) (w : W) (e : Exc)
      → validate settings ≡ accepted settings
      → (db.create_pool (connection_string settings) w).0 ≡ raised e
      → ((t : LifecycleManager W) → (serve t).1.has_pool ≡ t.has_pool)
      → run db level settings serve w ≡ (
          if is_enabled level Level.error
          then (raised type_error, false, (db.create_pool (connection_string settings) w).1)
          else (let (r, t) = serve (degraded_manager settings w) in (r, false, t.world)))
  unfolding run lifespan started start start_failed connect stop degraded_start
  run_without_pool settings serve w e valid failed keeps =
      elim (Bool-cases (is_enabled level Level.error)) [
        | inl loud ↦ rw (valid, failed, loud)
        | inr quiet ↦
            rw (valid, failed, quiet)
              (ap (λ (q : Outcome (Unit {0}) × LifecycleManager W). (q.0, q.1.has_pool, q.1.world))
                  (finally_without_pool serve (degraded_manager settings w)
                    (keeps (degraded_manager settings w)))
                ∙ ap
                    (λ b. (
                      (serve (degraded_manager settings w)).0,
                      b,
                      (serve (degraded_manager settings w)).1.world,
                    ))
                    (keeps (degraded_manager settings w)))
      ]

  -- A check that raises anything but `LifecycleStartError` behind the connection ends the run: nothing
  -- is served, and the pool that was made is left open.
  pub run_leaves_pool :
      (settings : FoundationSettings) (serve : Py (LifecycleManager W) (Unit {0})) (w v u : W)
      (e : Exc)
      → validate settings ≡ accepted settings
      → db.create_pool (connection_string settings) w ≡ (ok tt, v)
      → locked_check_and_migrate db level settings (some (db.now w)) v ≡ (raised e, u)
      → ((s : LifecycleManager W) → degraded_start db level e s ≡ (raised e, s))
      → run db level settings serve w ≡ (raised e, true, u)
  unfolding run lifespan started start start_connected connect
  run_leaves_pool settings serve w v u e valid made fails other = rw (valid, made, fails, other _)
