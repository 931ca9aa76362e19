-- ===== src/Tests/Lifespan.antt =====
-- Runs of the application of app/main.py on the test site.
use df_local_foundation.Prelude.{◌≡◌, refl, true, false, some}
use df_local_foundation.Config.{accepted, validate, is_lower_in}
use df_local_foundation.Runtime.{driver_error, type_error, Outcome, ok, raised, Py, pure, Level}
use df_local_foundation.Lifecycle.{LifecycleManager, locked_check_and_migrate}
use df_local_foundation.Web.Lifespan.{new_manager, degraded_start, started, run}
use df_local_foundation.Web.Lifespan.Boot.{run_without_pool, run_closes, run_leaves_pool}
use df_local_foundation.Tests.Site.{
  Site, database, dev_settings, good_site, down_site, broken_site, running,
}

-- Serving that does nothing.
abbrev idle : Py (LifecycleManager Site) (Unit {0})
idle = pure tt

dev_valid : validate dev_settings ≡ accepted dev_settings
unfolding validate is_lower_in
dev_valid = refl

run_without_pool_example :
    run database Level.warning dev_settings idle down_site ≡ (raised type_error, false, down_site)
run_without_pool_example =
    run_without_pool database Level.warning dev_settings idle down_site (driver_error 1) dev_valid
      refl (λ t. refl)

abbrev manager_of : Outcome (Unit {0}) × LifecycleManager Site → LifecycleManager Site
manager_of (r, t) = t

abbrev up : LifecycleManager Site
up = manager_of (started database Level.warning (new_manager dev_settings good_site))

comes_up : started database Level.warning (new_manager dev_settings good_site) ≡ (ok tt, up)
unfolding started degraded_start running
comes_up = refl

run_closes_example :
    ((run database Level.warning dev_settings idle good_site).0 ≡ ok tt)
    × ((run database Level.warning dev_settings idle good_site).1 ≡ false)
run_closes_example =
    run_closes database Level.warning dev_settings idle good_site up dev_valid comes_up (λ h. cc)
      (λ v. refl)

abbrev world_of : {A : Type 0} → Outcome A × Site → Site
world_of (r, w) = w

abbrev broken : Site
broken =
    world_of (locked_check_and_migrate database Level.warning dev_settings (some 3000) broken_site)

check_fails :
    locked_check_and_migrate database Level.warning dev_settings (some 3000) broken_site
    ≡ (raised type_error, broken)
unfolding running
check_fails = refl

run_leaves_pool_example :
    run database Level.warning dev_settings idle broken_site ≡ (raised type_error, true, broken)
unfolding degraded_start
run_leaves_pool_example =
    run_leaves_pool database Level.warning dev_settings idle broken_site broken_site broken
      type_error dev_valid refl check_fails (λ s. refl)
