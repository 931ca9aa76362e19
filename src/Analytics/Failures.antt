-- ===== src/Analytics/Failures.antt =====
-- The failures of the overview's route: app/api/analytics_router.py.
use mathlib.Core.Path.{subst}
use df_local_foundation.Prelude.{
  ◌≡◌, ◌⊎◌, inl, inr, refl, ap, String, List, Bool, true, false, ◌+◌, ◌-◌, ◌*◌, suc, ltb,
  if◌then◌else◌,
}
use df_local_foundation.Prelude.Int.{ℤ, pos, negsuc}
use df_local_foundation.Contract.{Time}
use df_local_foundation.Runtime.{
  analytics, unavailable, read_error, http_exception, overflow_error, Exc, Outcome, ok, raised,
  diverged, Py, ◌>>=◌, Level,
}
use df_local_foundation.Runtime.Pure
use df_local_foundation.Web.Reader.{Connection, read}
use df_local_foundation.Web.Reader.Connections.{read_raises}
use df_local_foundation.Web.Routes.{route, lift}
use df_local_foundation.Analytics.{SystemsResponse, FreshnessResponse}
use df_local_foundation.Analytics.Queue.{
  QueueRow, QueueResponse, last_time, stale_before_at, compute_queue_response,
}
use df_local_foundation.Analytics.Overview.{OverviewResponse, compose_overview_response}
use df_local_foundation.Analytics.Handlers.{
  Tables, fetch_system_rows, fetch_queue_rows, fetch_freshness_rows, build_systems_response,
  build_queue_response, build_freshness_response, build_overview_response, get_overview,
}

-- Whatever a coroutine raises satisfies `P`.
record Raises {S A : Type 0} (P : Exc → Type 0) (m : Py S A) : Type 0 where
  raises : (s : S) (e : Exc) → (m s).0 ≡ raised e → P e

module _ {S A : Type 0} (P : Exc → Type 0) where
  Raises-lift : (o : Outcome A) → ((e : Exc) → o ≡ raised e → P e) → Raises {S = S} P (lift o)
  Raises-lift o h = record { raises = λ s. h }

  module _ {B : Type 0} where
    Raises-bind :
        (m : Py S A) (f : A → Py S B) → Raises P m → ((a : A) → Raises P (f a)) → Raises P (m >>= f)
    Raises-bind m f h k = record { raises = λ s e. by_first s e (m s) refl }
      where
        by_first :
            (s : S) (e : Exc) (q : Outcome A × S) → m s ≡ q → ((m >>= f) s).0 ≡ raised e → P e
        by_first s e (ok a, t) c d = (k a).raises t e (rw c at d)
        by_first s e (raised x, t) c d =
            let d' : ◌≡◌ {A = Outcome B} (raised x) (raised e) = rw c at d in
            let same : x ≡ e = cc d' in
            subst P same (h.raises s x (ap (λ (q : Outcome A × S). q.0) c))
        by_first s e (diverged, t) c d =
            let d' : ◌≡◌ {A = Outcome B} diverged (raised e) = rw c at d in cc d'

-- The read error of the analytics, and the error of a time out of range.
abbrev IsExpected : Exc → Type 0
IsExpected e = (e ≡ read_error analytics) ⊎ (e ≡ overflow_error)

-- A test that either raises this error or returns.
overflow_only :
    {A : Type 0} (b : Bool) (a : A) (e : Exc)
    → (if b then raised overflow_error else ok a) ≡ raised e
    → e ≡ overflow_error
overflow_only true a e h = cc h
overflow_only false a e h = cc h

raised_before :
    {A B : Type 0} (m : Outcome A) (f : A → B) (e : Exc)
    → Pure.◌>>=◌ m (λ a. ok (f a)) ≡ raised e
    → m ≡ raised e
raised_before (ok a) f e h = cc h
raised_before (raised x) f e h = cc h
raised_before diverged f e h = cc h

module _ {W : Type 0} (db : Connection W) (tables : Tables W) (level : Level) (iso : Time → String)
    (aging_threshold stale_threshold grace : ℤ) where
  read-Raises : {A : Type 0} (body : Py W A) → Raises IsExpected (read db level analytics body)
  read-Raises body = record { raises = λ w e h. inl (read_raises db level analytics body w e h) }

  stale_before_at-IsExpected :
      (now : Time) (e : Exc) → stale_before_at now grace ≡ raised e → IsExpected e
  unfolding stale_before_at
  stale_before_at-IsExpected now e h = by_grace grace h
    where
      by_grace : (g : ℤ) → stale_before_at now g ≡ raised e → IsExpected e
      by_grace (pos g) h = inr (overflow_only (ltb now (g * 1000000)) (now - g * 1000000) e h)
      by_grace (negsuc n) h =
          inr (overflow_only (ltb last_time (now + suc n * 1000000)) (now + suc n * 1000000) e h)

  queue-IsExpected :
      (rows : List QueueRow) (now : Time) (e : Exc)
      → compute_queue_response iso grace rows now ≡ raised e
      → IsExpected e
  unfolding compute_queue_response
  queue-IsExpected rows now e h =
      stale_before_at-IsExpected now e (raised_before (stale_before_at now grace) _ e h)

  compose-IsExpected :
      (systems : SystemsResponse) (queue : QueueResponse) (freshness : FreshnessResponse)
      (now : Time) (e : Exc)
      → compose_overview_response iso systems queue freshness now ≡ raised e
      → IsExpected e
  unfolding compose_overview_response
  compose-IsExpected systems queue freshness now e h =
      inr (overflow_only (ltb now 3600000000) _ e h)

  overview-Raises :
      (now : Time)
      → Raises IsExpected
          (build_overview_response db tables level iso aging_threshold stale_threshold grace now)
  unfolding build_overview_response build_systems_response build_queue_response
      build_freshness_response fetch_system_rows fetch_queue_rows fetch_freshness_rows
  overview-Raises now =
      Raises-bind IsExpected _ _
        (Raises-bind IsExpected _ _ (read-Raises _) λ rows. Raises-lift IsExpected _ λ e h. cc)
        λ systems.
          Raises-bind IsExpected _ _
            (Raises-bind IsExpected _ _ (read-Raises _)
              λ rows. Raises-lift IsExpected _ (queue-IsExpected rows now))
            λ queue.
              Raises-bind IsExpected _ _
                (Raises-bind IsExpected _ _ (read-Raises _)
                  λ rows. Raises-lift IsExpected _ λ e h. cc)
                λ freshness.
                  Raises-lift IsExpected _ (compose-IsExpected systems queue freshness now)

  -- The overview reads three times. Whatever fails, its route raises nothing but the 503 of an
  -- unavailable service, or the error of a time that cannot be represented.
  pub get_overview_raises :
      (now : Time) (w : W) (e : Exc)
      → (get_overview db tables level iso aging_threshold stale_threshold grace now w).0 ≡ raised e
      → (e ≡ http_exception 503 (unavailable "analytics_read_failure")) ⊎ (e ≡ overflow_error)
  unfolding get_overview route
  get_overview_raises now w e h = by_built (build now w) refl
    where
      build : Time → Py W OverviewResponse
      build = build_overview_response db tables level iso aging_threshold stale_threshold grace

      by_expected :
          (x : Exc) (v : W)
          → IsExpected x
          → build now w ≡ (raised x, v)
          → (e ≡ http_exception 503 (unavailable "analytics_read_failure")) ⊎ (e ≡ overflow_error)
      by_expected x v (inl named) c =
          let c' : build now w ≡ (raised (read_error analytics), v) =
            subst (λ (y : Exc). build now w ≡ (raised y, v)) named c in
          let d : ◌≡◌ {A = Outcome OverviewResponse}
              (raised (http_exception 503 (unavailable "analytics_read_failure"))) (raised e) =
            rw c' at h in
          inl (cc d)
      by_expected x v (inr named) c =
          let c' : build now w ≡ (raised overflow_error, v) =
            subst (λ (y : Exc). build now w ≡ (raised y, v)) named c in
          let d : ◌≡◌ {A = Outcome OverviewResponse} (raised overflow_error) (raised e) =
            rw c' at h in
          inr (cc d)

      by_built :
          (q : Outcome OverviewResponse × W)
          → build now w ≡ q
          → (e ≡ http_exception 503 (unavailable "analytics_read_failure")) ⊎ (e ≡ overflow_error)
      by_built (ok o, v) c =
          let d : ◌≡◌ {A = Outcome OverviewResponse} (ok o) (raised e) = rw c at h in cc d
      by_built (raised x, v) c =
          by_expected x v
            ((overview-Raises now).raises w x (ap (λ (q : Outcome OverviewResponse × W). q.0) c)) c
      by_built (diverged, v) c =
          let d : ◌≡◌ {A = Outcome OverviewResponse} diverged (raised e) = rw c at h in cc d
