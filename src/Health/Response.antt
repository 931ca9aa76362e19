-- ===== src/Health/Response.antt =====
-- The health responses of core/health/reporter.py, for every state and every dict.
use df_local_foundation.Prelude.{
  ◌≡◌, refl, ap, ◌≢◌, ◌↔◌, Bool, true, false, String, Option, none, some, All, inl, inr, Bool-cases,
  str_eq, eq_iff,
}
use df_local_foundation.Contract.{
  AppMode, LifecycleStatus, ErrorClass, LifecycleState, Time, ready, degraded, unavailable,
  migrating, status_value,
}
use df_local_foundation.Runtime.{Exc, privacy_violation_error, Outcome, ok, raised, diverged, Level}
use df_local_foundation.Database.{Database}
use df_local_foundation.Lifecycle.{LifecycleManager, status}
use df_local_foundation.Lifecycle.Coherence.{IsCoherent, status-IsCoherent}
use df_local_foundation.Health.{
  Value, text, truth, null, Dict, keys, lookup, error_entry, to_health_dict, has_banned,
  HealthResponse, is_ready, health_response, from_state, get_health,
}
use df_local_foundation.Health.Contract.{conforms, health_schema}
use df_local_foundation.Health.Serialized.{
  IsDeclared, IsClean, conforms-to_health_dict, has_banned-to_health_dict, conforms-IsDeclared,
  has_banned_iff,
}

some_truth : (b : Bool) → (some (truth b) ≡ some (truth false)) ↔ (b ≡ false)
some_truth b = (λ h. ap flag h, λ h. cc)
  where
    flag : Option Value → Bool
    flag (some (truth b)) = b
    flag _ = true

ready_word : (s : LifecycleStatus) → (str_eq (status_value s) "ready" ≡ true) ↔ (s ≡ ready)
ready_word ready = (λ h. refl, λ h. refl)
ready_word degraded = (λ h. cc, λ h. cc)
ready_word unavailable = (λ h. cc, λ h. cc)
ready_word migrating = (λ h. cc, λ h. cc)

unavailable_word :
    (s : LifecycleStatus)
    → (some (text (status_value s)) ≡ some (text "unavailable")) ↔ (s ≡ unavailable)
unavailable_word s = (λ h. by_word s (ap word h), λ h. rw h)
  where
    word : Option Value → String
    word (some (text t)) = t
    word _ = ""

    by_word : (s : LifecycleStatus) → status_value s ≡ "unavailable" → s ≡ unavailable
    by_word unavailable e = refl
    by_word ready e = cc ((eq_iff "ready" "unavailable").1 e)
    by_word degraded e = cc ((eq_iff "degraded" "unavailable").1 e)
    by_word migrating e = cc ((eq_iff "migrating" "unavailable").1 e)

error_word : (e : Option ErrorClass) → (some (error_entry e) ≢ some null) ↔ (e ≢ none)
error_word none = (λ h. absurd (h refl), λ h. absurd (h refl))
error_word (some e) = (λ h k. cc, λ h k. cc)

-- The dict of a coherent state is coherent.
coherent_dict :
    (isoformat : Time → String) (mode : AppMode) (s : LifecycleState)
    → IsCoherent mode s
    → let d = to_health_dict isoformat s in
      ((is_ready (record { content = d }) ≡ true)
        ↔ (lookup "migration_required" d ≡ some (truth false)))
      × ((lookup "status" d ≡ some (text "unavailable"))
          ↔ (lookup "last_error_class" d ≢ some null))
unfolding is_ready to_health_dict
coherent_dict isoformat mode s c =
    let word = ready_word s.status in
    let flag = some_truth s.migration_required in
    let down = unavailable_word s.status in
    let error = error_word s.last_error_class in
    (
      (λ h. flag.1 (c.ready_iff.0 (word.0 h)), λ h. word.1 (c.ready_iff.1 (flag.0 h))),
      (λ h. error.1 (c.error_iff.0 (down.0 h)), λ h. down.1 (c.error_iff.1 (error.0 h))),
    )

module _ (is_valid : Dict → Bool) where
  -- A response is made of a dict exactly when none of its keys is banned and the validator accepts
  -- it, and it then holds the dict unchanged. A dict with a banned key is refused as a privacy
  -- violation, whatever the validator says of it.
  pub health_response_iff :
      (d : Dict)
      → ((health_response is_valid d ≡ ok (record { content = d }))
          ↔ (IsClean (keys d) × (is_valid d ≡ true)))
        × (¬ (IsClean (keys d)) ↔ (health_response is_valid d ≡ raised privacy_violation_error))
  unfolding health_response
  health_response_iff d = elim (Bool-cases (has_banned (keys d))) [
    | inl e ↦ rw e (
      (λ h. cc, λ h. cc (e, (has_banned_iff (keys d)).1 h.0)),
      (λ h. refl, λ h clean. cc (e, (has_banned_iff (keys d)).1 clean)),
    )
    | inr e ↦
        let clean = (has_banned_iff (keys d)).0 e in
        elim (Bool-cases (is_valid d)) [
          | inl v ↦ rw (e, v) ((λ h. (clean, refl), λ h. refl), (λ h. absurd (h clean), λ h. cc))
          | inr v ↦ rw (e, v) ((λ h. cc, λ h. cc), (λ h. absurd (h clean), λ h. cc))
        ]
  ]

  module _ (isoformat : Time → String)
      (validator : (d : Dict) → is_valid d ≡ conforms health_schema d) where
    -- With a validator that reads the schema as its keywords say, every state has a response: it
    -- holds the state's dict, all of whose keys the schema declares.
    pub from_state_returns :
        (s : LifecycleState)
        → (from_state is_valid isoformat s ≡ ok (record { content = to_health_dict isoformat s }))
          × All IsDeclared (keys (to_health_dict isoformat s))
    unfolding from_state health_response
    from_state_returns s =
        let good = conforms-to_health_dict isoformat s in
        (
          rw (has_banned-to_health_dict isoformat s, validator, good),
          conforms-IsDeclared (to_health_dict isoformat s) good,
        )

    module _ {W : Type 0} (db : Database W) (level : Level) where
      get_health-status :
          (s : LifecycleManager W) (r : HealthResponse)
          → (get_health is_valid isoformat db level s).0 ≡ ok r
          → (st : LifecycleState) × ((status db level s).0 ≡ ok st)
            × (r ≡ record { content = to_health_dict isoformat st })
      unfolding get_health
      get_health-status s r h = by_status (status db level s).0 refl
        where
          by_status :
              (o : Outcome LifecycleState)
              → (status db level s).0 ≡ o
              → (st : LifecycleState) × ((status db level s).0 ≡ ok st)
                × (r ≡ record { content = to_health_dict isoformat st })
          by_status (ok st) e = (st, e, cc ((from_state_returns st).0, rw e at h))
          by_status (raised x) e = cc (rw e at h)
          by_status diverged e = cc (rw e at h)

      -- The reporter fails only as the manager fails: an exception of `get_health` is one of
      -- `status`, and the other way round.
      pub get_health_fails_as_status :
          (s : LifecycleManager W) (e : Exc)
          → ((get_health is_valid isoformat db level s).0 ≡ raised e)
            ↔ ((status db level s).0 ≡ raised e)
      unfolding get_health
      get_health_fails_as_status s e = by_status (status db level s).0 refl
        where
          by_status :
              (o : Outcome LifecycleState)
              → (status db level s).0 ≡ o
              → ((get_health is_valid isoformat db level s).0 ≡ raised e)
                ↔ ((status db level s).0 ≡ raised e)
          by_status (ok st) p = rw p (λ h. cc ((from_state_returns st).0, h), λ h. cc)
          by_status (raised x) p = rw p (λ h. cc, λ h. cc)
          by_status diverged p = rw p (λ h. cc, λ h. cc)

      -- A health response says `ready` exactly when it says that no migration is required, names an
      -- error class exactly when it says `unavailable`, and has declared keys only.
      pub get_health_coherent :
          (s : LifecycleManager W) (r : HealthResponse)
          → (get_health is_valid isoformat db level s).0 ≡ ok r
          → ((is_ready r ≡ true) ↔ (lookup "migration_required" r.content ≡ some (truth false)))
            × ((lookup "status" r.content ≡ some (text "unavailable"))
                ↔ (lookup "last_error_class" r.content ≢ some null))
            × All IsDeclared (keys r.content)
      get_health_coherent s r h =
          let (st, e, shape) = get_health-status s r h in
          let good =
            coherent_dict isoformat s.settings.df_local_app_mode st
              (status-IsCoherent db level s st e) in
          rw shape (good.0, good.1, (from_state_returns st).1)
