-- ===== src/Analytics/Posture.antt =====
-- The postures of app/analytics_services.py, by the ages that they are made of.
use df_local_foundation.Prelude.{
  ℕ, max, ◌≡◌, refl, ap, sym, ◌∙◌, ◌↔◌, true, false, Option, none, some, String, List, [], ◌∷◌, map,
  arith,
}
use df_local_foundation.Prelude.Int.{ℤ, pos, ltb_ℤ, ◌≤ℤ◌}
use df_local_foundation.Contract.{Time}
use df_local_foundation.Analytics.{
  StalenessPosture, fresh, aging, stale, unknown_age, ServiceRow, SystemEntry, FreshnessSource,
  is_seen, same_posture, overall_posture, posture_for_age, age_seconds, age_or_zero, system_entry,
  freshness_source, max_age, compute_systems_response, compute_freshness_response,
}

-- The order of the postures, the least fresh highest.
abbrev pub rank : StalenessPosture → ℕ
rank unknown_age = 0
rank fresh = 1
rank aging = 2
rank stale = 3

abbrev pub highest : List StalenessPosture → ℕ
highest [] = 0
highest (p ∷ ps) = max (rank p) (highest ps)

-- The overall posture is the least fresh of those given, and unknown where none is known.
pub rank-overall_posture : (ps : List StalenessPosture) → rank (overall_posture ps) ≡ highest ps
unfolding overall_posture
rank-overall_posture [] = refl
rank-overall_posture (stale ∷ ps) = ground (arith, rank-overall_posture ps)
rank-overall_posture (aging ∷ ps) = ground (arith, rank-overall_posture ps)
rank-overall_posture (fresh ∷ ps) = ground (arith, rank-overall_posture ps)
rank-overall_posture (unknown_age ∷ ps) = ground (arith, rank-overall_posture ps)

overall_posture_stale :
    (ps : List StalenessPosture) → (overall_posture ps ≡ stale) ↔ (is_seen stale ps ≡ true)
unfolding overall_posture
overall_posture_stale ps = (λ h. ground arith, λ h. ground arith)

module _ (iso : Time → String) (aging_threshold stale_threshold : ℤ) where
  abbrev posture_of : Time → ServiceRow → StalenessPosture
  posture_of now row =
      posture_for_age iso aging_threshold stale_threshold
        (age_seconds now row.last_status_recorded_at)

  systems_postures :
      (now : Time) (rows : List ServiceRow)
      → map
          (λ (s : SystemEntry). s.staleness_posture)
          (map (system_entry iso aging_threshold stale_threshold now) rows)
        ≡ map (posture_of now) rows
  systems_postures now [] = refl
  systems_postures now (r ∷ rs) = ap (λ ps. posture_of now r ∷ ps) (systems_postures now rs)

  sources_postures :
      (now : Time) (rows : List ServiceRow)
      → map
          (λ (s : FreshnessSource). s.staleness_posture)
          (map (freshness_source iso aging_threshold stale_threshold now) rows)
        ≡ map (posture_of now) rows
  sources_postures now [] = refl
  sources_postures now (r ∷ rs) = ap (λ ps. posture_of now r ∷ ps) (sources_postures now rs)

  -- The systems view and the freshness view give the same overall posture to the same rows.
  views_agree :
      (rows : List ServiceRow) (now : Time)
      → (compute_systems_response iso aging_threshold stale_threshold rows now).staleness_posture
        ≡ (compute_freshness_response iso aging_threshold stale_threshold rows
            now).overall_staleness_posture
  unfolding compute_systems_response compute_freshness_response
  views_agree rows now =
      ap overall_posture (systems_postures now rows ∙ sym (sources_postures now rows))

  stale_age :
      aging_threshold ≤ℤ stale_threshold
      → ltb_ℤ (pos 0) stale_threshold ≡ true
      → (age : Option ℕ)
      → (same_posture stale (posture_for_age iso aging_threshold stale_threshold age) ≡ true)
        ↔ (ltb_ℤ (pos (age_or_zero age)) stale_threshold ≡ false)
  unfolding posture_for_age
  stale_age order positive none = ground arith
  stale_age order positive (some age) = ground arith

  seen_stale :
      aging_threshold ≤ℤ stale_threshold
      → ltb_ℤ (pos 0) stale_threshold ≡ true
      → (now : Time) (rows : List ServiceRow)
      → (is_seen stale (map (posture_of now) rows) ≡ true) ↔ (
          ltb_ℤ
            (pos (
              max_age iso aging_threshold stale_threshold
                (map (freshness_source iso aging_threshold stale_threshold now) rows)))
            stale_threshold
          ≡ false)
  seen_stale order positive now [] = ground arith
  seen_stale order positive now (r ∷ rs) = ground (
    arith,
    seen_stale order positive now rs,
    stale_age order positive (age_seconds now r.last_status_recorded_at),
  )

  -- If the threshold of `aging` is at most that of `stale`, and the latter is positive: the overall
  -- posture of the sources is stale exactly when the largest age among them has reached the threshold.
  pub stale_iff_old :
      aging_threshold ≤ℤ stale_threshold
      → ltb_ℤ (pos 0) stale_threshold ≡ true
      → (rows : List ServiceRow) (now : Time)
      → ((compute_freshness_response iso aging_threshold stale_threshold rows
            now).overall_staleness_posture
          ≡ stale)
        ↔ (ltb_ℤ
              (pos
                (compute_freshness_response iso aging_threshold stale_threshold rows
                  now).max_source_age_seconds)
              stale_threshold
            ≡ false)
  unfolding compute_freshness_response
  stale_iff_old order positive rows now =
      let overall = overall_posture_stale (map (posture_of now) rows) in
      let seen = seen_stale order positive now rows in
      rw (sources_postures now rows) (λ h. seen.0 (overall.0 h), λ h. overall.1 (seen.1 h))
