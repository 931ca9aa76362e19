-- ===== src/Compatibility/Reregistration.antt =====
-- The outcomes of `check_reregistration_compatibility` of core/lifecycle/compatibility.py.
use df_local_foundation.Prelude.{
  ◌≡◌, refl, ◌↔◌, ◌⊎◌, inl, inr, Bool, true, false, not, ◌&&◌, String, Bool-cases, if◌then◌else◌,
}
use df_local_foundation.Runtime.{type_error, ok, raised, Level, is_enabled}
use df_local_foundation.Compatibility.{
  Field, missing, null, text, Registration, foundation_too_old, requirement_raised, accept, reject,
  Version, parse_version, version_gt, get_or, mode_changed, check_modes,
  check_reregistration_compatibility,
}
use df_local_foundation.Compatibility.Decisions.{VersionLe, version_gt-VersionLe, check_of_versions}

module _ (level : Level) (existing incoming : Registration) (running : String)
    (old new run : Version) (quiet : is_enabled level Level.debug ≡ false)
    (old_version : parse_version (get_or existing.foundation_version_required (text "0.0.0"))
      ≡ ok old)
    (new_version : parse_version incoming.foundation_version_required ≡ ok new)
    (running_version : parse_version (text running) ≡ ok run) where
  new_default : parse_version (get_or incoming.foundation_version_required (text "0.0.0")) ≡ ok new
  new_default = by_field incoming.foundation_version_required new_version
    where
      by_field :
          (f : Field) → parse_version f ≡ ok new → parse_version (get_or f (text "0.0.0")) ≡ ok new
      by_field missing h = unfold parse_version in cc
      by_field null h = h
      by_field (text s) h = h

  -- The second check, behind the first one's comparison.
  check_again :
      (force : Bool)
      → check_reregistration_compatibility level existing incoming running force ≡ (
          if version_gt new run
          then ok (reject foundation_too_old)
          else if version_gt new old && not force
          then ok (reject requirement_raised)
          else check_modes level existing incoming)
  unfolding check_reregistration_compatibility
  check_again force =
      rw (check_of_versions level incoming running new run quiet new_version running_version)
        (elim (Bool-cases (version_gt new run)) [
          | inl e ↦ rw e
          | inr e ↦ rw (e, old_version, new_default)
        ])

  -- With no change of mode and debug messages off, a re-registration is accepted exactly when the
  -- new requirement is at most the running version and is not above the registered one, unless the
  -- operator forces it.
  pub reregistration_decides :
      (force : Bool)
      → mode_changed existing incoming ≡ false
      → (check_reregistration_compatibility level existing incoming running force ≡ ok accept)
        ↔ (VersionLe new run × (VersionLe new old ⊎ (force ≡ true)))
  unfolding check_modes
  reregistration_decides force same =
      let below = version_gt-VersionLe new run in
      let kept = version_gt-VersionLe new old in
      rw (check_again force) (elim (Bool-cases (version_gt new run)) [
        | inl e ↦ rw e (λ h. cc, λ h. cc (e, below.1 h.0))
        | inr e ↦ elim (Bool-cases (version_gt new old)) [
          | inl f ↦ forced force e f
          | inr f ↦ rw (e, f, same) (λ h. (below.0 e, inl (kept.0 f)), λ h. refl)
        ]
      ])
    where
      forced :
          (force : Bool)
          → version_gt new run ≡ false
          → version_gt new old ≡ true
          → ((if version_gt new run
                then ok (reject foundation_too_old)
                else if version_gt new old && not force
                then ok (reject requirement_raised)
                else check_modes level existing incoming)
              ≡ ok accept)
            ↔ (VersionLe new run × (VersionLe new old ⊎ (force ≡ true)))
      forced true e f =
          rw (e, f, same) (λ h. ((version_gt-VersionLe new run).0 e, inr refl), λ h. refl)
      forced false e f =
          rw (e, f)
            (
              λ h. cc,
              λ h. elim h.1 [ inl le ↦ cc (f, (version_gt-VersionLe new old).1 le) | inr t ↦ cc ],
            )

  -- A change of the app's mode that the versions allow is not accepted: at the usual level, where
  -- warnings are enabled, the warning's keyword fields make the check raise `TypeError`.
  pub mode_change_raises :
      (force : Bool)
      → VersionLe new run
      → VersionLe new old
      → mode_changed existing incoming ≡ true
      → is_enabled level Level.warning ≡ true
      → check_reregistration_compatibility level existing incoming running force ≡ raised type_error
  unfolding check_modes
  mode_change_raises force below kept changed loud = rw (
    check_again force,
    (version_gt-VersionLe new run).1 below,
    (version_gt-VersionLe new old).1 kept,
    changed,
    loud,
  )
