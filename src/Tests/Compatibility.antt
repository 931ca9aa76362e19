-- ===== src/Tests/Compatibility.antt =====
-- Runs of core/lifecycle/compatibility.py and core/config/settings.py, and the theorems about them
-- at those runs.
use df_local_foundation.Prelude.{
  ◌≡◌, ◌≢◌, ◌↔◌, refl, false, String, List, ◌++◌, ◌∷◌, ℕ, arith, codes,
}
use df_local_foundation.Prelude.Int.{pos}
use df_local_foundation.Runtime.{ok, raised, type_error, Level}
use df_local_foundation.Text.{lower, lower_code, before, split, is_space, lstrip, rstrip, strip}
use df_local_foundation.Text.Number.{is_digit, more_digits, numeral, signed_numeral}
use df_local_foundation.Config.{
  FoundationSettings, weak_password, accepted, rejected, validate, is_lower_in,
}
use df_local_foundation.Config.Rules.{IsKnownProfile, IsHardened, validate_iff}
use df_local_foundation.Compatibility.{
  text, Registration, accept, reject, foundation_too_old, Version, int, parse_parts, parse_codes,
  parse_version, version_gt, check_registration_compatibility, check_reregistration_compatibility,
}
use df_local_foundation.Compatibility.Parse.{render, parse_codes-render}
use df_local_foundation.Compatibility.Decisions.{VersionLe, registration_decides}
use df_local_foundation.Compatibility.Reregistration.{mode_change_raises}
use df_local_foundation.Tests.Site.{dev_settings}

-- Reading a version computes where this name is unfolded.
reading : Unit {0}
unfolding parse_version parse_codes parse_parts int split before is_space lstrip rstrip strip
    is_digit more_digits numeral signed_numeral version_gt check_registration_compatibility
    check_reregistration_compatibility
reading = tt

abbrev app : String → String → Registration
app version mode = record {
  foundation_version_required = text version;
  app_mode = text mode;
  app_id = text "authorforge";
}

abbrev v100 : Version
v100 = (pos 1, pos 0, pos 0)

abbrev v110 : Version
v110 = (pos 1, pos 1, pos 0)

abbrev v200 : Version
v200 = (pos 2, pos 0, pos 0)

reads_100 : parse_version (text "1.0.0") ≡ ok v100
unfolding reading
reads_100 = refl

reads_110 : parse_version (text "1.1.0-beta.1") ≡ ok v110
unfolding reading
reads_110 = refl

reads_200 : parse_version (text "2.0.0") ≡ ok v200
unfolding reading
reads_200 = refl

accepts_older :
    check_registration_compatibility Level.warning (app "1.0.0" "local") "1.1.0-beta.1" ≡ ok accept
unfolding reading
accepts_older = refl

registration_decides_example :
    ((check_registration_compatibility Level.warning (app "2.0.0" "local") "1.1.0-beta.1"
        ≡ ok accept)
      ↔ VersionLe v200 v110)
    × ((check_registration_compatibility Level.warning (app "2.0.0" "local") "1.1.0-beta.1"
          ≡ ok (reject foundation_too_old))
        ↔ ¬ (VersionLe v200 v110))
registration_decides_example =
    registration_decides Level.warning (app "2.0.0" "local") "1.1.0-beta.1" v200 v110 refl reads_200
      reads_110

mode_change_raises_example :
    check_reregistration_compatibility Level.warning
      (app "1.1.0-beta.1" "local")
      (app "1.0.0" "hybrid")
      "2.0.0"
      false
    ≡ raised type_error
mode_change_raises_example =
    mode_change_raises Level.warning (app "1.1.0-beta.1" "local") (app "1.0.0" "hybrid") "2.0.0"
      v110 v100 v200 refl reads_110 reads_100 reads_200 false (ground arith) (ground arith) refl
      refl

parse_codes-render_example :
    (parse_codes (render 1 20 3) ≡ ok (pos 1, pos 20, pos 3))
    × ((suffix : List ℕ)
        → parse_codes (render 1 20 3 ++ (b'-' ∷ suffix)) ≡ ok (pos 1, pos 20, pos 3))
parse_codes-render_example = parse_codes-render 1 20 3

reads_plus : parse_codes (codes " +1.1_0.0 ") ≡ ok (pos 1, pos 10, pos 0)
unfolding reading
reads_plus = refl

abbrev weak_settings : FoundationSettings
weak_settings = record dev_settings {
  df_local_profile = "prod-local";
  df_local_password = "ChangeMe";
}

weak_is_refused : validate weak_settings ≡ rejected weak_password
unfolding validate is_lower_in lower lower_code
weak_is_refused = refl

validate_iff_example : (validate weak_settings ≡ accepted weak_settings) ↔ (
    (weak_settings.df_local_app_id ≢ "core")
    × IsKnownProfile weak_settings.df_local_profile
    × (weak_settings.df_local_profile ≡ "prod-local" → IsHardened weak_settings))
validate_iff_example = validate_iff weak_settings
