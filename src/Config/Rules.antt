-- ===== src/Config/Rules.antt =====
-- The validators of core/config/settings.py, all together.
use df_local_foundation.Prelude.{
  ℕ, ◌≡◌, ◌≢◌, ◌↔◌, ◌⊎◌, inl, inr, true, false, String, List, [], ◌∷◌, All, codes, eqb_codes_iff,
  Bool-cases, str_eq, eq_iff, arith,
}
use df_local_foundation.Contract.{AppMode}
use df_local_foundation.Text.{lower}
use df_local_foundation.Config.{
  FoundationSettings, ConfigError, accepted, rejected, validate, is_in, is_lower_in,
  forbidden_prod_credentials, forbidden_prod_hosts,
}

-- `t` is none of the words, in whatever mix of upper and lower case.
abbrev pub IsUncommon : String → Type 0
IsUncommon t = All (λ w. lower (codes t) ≢ codes w) forbidden_prod_credentials

-- Rules 1 and 2 of the production profile.
abbrev pub IsHardened : FoundationSettings → Type 0
IsHardened s =
    IsUncommon s.df_local_user
    × IsUncommon s.df_local_password
    × All (λ w. s.df_local_host ≢ w) forbidden_prod_hosts

abbrev pub IsKnownProfile : String → Type 0
IsKnownProfile p = (p ≡ "dev") ⊎ (p ≡ "test") ⊎ (p ≡ "prod-local")

is_in-false : (t : String) (ws : List String) → (is_in t ws ≡ false) ↔ All (λ w. t ≢ w) ws
is_in-false t [] = ground arith
is_in-false t (w ∷ ws) = ground (arith, eq_iff t w, is_in-false t ws)

is_lower_in-false :
    (t : String) (ws : List String)
    → (is_lower_in t ws ≡ false) ↔ All (λ w. lower (codes t) ≢ codes w) ws
unfolding is_lower_in
is_lower_in-false t [] = ground arith
is_lower_in-false t (w ∷ ws) =
    ground (arith, eqb_codes_iff (lower (codes t)) (codes w), is_lower_in-false t ws)

known_profile :
    (p : String) → (is_in p ("dev" ∷ "test" ∷ "prod-local" ∷ []) ≡ true) ↔ IsKnownProfile p
known_profile p = ground (arith, eq_iff p "dev", eq_iff p "test", eq_iff p "prod-local")

-- The tests that accepted settings have passed, each as the code makes it.
abbrev Passed : FoundationSettings → Type 0
Passed s =
    (str_eq s.df_local_app_id "core" ≡ false)
    × (is_in s.df_local_profile ("dev" ∷ "test" ∷ "prod-local" ∷ []) ≡ true)
    × ((str_eq s.df_local_profile "prod-local" ≡ false)
        ⊎ ((is_lower_in s.df_local_user forbidden_prod_credentials ≡ false)
            × (is_lower_in s.df_local_password forbidden_prod_credentials ≡ false)
            × (is_in s.df_local_host forbidden_prod_hosts ≡ false)))

validate-Passed : (s : FoundationSettings) → validate s ≡ accepted s → Passed s
unfolding validate
validate-Passed s h = ground arith

Passed-validate : (s : FoundationSettings) → Passed s → validate s ≡ accepted s
unfolding validate
Passed-validate s h = ground arith

is_hardened :
    (s : FoundationSettings)
    → IsHardened s ↔ (
        (is_lower_in s.df_local_user forbidden_prod_credentials ≡ false)
        × (is_lower_in s.df_local_password forbidden_prod_credentials ≡ false)
        × (is_in s.df_local_host forbidden_prod_hosts ≡ false))
is_hardened s =
    let user = is_lower_in-false s.df_local_user forbidden_prod_credentials in
    let password = is_lower_in-false s.df_local_password forbidden_prod_credentials in
    let host = is_in-false s.df_local_host forbidden_prod_hosts in
    (λ h. (user.1 h.0, password.1 h.1, host.1 h.2), λ h. (user.0 h.0, password.0 h.1, host.0 h.2))

str_eq-false : (s t : String) → s ≢ t → str_eq s t ≡ false
str_eq-false s t h = ground (arith, eq_iff s t)

-- Settings are accepted, unchanged, exactly when the app's id is not `core`, the profile is one of
-- the three, and in the production profile neither the user nor the password is a well-known
-- credential in any letter case and the host is no wildcard.
pub validate_iff :
    (s : FoundationSettings)
    → (validate s ≡ accepted s) ↔ (
        (s.df_local_app_id ≢ "core")
        × IsKnownProfile s.df_local_profile
        × (s.df_local_profile ≡ "prod-local" → IsHardened s))
validate_iff s = (forward, backward)
  where
    Strict : Type 0
    Strict = s.df_local_profile ≡ "prod-local" → IsHardened s

    strict : Passed s → Strict
    strict (a, k, inl other) e = cc (other, (eq_iff s.df_local_profile "prod-local").1 e)
    strict (a, k, inr tests) e = (is_hardened s).1 tests

    forward :
        validate s ≡ accepted s
        → (s.df_local_app_id ≢ "core") × IsKnownProfile s.df_local_profile × Strict
    forward h =
        let p = validate-Passed s h in
        (
          λ e. cc (p.0, (eq_iff s.df_local_app_id "core").1 e),
          (known_profile s.df_local_profile).0 p.1,
          strict p,
        )

    backward :
        (s.df_local_app_id ≢ "core") × IsKnownProfile s.df_local_profile × Strict
        → validate s ≡ accepted s
    backward (a, k, h) = Passed-validate s (
      str_eq-false s.df_local_app_id "core" a,
      (known_profile s.df_local_profile).1 k,
      elim (Bool-cases (str_eq s.df_local_profile "prod-local")) [
        | inl e ↦ inr ((is_hardened s).0 (h ((eq_iff s.df_local_profile "prod-local").0 e)))
        | inr e ↦ inl e
      ],
    )

-- Whether the settings are accepted, and with which error they are refused, does not depend on the
-- address and the port of the HTTP surface or on the app's mode.
pub validate_ignores :
    (s : FoundationSettings) (e : ConfigError) (host : String) (port : ℕ) (mode : AppMode)
    → (validate s ≡ rejected e) ↔ (
        validate (record s {
          df_local_api_host = host;
          df_local_api_port = port;
          df_local_app_mode = mode;
        })
        ≡ rejected e)
unfolding validate
validate_ignores s e host port mode = ground arith
