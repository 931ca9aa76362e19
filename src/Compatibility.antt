-- ===== src/Compatibility.antt =====
-- core/lifecycle/compatibility.py: version numbers, and whether an app may register.
pub mod Parse
pub mod Decisions
pub mod Reregistration
use df_local_foundation.Prelude.{
  ℕ, Bool, true, false, not, ◌&&◌, String, Option, none, some, List, [], ◌∷◌, codes, str_eq,
  if◌then◌else◌,
}
use df_local_foundation.Prelude.Int.{ℤ, ltb_ℤ, eqb_ℤ}
use df_local_foundation.Contract.{ErrorClass}
use df_local_foundation.Runtime.{
  Exc, attribute_error, value_error, Outcome, ok, raised, diverged, Level,
}
use df_local_foundation.Runtime.Pure.{◌>>=◌, ◌>>◌, log_fields}
use df_local_foundation.Text.{before, split, strip}
use df_local_foundation.Text.Number.{signed_numeral}

-- A value of the registration dict: the key may be missing, or hold `None` or a text. The contract
-- contracts/app-registration.schema.json admits texts only.
pub data Field : Type 0 where
  missing null : Field
  text : String → Field

pub record Registration : Type 0 where
  pub foundation_version_required : Field
  pub app_mode : Field
  pub app_id : Field

pub data RejectReason : Type 0 where
  version_missing version_unparsable foundation_too_old : RejectReason
  old_version_unparsable requirement_raised : RejectReason

pub record CompatibilityResult : Type 0 where
  pub compatible : Bool
  pub reason : Option RejectReason
  pub error_class : Option ErrorClass

abbrev pub accept : CompatibilityResult
accept = record { compatible = true; reason = none; error_class = none }

abbrev pub reject : RejectReason → CompatibilityResult
reject r = record {
  compatible = false;
  reason = some r;
  error_class = some ErrorClass.compatibility_failure;
}

-- The tuple (major, minor, patch).
abbrev pub Version : Type 0
Version = ℤ × ℤ × ℤ

-- `int(text)`, with the white space round it taken off. Its domain are texts whose digits and white
-- space are ASCII, with as many digits as the interpreter's setting converts (4300, if not changed).
unfoldable pub int : List ℕ → Outcome ℤ
int s = elim (signed_numeral (strip s)) [ none ↦ raised value_error | some n ↦ ok n ]

unfoldable pub parse_parts : List (List ℕ) → Outcome Version
unfolding int
parse_parts (a ∷ b ∷ c ∷ []) = do x ← int a; y ← int b; z ← int c; ok (x, y, z)
parse_parts _ = raised value_error

unfoldable pub parse_codes : List ℕ → Outcome Version
unfolding parse_parts
parse_codes s = parse_parts (split b'.' (before b'-' s))

-- `_parse_version(value)`; `None` has no method `split`.
unfoldable pub parse_version : Field → Outcome Version
unfolding parse_codes
parse_version missing = raised attribute_error
parse_version null = raised attribute_error
parse_version (text s) = parse_codes (codes s)

-- `a > b` of two tuples.
unfoldable pub version_gt : Version → Version → Bool
version_gt (a, b, c) (x, y, z) =
    if eqb_ℤ a x then (if eqb_ℤ b y then ltb_ℤ z c else ltb_ℤ y b) else ltb_ℤ x a

-- `registration.get(key, default)`
abbrev pub get_or : Field → Field → Field
get_or missing default = default
get_or null default = null
get_or (text s) default = text s

-- `not value`
abbrev pub is_falsy : Field → Bool
is_falsy missing = true
is_falsy null = true
is_falsy (text s) = str_eq s ""

abbrev pub both_versions : Field → Field → Outcome (Version × Version)
both_versions a b = parse_version a >>= λ v. parse_version b >>= λ w. ok (v, w)

-- `except ValueError`: any other exception goes on.
abbrev pub on_value_error {ℓ} :
    {A : Type ℓ}
    → Outcome A
    → Outcome CompatibilityResult
    → (A → Outcome CompatibilityResult)
    → Outcome CompatibilityResult
on_value_error (ok a) handler rest = rest a
on_value_error (raised value_error) handler rest = handler
on_value_error (raised e) handler rest = raised e
on_value_error diverged handler rest = diverged

unfoldable pub check_registration_compatibility :
    Level → Registration → String → Outcome CompatibilityResult
check_registration_compatibility threshold registration running_version =
    let required_str = registration.foundation_version_required in
    if is_falsy required_str
    then ok (reject version_missing)
    else on_value_error (both_versions required_str (text running_version))
        (ok (reject version_unparsable))
        λ versions.
          if version_gt versions.0 versions.1
          then ok (reject foundation_too_old)
          else log_fields threshold Level.debug >> ok accept

abbrev pub field_ne : Field → Field → Bool
field_ne (text s) (text t) = not (str_eq s t)
field_ne null null = false
field_ne missing missing = false
field_ne _ _ = true

-- `if old_mode and new_mode and old_mode != new_mode`
abbrev pub mode_changed : Registration → Registration → Bool
mode_changed existing incoming =
    not (is_falsy existing.app_mode)
    && not (is_falsy incoming.app_mode)
    && field_ne existing.app_mode incoming.app_mode

unfoldable pub check_modes : Level → Registration → Registration → Outcome CompatibilityResult
check_modes threshold existing incoming =
    if mode_changed existing incoming
    then log_fields threshold Level.warning >> ok accept
    else ok accept

unfoldable pub check_reregistration_compatibility :
    Level → Registration → Registration → String → Bool → Outcome CompatibilityResult
unfolding check_modes
check_reregistration_compatibility threshold existing incoming running_version force =
    check_registration_compatibility threshold incoming running_version >>= λ basic.
    if not basic.compatible
    then ok basic
    else on_value_error
        (both_versions (get_or existing.foundation_version_required (text "0.0.0"))
          (get_or incoming.foundation_version_required (text "0.0.0")))
        (ok (reject old_version_unparsable))
        λ versions.
          if version_gt versions.1 versions.0 && not force
          then ok (reject requirement_raised)
          else check_modes threshold existing incoming
