-- ===== src/Compatibility/Decisions.antt =====
-- The outcomes of `check_registration_compatibility`, by the order of versions.
use df_local_foundation.Prelude.{
  ◌≡◌, refl, ◌≢◌, ◌↔◌, ◌⊎◌, inl, inr, Bool, true, false, String, ℕ, ◌<◌, ◌+◌, List, [], ◌∷◌, ◌∙◌,
  Option-cases, Bool-cases, codes, str_eq, eq_iff, arith, if◌then◌else◌,
}
use df_local_foundation.Prelude.Int.{ℤ, pos_part, neg_part, ◌≤ℤ◌, eq_of_parts}
use df_local_foundation.Runtime.{value_error, ok, raised, Level, is_enabled}
use df_local_foundation.Text.{before, split, strip}
use df_local_foundation.Text.Number.{signed_numeral}
use df_local_foundation.Compatibility.{
  Field, missing, null, text, Registration, version_missing, version_unparsable, foundation_too_old,
  CompatibilityResult, accept, reject, Version, int, parse_parts, parse_codes, parse_version,
  version_gt, is_falsy, check_registration_compatibility,
}

abbrev pub Lt : ℤ → ℤ → Type 0
Lt a b = pos_part a + neg_part b < pos_part b + neg_part a

-- The order of versions: by the major number, then the minor, then the patch.
abbrev pub VersionLe : Version → Version → Type 0
VersionLe (a, b, c) (x, y, z) = Lt a x ⊎ ((a ≡ x) × (Lt b y ⊎ ((b ≡ y) × (c ≤ℤ z))))

pub version_gt-VersionLe : (v w : Version) → (version_gt v w ≡ false) ↔ VersionLe v w
unfolding version_gt
version_gt-VersionLe (a, b, c) (x, y, z) = ground (arith, eq_of_parts a x, eq_of_parts b y)

VersionLe-trans : (u v w : Version) → VersionLe u v → VersionLe v w → VersionLe u w
VersionLe-trans (a, b, c) (x, y, z) (p, q, r) h k = ground (arith, eq_of_parts a p, eq_of_parts b q)

parse_empty : (v : Version) → parse_version (text "") ≢ ok v
unfolding parse_version before split
parse_empty v h = cc

parsed_truthy : (f : Field) (v : Version) → parse_version f ≡ ok v → is_falsy f ≡ false
unfolding parse_version
parsed_truthy missing v h = cc
parsed_truthy null v h = cc
parsed_truthy (text s) v h = elim (Bool-cases (str_eq s "")) [
  | inl e ↦ absurd (parse_empty v (rw ((eq_iff s "").0 e) at h))
  | inr e ↦ e
]

-- With both versions read, and no `TypeError` from the debug message, the check is its comparison.
pub check_of_versions :
    (level : Level) (r : Registration) (running : String) (v w : Version)
    → is_enabled level Level.debug ≡ false
    → parse_version r.foundation_version_required ≡ ok v
    → parse_version (text running) ≡ ok w
    → check_registration_compatibility level r running
      ≡ (if version_gt v w then ok (reject foundation_too_old) else ok accept)
unfolding check_registration_compatibility
check_of_versions level r running v w quiet p q =
    rw (parsed_truthy r.foundation_version_required v p, p, q)
      (elim (Bool-cases (version_gt v w)) [ inl e ↦ rw e | inr e ↦ rw (e, quiet) ])

-- With debug messages off, a registration whose version is read is accepted exactly when that
-- version is at most the running one, and is otherwise rejected because the foundation is too old.
pub registration_decides :
    (level : Level) (r : Registration) (running : String) (v w : Version)
    → is_enabled level Level.debug ≡ false
    → parse_version r.foundation_version_required ≡ ok v
    → parse_version (text running) ≡ ok w
    → ((check_registration_compatibility level r running ≡ ok accept) ↔ VersionLe v w)
      × ((check_registration_compatibility level r running ≡ ok (reject foundation_too_old))
          ↔ ¬ (VersionLe v w))
registration_decides level r running v w quiet p q =
    let order = version_gt-VersionLe v w in
    rw (check_of_versions level r running v w quiet p q) (elim (Bool-cases (version_gt v w)) [
      | inl e ↦ rw e ((λ h. cc, λ h. cc (e, order.1 h)), (λ h le. cc (e, order.1 le), λ h. refl))
      | inr e ↦ rw e ((λ h. order.0 e, λ h. refl), (λ h. cc, λ no_le. absurd (no_le (order.0 e))))
    ])

-- An app that a foundation accepts is accepted by every later version of the foundation.
pub upgrade_keeps_registration :
    (level : Level) (r : Registration) (old new : String) (v w w' : Version)
    → is_enabled level Level.debug ≡ false
    → parse_version r.foundation_version_required ≡ ok v
    → parse_version (text old) ≡ ok w
    → parse_version (text new) ≡ ok w'
    → VersionLe w w'
    → check_registration_compatibility level r old ≡ ok accept
    → check_registration_compatibility level r new ≡ ok accept
upgrade_keeps_registration level r old new v w w' quiet p q q' le h =
    (registration_decides level r new v w' quiet p q').0.1
      (VersionLe-trans v w w' ((registration_decides level r old v w quiet p q).0.0 h) le)

int-cases : (s : List ℕ) → (int s ≡ raised value_error) ⊎ ((n : ℤ) × (int s ≡ ok n))
unfolding int
int-cases s = elim (Option-cases (signed_numeral (strip s))) [
  | inl e ↦ inl (rw (e, int))
  | inr (n, e) ↦ inr (n, rw (e, int))
]

parse_parts-cases :
    (ps : List (List ℕ))
    → (parse_parts ps ≡ raised value_error) ⊎ ((v : Version) × (parse_parts ps ≡ ok v))
unfolding parse_parts
parse_parts-cases [] = inl refl
parse_parts-cases (a ∷ []) = inl refl
parse_parts-cases (a ∷ b ∷ []) = inl refl
parse_parts-cases (a ∷ b ∷ c ∷ d ∷ ps) = inl refl
parse_parts-cases (a ∷ b ∷ c ∷ []) = elim (int-cases a) [
  | inl e ↦ inl (rw e)
  | inr (x, e) ↦ elim (int-cases b) [
    | inl f ↦ inl (rw (e, f))
    | inr (y, f) ↦ elim (int-cases c) [
      | inl g ↦ inl (rw (e, f, g))
      | inr (z, g) ↦ inr ((x, y, z), rw (e, f, g))
    ]
  ]
]

-- Reading a text gives a version or a `ValueError`.
parse_text-cases :
    (s : String)
    → (parse_version (text s) ≡ raised value_error)
      ⊎ ((v : Version) × (parse_version (text s) ≡ ok v))
unfolding parse_version parse_codes
parse_text-cases s = parse_parts-cases (split b'.' (before b'-' (codes s)))

check_text_returns :
    (level : Level) (r : Registration) (s running : String)
    → is_enabled level Level.debug ≡ false
    → r.foundation_version_required ≡ text s
    → (c : CompatibilityResult) × (check_registration_compatibility level r running ≡ ok c)
check_text_returns level r s running quiet field = elim (Bool-cases (str_eq s "")) [
  | inl e ↦ (reject version_missing, unfold check_registration_compatibility in rw (field, e))
  | inr e ↦ elim (parse_text-cases s) [
    | inl p ↦
        (reject version_unparsable, unfold check_registration_compatibility in rw (field, e, p))
    | inr (v, p) ↦ elim (parse_text-cases running) [
      | inl q ↦ (
        reject version_unparsable,
        unfold check_registration_compatibility in rw (field, e, p, q),
      )
      | inr (w, q) ↦ (
        (if version_gt v w then reject foundation_too_old else accept),
        check_of_versions level r running v w quiet (rw field p) q ∙ ok_if (version_gt v w),
      )
    ]
  ]
]
  where
    ok_if :
        (b : Bool)
        → (if b then ok (reject foundation_too_old) else ok accept)
          ≡ ok (if b then reject foundation_too_old else accept)
    ok_if true = refl
    ok_if false = refl

-- Whatever the required version is, a text, missing or `None`, and whatever the running version,
-- the check returns a result and raises nothing, with debug messages off.
pub check_returns :
    (level : Level) (r : Registration) (running : String)
    → is_enabled level Level.debug ≡ false
    → (c : CompatibilityResult) × (check_registration_compatibility level r running ≡ ok c)
check_returns level r running quiet = by_field r.foundation_version_required refl
  where
    by_field :
        (f : Field)
        → r.foundation_version_required ≡ f
        → (c : CompatibilityResult) × (check_registration_compatibility level r running ≡ ok c)
    by_field missing e = (reject version_missing, unfold check_registration_compatibility in rw e)
    by_field null e = (reject version_missing, unfold check_registration_compatibility in rw e)
    by_field (text s) e = check_text_returns level r s running quiet e
