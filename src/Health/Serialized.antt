-- ===== src/Health/Serialized.antt =====
-- The dict that `to_health_dict` makes of a state, and the health schema.
use df_local_foundation.Prelude.{
  ◌≡◌, refl, ◌≢◌, ◌↔◌, true, false, String, Option, none, some, List, [], ◌∷◌, All, arith, inl, inr,
  Bool-cases, and-cases, eq_iff,
}
use df_local_foundation.Contract.{AppMode, LifecycleStatus, ErrorClass, LifecycleState, Time, ready}
use df_local_foundation.Health.{Value, Dict, keys, is_in, to_health_dict, banned_fields, has_banned}
use df_local_foundation.Health.Contract.{
  Property, conforms, health_schema, names, declared, allows, allows_all, has_all,
}

-- Every state serializes to a dict that conforms to the schema and has no banned field.
conforms-entries :
    (isoformat : Time → String) (s : LifecycleState) (status : LifecycleStatus)
    (error : Option ErrorClass) (mode : AppMode) (last : Option Time)
    → conforms health_schema (
        to_health_dict isoformat (record s {
          status = status;
          last_error_class = error;
          app_mode = mode;
          last_backup_at = last;
        }))
      ≡ true
unfolding conforms to_health_dict
conforms-entries isoformat s ready none AppMode.local none = refl
conforms-entries isoformat s _ (some ErrorClass.migration_failure) AppMode.local none = refl
conforms-entries isoformat s _ _ AppMode.local none = refl
conforms-entries isoformat s _ _ AppMode.hybrid none = refl
conforms-entries isoformat s _ _ _ none = refl
conforms-entries isoformat s ready none AppMode.local (some t) = refl
conforms-entries isoformat s _ (some ErrorClass.migration_failure) AppMode.local (some t) = refl
conforms-entries isoformat s _ _ AppMode.local (some t) = refl
conforms-entries isoformat s _ _ AppMode.hybrid (some t) = refl
conforms-entries isoformat s _ _ _ (some t) = refl

pub conforms-to_health_dict :
    (isoformat : Time → String) (s : LifecycleState)
    → conforms health_schema (to_health_dict isoformat s) ≡ true
conforms-to_health_dict isoformat s =
    conforms-entries isoformat s s.status s.last_error_class s.app_mode s.last_backup_at

has_banned-entries :
    (isoformat : Time → String) (s : LifecycleState) (last : Option Time)
    → has_banned (keys (to_health_dict isoformat (record s { last_backup_at = last }))) ≡ false
unfolding has_banned to_health_dict
has_banned-entries isoformat s none = refl
has_banned-entries isoformat s (some t) = refl

pub has_banned-to_health_dict :
    (isoformat : Time → String) (s : LifecycleState)
    → has_banned (keys (to_health_dict isoformat s)) ≡ false
has_banned-to_health_dict isoformat s = has_banned-entries isoformat s s.last_backup_at

-- A key that the schema declares.
abbrev pub IsDeclared : String → Type 0
IsDeclared k = is_in k (declared health_schema) ≡ true

allows-IsDeclared :
    (ps : List Property) (k : String) (v : Value)
    → allows false ps k v ≡ true
    → is_in k (names ps) ≡ true
allows-IsDeclared [] k v h = cc
allows-IsDeclared (p ∷ ps) k v h = ground (arith, allows-IsDeclared ps k v)

allows_all-IsDeclared : (d : Dict) → allows_all health_schema d ≡ true → All IsDeclared (keys d)
allows_all-IsDeclared [] h = tt
allows_all-IsDeclared ((k, v) ∷ d) h =
    let both =
      and-cases (allows false health_schema.properties k v) (allows_all health_schema d) h in
    (allows-IsDeclared health_schema.properties k v both.0, allows_all-IsDeclared d both.1)

is_in_iff : (k : String) (ws : List String) → (is_in k ws ≡ false) ↔ All (λ w. k ≢ w) ws
is_in_iff k [] = ground arith
is_in_iff k (w ∷ ws) = ground (arith, eq_iff k w, is_in_iff k ws)

abbrev pub IsClean : List String → Type 0
IsClean ks = All (λ k. All (λ w. k ≢ w) banned_fields) ks

pub has_banned_iff : (ks : List String) → (has_banned ks ≡ false) ↔ IsClean ks
unfolding has_banned
has_banned_iff [] = (λ h. tt, λ h. refl)
has_banned_iff (k ∷ ks) = elim (Bool-cases (is_in k banned_fields)) [
  | inl e ↦ rw e (λ h. cc, λ h. cc (e, (is_in_iff k banned_fields).1 h.0))
  | inr e ↦ rw e (
    λ h. ((is_in_iff k banned_fields).0 e, (has_banned_iff ks).0 h),
    λ h. (has_banned_iff ks).1 h.1,
  )
]

pub conforms-IsDeclared : (d : Dict) → conforms health_schema d ≡ true → All IsDeclared (keys d)
unfolding conforms
conforms-IsDeclared d h =
    allows_all-IsDeclared d
      (and-cases (has_all health_schema.required (keys d)) (allows_all health_schema d) h).1
