-- ===== src/Health/Contract.antt =====
-- contracts/health.schema.json, and what its keywords ask of a dict.
use df_local_foundation.Prelude.{
  Bool, true, false, ◌&&◌, ◌||◌, String, Option, none, some, List, [], ◌∷◌, str_eq, if◌then◌else◌,
}
use df_local_foundation.Health.{Value, text, truth, null, Dict, keys, is_in}

-- The names of JSON types that the schema uses.
pub data Kind : Type 0 where
  string boolean null_kind : Kind

pub record Property : Type 0 where
  pub name : String
  pub kinds : List Kind
  -- `enum`, or `const` as an enumeration of one value
  pub options : Option (List Value)

pub record Schema : Type 0 where
  pub required : List String
  pub additional_properties : Bool
  pub properties : List Property

abbrev pub is_kind : Value → Kind → Bool
is_kind (text s) string = true
is_kind (truth b) boolean = true
is_kind null null_kind = true
is_kind _ _ = false

abbrev pub has_kind : Value → List Kind → Bool
has_kind v [] = false
has_kind v (k ∷ ks) = is_kind v k || has_kind v ks

abbrev pub value_eq : Value → Value → Bool
value_eq (text s) (text t) = str_eq s t
value_eq (truth true) (truth true) = true
value_eq (truth false) (truth false) = true
value_eq null null = true
value_eq _ _ = false

abbrev pub is_option : Value → List Value → Bool
is_option v [] = false
is_option v (w ∷ ws) = value_eq v w || is_option v ws

abbrev pub in_options : Value → Option (List Value) → Bool
in_options v none = true
in_options v (some ws) = is_option v ws

abbrev pub names : List Property → List String
names [] = []
names (p ∷ ps) = p.name ∷ names ps

abbrev pub declared : Schema → List String
declared s = names s.properties

-- A property that no entry of `properties` declares is allowed or not.
abbrev pub allows : Bool → List Property → String → Value → Bool
allows additional [] k v = additional
allows additional (p ∷ ps) k v =
    if str_eq k p.name
    then has_kind v p.kinds && in_options v p.options
    else allows additional ps k v

abbrev pub allows_all : Schema → Dict → Bool
allows_all s [] = true
allows_all s ((k, v) ∷ d) = allows s.additional_properties s.properties k v && allows_all s d

abbrev pub has_all : List String → List String → Bool
has_all [] ks = true
has_all (r ∷ rs) ks = is_in r ks && has_all rs ks

-- The validation keywords `required`, `additionalProperties`, `properties`, `type`, `enum` and
-- `const` of an object schema. `format` asserts nothing, since no format checker is passed.
unfoldable pub conforms : Schema → Dict → Bool
conforms s d = has_all s.required (keys d) && allows_all s d

abbrev of_kind : String → Kind → Property
of_kind name kind = record { name = name; kinds = kind ∷ []; options = none }

abbrev one_of : String → List Value → Property
one_of name values = record { name = name; kinds = string ∷ []; options = some values }

abbrev pub health_schema : Schema
health_schema = record {
  required =
      "status" ∷ "schema_version" ∷ "expected_schema_version" ∷ "migration_required" ∷ "started_at"
      ∷ "db_engine" ∷ "ownership" ∷ "app_mode" ∷ [];
  additional_properties = false;
  properties =
      one_of "status" (text "ready" ∷ text "degraded" ∷ text "unavailable" ∷ text "migrating" ∷ [])
      ∷ of_kind "schema_version" string
      ∷ of_kind "expected_schema_version" string
      ∷ of_kind "migration_required" boolean
      ∷ record {
        name = "last_error_class";
        kinds = string ∷ null_kind ∷ [];
        options = some (
            text "migration_failure"
            ∷ text "connection_failure"
            ∷ text "integrity_failure"
            ∷ text "compatibility_failure"
            ∷ text "startup_failure"
            ∷ text "restore_blocked"
            ∷ null
            ∷ []);
      }
      ∷ of_kind "started_at" string
      ∷ one_of "db_engine" (text "postgresql" ∷ [])
      ∷ one_of "ownership" (text "app-local" ∷ [])
      ∷ one_of "app_mode" (text "local" ∷ text "hybrid" ∷ text "cloud-enabled" ∷ [])
      ∷ of_kind "backup_available" boolean
      ∷ record { name = "last_backup_at"; kinds = string ∷ null_kind ∷ []; options = none }
      ∷ of_kind "export_available" boolean
      ∷ [];
}
