-- ===== src/Backup/Envelope.antt =====
-- `BackupEnvelope` of core/backup/manager.py, as a record, as a dict and from a dict.
use df_local_foundation.Prelude.{
  ◌≡◌, refl, Bool, true, false, ◌&&◌, String, Option, none, some, List, [], ◌∷◌, str_eq,
  if◌then◌else◌,
}
use df_local_foundation.Runtime.{type_error, Outcome, ok, raised}
use df_local_foundation.Storage.{Json, text, null, texts, scalar, nested, Object}
use df_local_foundation.Signing.{is_in}

-- A sidecar may hold any JSON value in a field: the dataclass checks no types.
pub record BackupEnvelope : Type 0 where
  pub app_id : Json
  pub foundation_version : Json
  pub schema_version : Json
  pub backup_at : Json
  pub format_version : Json
  pub integrity_hash : Json
  pub includes_namespaces : Json
  pub envelope_hmac : Json
  pub hmac_covers : Json

-- The fields without the two of the HMAC, as they are signed and verified.
unfoldable pub unsigned_fields : BackupEnvelope → Object
unsigned_fields e =
    ("app_id", e.app_id)
    ∷ ("foundation_version", e.foundation_version)
    ∷ ("schema_version", e.schema_version)
    ∷ ("backup_at", e.backup_at)
    ∷ ("format_version", e.format_version)
    ∷ ("integrity_hash", e.integrity_hash)
    ∷ ("includes_namespaces", e.includes_namespaces)
    ∷ []

-- `envelope.__dict__`
unfoldable pub envelope_dict : BackupEnvelope → Object
envelope_dict e =
    ("app_id", e.app_id)
    ∷ ("foundation_version", e.foundation_version)
    ∷ ("schema_version", e.schema_version)
    ∷ ("backup_at", e.backup_at)
    ∷ ("format_version", e.format_version)
    ∷ ("integrity_hash", e.integrity_hash)
    ∷ ("includes_namespaces", e.includes_namespaces)
    ∷ ("envelope_hmac", e.envelope_hmac)
    ∷ ("hmac_covers", e.hmac_covers)
    ∷ []

abbrev pub envelope_fields : List String
envelope_fields =
    "app_id" ∷ "foundation_version" ∷ "schema_version" ∷ "backup_at" ∷ "format_version"
    ∷ "integrity_hash" ∷ "includes_namespaces" ∷ "envelope_hmac" ∷ "hmac_covers" ∷ []

abbrev pub lookup : String → Object → Option Json
lookup k [] = none
lookup k ((j, v) ∷ d) = if str_eq k j then some v else lookup k d

abbrev only_fields : Object → Bool
only_fields [] = true
only_fields ((k, v) ∷ d) = is_in k envelope_fields && only_fields d

abbrev or_null : Option Json → Json
or_null none = null
or_null (some v) = v

infixl 5 ◌>>=◌
abbrev ◌>>=◌ : {A B : Type 0} → Option A → (A → Option B) → Option B
none >>= f = none
some a >>= f = f a

-- The required fields, with the two optional ones given.
abbrev fill : Object → Json → Json → Option BackupEnvelope
fill d hmac covers = do
  app_id ← lookup "app_id" d
  foundation_version ← lookup "foundation_version" d
  schema_version ← lookup "schema_version" d
  backup_at ← lookup "backup_at" d
  format_version ← lookup "format_version" d
  integrity_hash ← lookup "integrity_hash" d
  includes_namespaces ← lookup "includes_namespaces" d
  some (record {
    app_id = app_id;
    foundation_version = foundation_version;
    schema_version = schema_version;
    backup_at = backup_at;
    format_version = format_version;
    integrity_hash = integrity_hash;
    includes_namespaces = includes_namespaces;
    envelope_hmac = hmac;
    hmac_covers = covers;
  })

-- `BackupEnvelope(**data)` of what `json.loads` gave: `none` where that raises.
unfoldable pub envelope_of : Option Object → Option BackupEnvelope
envelope_of none = none
envelope_of (some d) =
    if only_fields d
    then fill d (or_null (lookup "envelope_hmac" d)) (or_null (lookup "hmac_covers" d))
    else none

-- `value in {"1"}`: a list or an object cannot be hashed.
unfoldable pub is_supported : Json → Outcome Bool
is_supported (text s) = ok (str_eq s "1")
is_supported null = ok false
is_supported (scalar n) = ok false
is_supported (texts ss) = raised type_error
is_supported (nested n) = raised type_error

-- `value == text`
abbrev pub equals_text : Json → String → Bool
equals_text (text s) t = str_eq s t
equals_text _ t = false

-- The sidecar of an envelope is read back as it was.
pub envelope_of-envelope_dict : (e : BackupEnvelope) → envelope_of (some (envelope_dict e)) ≡ some e
unfolding envelope_of envelope_dict
envelope_of-envelope_dict e = refl
