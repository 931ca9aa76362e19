-- ===== src/Signing.antt =====
-- core/backup/signing.py: the signing key on disk, the canonical form of an envelope, and the HMAC
-- over it.
pub mod Key
pub mod Canonical
use Prim.Native.String.{compare}
use df_local_foundation.Prelude.{
  ℕ, Bool, true, false, not, ◌&&◌, ◌||◌, String, Option, none, some, List, [], ◌∷◌, codes, length,
  str_eq, ◌==◌, if◌then◌else◌,
}
use package.text.Mathlib.Text.{is_le}
use df_local_foundation.Runtime.{
  Exc, signing_key_error, envelope_verification_error, type_error, Outcome, ok, raised, diverged,
  Py, pure, raise, ◌>>=◌, ◌>>◌, Level, log_fields,
}
use df_local_foundation.Runtime.Pure
use df_local_foundation.Storage.{
  FilePath, File, Host, exists, read_bytes, write_bytes, chmod, Json, text, texts, Object, Codec,
  Backend,
}

abbrev pub key_filename : String
key_filename = "signing.key"

abbrev pub key_length_bytes : ℕ
key_length_bytes = 32

abbrev pub key_mode : ℕ
key_mode = 0o600

-- `data_dir / KEY_FILENAME`
abbrev pub key_path : String → FilePath
key_path data_dir = record { parent = data_dir; name = codes key_filename }

-- A method of the process outside, lifted to the host.
abbrev pub on_outside : {O A : Type 0} → Py O A → Py (Host O) A
on_outside m h = let (r, o) = m h.outside in (r, record h { outside = o })

module _ {O : Type 0} (backend : Backend O) (threshold : Level) where
  -- The branch of an existing key file.
  unfoldable pub load_key : FilePath → File → Py (Host O) (List ℕ)
  load_key p f =
      if not (f.mode == key_mode)
      then raise signing_key_error
      else (read_bytes p >>= λ raw.
          if not (length raw == key_length_bytes) then raise signing_key_error else pure raw)

  -- The branch of a missing key file.
  unfoldable pub create_key : String → Py (Host O) (List ℕ)
  create_key data_dir h =
      if not (h.directories data_dir)
      then (raised signing_key_error, h)
      else (on_outside (backend.token_bytes key_length_bytes) >>= λ raw.
            write_bytes (key_path data_dir) raw
            >> (chmod (key_path data_dir) key_mode
                >> (log_fields threshold Level.info >> pure raw)))
          h

  abbrev pub load_or_create : String → Option File → Py (Host O) (List ℕ)
  load_or_create data_dir (some f) = load_key (key_path data_dir) f
  load_or_create data_dir none = create_key data_dir

  -- `load_or_create_signing_key`
  unfoldable pub load_or_create_signing_key : String → Py (Host O) (List ℕ)
  load_or_create_signing_key data_dir h = load_or_create data_dir (h.files (key_path data_dir)) h

abbrev pub signed_fields : List String
signed_fields =
    "app_id" ∷ "foundation_version" ∷ "schema_version" ∷ "backup_at" ∷ "format_version"
    ∷ "integrity_hash" ∷ "includes_namespaces" ∷ []

abbrev pub signed_fields_export : List String
signed_fields_export =
    "app_id" ∷ "foundation_version" ∷ "schema_version" ∷ "export_at" ∷ "format_version"
    ∷ "integrity_hash" ∷ "namespace" ∷ []

abbrev pub is_in : String → List String → Bool
is_in k [] = false
is_in k (w ∷ ws) = str_eq k w || is_in k ws

abbrev pub has_key : String → Object → Bool
has_key k [] = false
has_key k ((j, v) ∷ d) = str_eq k j || has_key k d

-- `sorted` of texts, by code points: an insertion keeps equal texts in order.
unfoldable pub insert_sorted : String → List String → List String
insert_sorted s [] = s ∷ []
insert_sorted s (t ∷ ts) = if is_le (compare s t) then s ∷ t ∷ ts else t ∷ insert_sorted s ts

unfoldable pub sorted : List String → List String
unfolding insert_sorted
sorted [] = []
sorted (s ∷ ss) = insert_sorted s (sorted ss)

unfoldable pub normalize : Json → Json
unfolding sorted
normalize (texts ss) = texts (sorted ss)
normalize v = v

-- The fields of the set, with their lists sorted.
unfoldable pub subset : List String → Object → Object
unfolding normalize
subset fields [] = []
subset fields ((k, v) ∷ d) =
    let rest = subset fields d in if is_in k fields then (k, normalize v) ∷ rest else rest

-- `_canonicalize`, up to the text that `json.dumps` makes of it.
unfoldable pub canonical_fields : Object → Object
unfolding subset
canonical_fields d =
    if has_key "backup_at" d then subset signed_fields d else subset signed_fields_export d

module _ (codec : Codec) where
  -- `_canonicalize`
  unfoldable pub canonicalize : Object → List ℕ
  canonicalize d = codec.dumps_sorted (canonical_fields d)

  -- `sign_envelope`
  unfoldable pub sign_envelope : Object → List ℕ → String
  unfolding canonicalize
  sign_envelope d key = codec.mac key (canonicalize d)

  -- `hmac.compare_digest` of a text and a JSON value: it takes ASCII texts only.
  unfoldable pub compare_digest : String → Json → Outcome Bool
  compare_digest expected (text claimed) =
      if codec.is_ascii expected && codec.is_ascii claimed
      then ok (str_eq expected claimed)
      else raised type_error
  compare_digest expected _ = raised type_error

  -- `verify_envelope`
  unfoldable pub verify_envelope : Object → Json → List ℕ → Outcome (Unit {0})
  unfolding sign_envelope compare_digest
  verify_envelope d claimed key =
      Pure.◌>>=◌ (compare_digest (sign_envelope d key) claimed)
        λ same. if not same then raised envelope_verification_error else ok tt
