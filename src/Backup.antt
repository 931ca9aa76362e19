-- ===== src/Backup.antt =====
-- core/backup/manager.py: `BackupManager`, a method at a time; its `restore` is in the child Restoring.
pub mod Envelope
pub mod Restoring
pub mod Checks
pub mod Restore
pub mod Sealed
pub mod RoundTrip
use df_local_foundation.Prelude.{
  ℕ, Bool, true, false, not, ◌&&◌, ◌||◌, String, Option, none, some, List, [], ◌∷◌, str_eq, ◌==◌,
  if◌then◌else◌,
}
use df_local_foundation.Contract.{
  ErrorClass, startup_failure, integrity_failure, compatibility_failure, restore_blocked,
}
use df_local_foundation.Config.{FoundationSettings, foundation_version}
use df_local_foundation.Runtime.{
  BlockReason, not_confirmed, sidecar_missing, envelope_malformed, unsupported_format, app_mismatch,
  file_missing, hash_mismatch, unsigned_envelope, verification_failed, restore_failed, Exc,
  runtime_error, type_error, signing_key_error, envelope_verification_error, restore_blocked_error,
  Outcome, ok, raised, diverged, Py, pure, raise, ◌>>=◌, ◌>>◌, try_except, try_else, Level,
  log_fields, log_event,
}
use df_local_foundation.Runtime.Pure
use df_local_foundation.Storage.{
  FilePath, File, Host, sidecar, exists, bytes_of, write_bytes, Json, text, null, texts, scalar,
  nested, Object, Codec, LogRow, Backend,
}
use df_local_foundation.Signing.{
  on_outside, load_or_create_signing_key, sign_envelope, verify_envelope,
}
use df_local_foundation.Backup.Envelope.{
  BackupEnvelope, unsigned_fields, envelope_dict, envelope_of, is_supported, equals_text,
}

abbrev pub current_format_version : String
current_format_version = "1"

pub record BackupResult : Type 0 where
  pub success : Bool
  pub output_path : Option FilePath
  pub envelope : Option BackupEnvelope
  pub error_class : Option ErrorClass

pub record BackupManager (O : Type 0) : Type 0 where
  pub settings : FoundationSettings
  pub signing_key : Option (List ℕ)
  pub host : Host O

module _ {O : Type 0} where
  abbrev pub on_host : {A : Type 0} → Py (Host O) A → Py (BackupManager O) A
  on_host m s = let (r, h) = m s.host in (r, record s { host = h })

  -- The value is computed from the state, which stays.
  abbrev pub reads : {A : Type 0} → (BackupManager O → Outcome A) → Py (BackupManager O) A
  reads f s = (f s, s)

  -- `raise RestoreBlockedError(reason, error_class)`
  abbrev pub block : {A : Type 0} → BlockReason → ErrorClass → Py (BackupManager O) A
  block reason error_class = raise (restore_blocked_error reason error_class)

-- `sorted(SIGNED_FIELDS)`
abbrev pub covered_fields : List String
covered_fields =
    "app_id" ∷ "backup_at" ∷ "format_version" ∷ "foundation_version" ∷ "includes_namespaces"
    ∷ "integrity_hash" ∷ "schema_version" ∷ []

module _ {O : Type 0} (codec : Codec) (backend : Backend O) (threshold : Level) where
  abbrev pub cached_key : Option (List ℕ) → Py (BackupManager O) (List ℕ)
  cached_key (some key) s = (ok key, s)
  cached_key none s =
      (on_host (load_or_create_signing_key backend threshold s.settings.df_local_data_dir)
          >>= λ key t. (ok key, record t { signing_key = some key }))
        s

  -- `_get_signing_key`
  unfoldable pub get_signing_key : Py (BackupManager O) (List ℕ)
  get_signing_key s = cached_key s.signing_key s

  abbrev pub or_unknown : Option String → String
  or_unknown none = "unknown"
  or_unknown (some v) = v

  -- `_get_core_schema_version`
  unfoldable pub get_core_schema_version : Py (BackupManager O) String
  get_core_schema_version =
      on_host (on_outside backend.fetch_core_version) >>= λ v. pure (or_unknown v)

  -- A subprocess that returns another code than 0 is a `RuntimeError`.
  abbrev pub checked : Py (Host O) ℕ → Py (BackupManager O) (Unit {0})
  checked run = on_host run >>= λ rc. if not (rc == 0) then raise runtime_error else pure tt

  -- `_pg_dump`, `_pg_restore`
  unfoldable pub pg_dump : FilePath → List String → Py (BackupManager O) (Unit {0})
  pg_dump path namespaces = checked (backend.run_pg_dump namespaces path)

  unfoldable pub pg_restore : FilePath → Py (BackupManager O) (Unit {0})
  pg_restore path = checked (backend.run_pg_restore path)

  -- `_log_backup`
  unfoldable pub log_backup :
      FilePath
      → String
      → List String
      → String
      → String
      → Option ErrorClass
      → Py (BackupManager O) (Unit {0})
  log_backup path version namespaces hash status error s =
      try_except
        (on_host (
          on_outside (
            backend.insert_backup_row (record {
              app_id = s.settings.df_local_app_id;
              foundation_version = foundation_version;
              schema_version = version;
              output_path = path;
              integrity_hash = hash;
              namespaces = namespaces;
              status = status;
              error_class = error;
            }))))
        (λ _. log_fields threshold Level.warning) s

  abbrev pub file_hash : Option File → Outcome String
  file_hash f = Pure.◌>>=◌ (bytes_of f) λ bytes. ok (codec.sha256 bytes)

  -- `_compute_hash`
  unfoldable pub compute_hash : FilePath → Py (BackupManager O) String
  compute_hash path = reads (λ s. file_hash (s.host.files path))

  -- The result of a backup that failed: the failure is logged, and the log row is written.
  unfoldable pub backup_failed :
      FilePath → String → List String → String → ErrorClass → Py (BackupManager O) BackupResult
  backup_failed path version namespaces hash error =
      log_fields threshold Level.error
      >> (log_backup path version namespaces hash "failed" (some error)
          >> pure (record {
            success = false;
            output_path = none;
            envelope = none;
            error_class = some error;
          }))

  -- `except SigningKeyError`
  abbrev pub on_key_error : {A : Type 0} → Py (BackupManager O) A → Exc → Py (BackupManager O) A
  on_key_error handler signing_key_error = handler
  on_key_error handler e = raise e

  -- What `backup` does once the envelope is signed.
  unfoldable pub finish_backup :
      FilePath → List String → BackupEnvelope → String → String → Py (BackupManager O) BackupResult
  finish_backup path namespaces envelope version hash =
      on_host (write_bytes (sidecar path) (codec.dumps (envelope_dict envelope)))
      >> (log_backup path version namespaces hash "completed" none
          >> (log_fields threshold Level.info
              >> pure (record {
                success = true;
                output_path = some path;
                envelope = some envelope;
                error_class = none;
              })))

  -- The fields of the envelope that are signed, as `backup` fills them.
  abbrev pub fresh_envelope : String → String → String → String → List String → BackupEnvelope
  fresh_envelope app_id version backup_at hash namespaces = record {
    app_id = text app_id;
    foundation_version = text foundation_version;
    schema_version = text version;
    backup_at = text backup_at;
    format_version = text current_format_version;
    integrity_hash = text hash;
    includes_namespaces = texts namespaces;
    envelope_hmac = null;
    hmac_covers = null;
  }

  -- What `backup` does once the dump is made.
  unfoldable pub sign_backup :
      FilePath → List String → String → String → Py (BackupManager O) BackupResult
  sign_backup path namespaces version backup_at = compute_hash path >>= λ hash s.
      let envelope = fresh_envelope s.settings.df_local_app_id version backup_at hash namespaces in
      try_else get_signing_key
        (on_key_error (backup_failed path version namespaces hash integrity_failure))
        (λ key.
          finish_backup path namespaces
            (record envelope {
              envelope_hmac = text (sign_envelope codec (unsigned_fields envelope) key);
              hmac_covers = texts covered_fields;
            })
            version hash)
        s

  abbrev pub or_core : Option (List String) → List String
  or_core none = "core" ∷ []
  or_core (some namespaces) = namespaces

  -- `backup`
  unfoldable pub backup : FilePath → Option (List String) → Py (BackupManager O) BackupResult
  backup path given =
      let namespaces = or_core given in
      get_core_schema_version >>= λ version s.
      let backup_at = backend.now_text s.host.outside in
      try_else (pg_dump path namespaces)
        (λ _. backup_failed path version namespaces "" startup_failure)
        (λ _. sign_backup path namespaces version backup_at) s
