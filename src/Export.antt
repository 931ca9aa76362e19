-- ===== src/Export.antt =====
-- core/export/manager.py: `ExportManager`, a method at a time.
pub mod Sealed
pub mod Refusal
use df_local_foundation.Prelude.{
  ℕ, Bool, true, false, not, String, Option, none, some, List, [], ◌∷◌, str_eq, ◌==◌, if◌then◌else◌,
}
use df_local_foundation.Contract.{ErrorClass, startup_failure, compatibility_failure}
use df_local_foundation.Config.{FoundationSettings, foundation_version}
use df_local_foundation.Runtime.{
  runtime_error, Outcome, ok, raised, diverged, Py, pure, raise, ◌>>=◌, ◌>>◌, try_except, try_else,
  Level, log_fields,
}
use df_local_foundation.Runtime.Pure
use df_local_foundation.Storage.{
  FilePath, File, Host, sidecar, bytes_of, write_bytes, text, Object, Codec, LogRow, Backend,
}
use df_local_foundation.Signing.{on_outside}

abbrev pub current_format_version : String
current_format_version = "1"

pub record ExportEnvelope : Type 0 where
  pub app_id : String
  pub foundation_version : String
  pub schema_version : String
  pub export_at : String
  pub format_version : String
  pub integrity_hash : String
  pub namespace : String

pub record ExportResult : Type 0 where
  pub success : Bool
  pub output_path : Option FilePath
  pub envelope : Option ExportEnvelope
  pub error_class : Option ErrorClass

pub record ExportManager (O : Type 0) : Type 0 where
  pub settings : FoundationSettings
  pub host : Host O

-- `envelope.__dict__`
unfoldable pub export_dict : ExportEnvelope → Object
export_dict e =
    ("app_id", text e.app_id)
    ∷ ("foundation_version", text e.foundation_version)
    ∷ ("schema_version", text e.schema_version)
    ∷ ("export_at", text e.export_at)
    ∷ ("format_version", text e.format_version)
    ∷ ("integrity_hash", text e.integrity_hash)
    ∷ ("namespace", text e.namespace)
    ∷ []

-- The result without a file, of a class of error.
abbrev pub no_export : ErrorClass → ExportResult
no_export error = record {
  success = false;
  output_path = none;
  envelope = none;
  error_class = some error;
}

module _ {O : Type 0} where
  abbrev pub on_host : {A : Type 0} → Py (Host O) A → Py (ExportManager O) A
  on_host m s = let (r, h) = m s.host in (r, record s { host = h })

module _ {O : Type 0} (codec : Codec) (backend : Backend O) (threshold : Level) where
  abbrev pub or_unknown : Option String → String
  or_unknown none = "unknown"
  or_unknown (some v) = v

  -- `_get_app_schema_version`
  unfoldable pub get_app_schema_version : String → Py (ExportManager O) String
  get_app_schema_version namespace =
      on_host (on_outside (backend.fetch_app_version namespace)) >>= λ v. pure (or_unknown v)

  -- `_pg_dump_namespace`
  unfoldable pub pg_dump_namespace : FilePath → String → Py (ExportManager O) (Unit {0})
  pg_dump_namespace path namespace = on_host (backend.run_pg_dump (namespace ∷ []) path) >>= λ rc.
      if not (rc == 0) then raise runtime_error else pure tt

  -- The row of `core_export_log`.
  abbrev pub export_row :
      String → FilePath → String → String → String → Option ErrorClass → ExportManager O → LogRow
  export_row namespace path version hash status error s = record {
    app_id = s.settings.df_local_app_id;
    foundation_version = foundation_version;
    schema_version = version;
    output_path = path;
    integrity_hash = hash;
    namespaces = namespace ∷ [];
    status = status;
    error_class = error;
  }

  -- `_log_export`
  unfoldable pub log_export :
      String
      → FilePath
      → String
      → String
      → String
      → Option ErrorClass
      → Py (ExportManager O) (Unit {0})
  log_export namespace path version hash status error s =
      try_except
        (on_host (
          on_outside
            (backend.insert_export_row (export_row namespace path version hash status error s))))
        (λ _. log_fields threshold Level.warning) s

  abbrev pub file_hash : Option File → Outcome String
  file_hash f = Pure.◌>>=◌ (bytes_of f) λ bytes. ok (codec.sha256 bytes)

  -- `_compute_hash`
  unfoldable pub compute_hash : FilePath → Py (ExportManager O) String
  compute_hash path s = (file_hash (s.host.files path), s)

  -- The `except` of `export`.
  unfoldable pub export_failed : String → FilePath → String → Py (ExportManager O) ExportResult
  export_failed namespace path version =
      log_fields threshold Level.error
      >> (log_export namespace path version "" "failed" (some startup_failure)
          >> pure (no_export startup_failure))

  -- What `export` does with the envelope.
  unfoldable pub finish_export :
      String → FilePath → ExportEnvelope → Py (ExportManager O) ExportResult
  finish_export namespace path envelope =
      on_host (write_bytes (sidecar path) (codec.dumps (export_dict envelope)))
      >> (log_export namespace path envelope.schema_version envelope.integrity_hash "completed" none
          >> (log_fields threshold Level.info
              >> pure (record {
                success = true;
                output_path = some path;
                envelope = some envelope;
                error_class = none;
              })))

  abbrev pub export_envelope : String → String → String → String → String → ExportEnvelope
  export_envelope app_id version export_at hash namespace = record {
    app_id = app_id;
    foundation_version = foundation_version;
    schema_version = version;
    export_at = export_at;
    format_version = current_format_version;
    integrity_hash = hash;
    namespace = namespace;
  }

  -- What `export` does once the dump is made.
  unfoldable pub seal_export :
      String → FilePath → String → String → Py (ExportManager O) ExportResult
  seal_export namespace path version export_at = compute_hash path >>= λ hash s.
      finish_export namespace path
        (export_envelope s.settings.df_local_app_id version export_at hash namespace) s

  -- `export`
  unfoldable pub export : String → FilePath → Py (ExportManager O) ExportResult
  export namespace path =
      if str_eq namespace "core"
      then pure (no_export compatibility_failure)
      else (get_app_schema_version namespace >>= λ version s.
          let export_at = backend.now_text s.host.outside in
          try_else (pg_dump_namespace path namespace) (λ _. export_failed namespace path version)
            (λ _. seal_export namespace path version export_at) s)
