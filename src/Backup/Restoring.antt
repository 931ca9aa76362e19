-- ===== src/Backup/Restoring.antt =====
-- `BackupManager.restore` of core/backup/manager.py: the checks, in the code's order, and pg_restore.
use df_local_foundation.Prelude.{Bool, not, Option, none, some, if◌then◌else◌}
use df_local_foundation.Contract.{
  ErrorClass, integrity_failure, compatibility_failure, restore_blocked,
}
use df_local_foundation.Runtime.{
  BlockReason, not_confirmed, sidecar_missing, envelope_malformed, unsupported_format, app_mismatch,
  file_missing, hash_mismatch, unsigned_envelope, verification_failed, restore_failed, Exc,
  signing_key_error, envelope_verification_error, restore_blocked_error, Outcome, ok, raised, Py,
  raise, ◌>>=◌, ◌>>◌, try_except, Level, log_fields, log_event,
}
use df_local_foundation.Runtime.Pure
use df_local_foundation.Storage.{FilePath, File, sidecar, exists, Json, null, Codec, Backend}
use df_local_foundation.Signing.{verify_envelope}
use df_local_foundation.Backup.Envelope.{
  BackupEnvelope, unsigned_fields, envelope_of, is_supported, equals_text,
}
use df_local_foundation.Backup.{BackupManager, reads, block, get_signing_key, pg_restore, file_hash}

module _ {O : Type 0} (codec : Codec) (backend : Backend O) (threshold : Level) where
  -- `except (EnvelopeVerificationError, SigningKeyError)`
  abbrev pub verification_handler : Exc → Py (BackupManager O) (Unit {0})
  verification_handler signing_key_error = block verification_failed integrity_failure
  verification_handler envelope_verification_error = block verification_failed integrity_failure
  verification_handler e = raise e

  -- The check of the HMAC.
  unfoldable pub check_hmac : BackupEnvelope → Bool → Json → Py (BackupManager O) (Unit {0})
  check_hmac envelope allow_unsigned null =
      if not allow_unsigned
      then block unsigned_envelope integrity_failure
      else log_event threshold Level.warning
  check_hmac envelope allow_unsigned claimed =
      try_except
        (get_signing_key codec backend threshold >>= λ key.
          reads λ _. verify_envelope codec (unsigned_fields envelope) claimed key)
        verification_handler

  abbrev pub blocked : BlockReason → ErrorClass → Outcome (Unit {0})
  blocked reason error_class = raised (restore_blocked_error reason error_class)

  -- The checks of the version, the app, the file and its hash, which change nothing.
  unfoldable pub check_metadata : FilePath → BackupEnvelope → BackupManager O → Outcome (Unit {0})
  check_metadata path envelope s = Pure.◌>>=◌ (is_supported envelope.format_version) λ supported.
      if not supported
      then blocked unsupported_format compatibility_failure
      else if not (equals_text envelope.app_id s.settings.df_local_app_id)
      then blocked app_mismatch compatibility_failure
      else if not (exists (s.host.files path))
      then blocked file_missing integrity_failure
      else Pure.◌>>=◌ (file_hash codec backend threshold (s.host.files path)) λ computed.
        if not (equals_text envelope.integrity_hash computed)
        then blocked hash_mismatch integrity_failure
        else ok tt

  -- The checks of an envelope that was read, in the code's order.
  unfoldable pub check_envelope : FilePath → BackupEnvelope → Bool → Py (BackupManager O) (Unit {0})
  check_envelope path envelope allow_unsigned =
      reads (check_metadata path envelope)
      >> check_hmac envelope allow_unsigned envelope.envelope_hmac

  -- `_pg_restore`, whose failures block the restore, and the log round it.
  unfoldable pub apply_restore : FilePath → Py (BackupManager O) (Unit {0})
  apply_restore path =
      log_fields threshold Level.info
      >> (try_except (pg_restore codec backend threshold path)
            (λ _. block restore_failed integrity_failure)
          >> log_fields threshold Level.info)

  abbrev pub load_envelope : Option File → Option BackupEnvelope
  load_envelope none = none
  load_envelope (some f) = envelope_of (codec.loads f.bytes)

  -- What `restore` does with the envelope.
  unfoldable pub restore_from :
      FilePath → Bool → Bool → Option BackupEnvelope → Py (BackupManager O) (Unit {0})
  restore_from path allow_unsigned dry_run none = block envelope_malformed integrity_failure
  restore_from path allow_unsigned dry_run (some envelope) =
      check_envelope path envelope allow_unsigned
      >> (if dry_run then log_fields threshold Level.info else apply_restore path)

  -- `restore`
  unfoldable pub restore : FilePath → Bool → Bool → Bool → Py (BackupManager O) (Unit {0})
  restore path confirm allow_unsigned dry_run s =
      if not confirm
      then block not_confirmed restore_blocked s
      else if not (exists (s.host.files (sidecar path)))
      then block sidecar_missing integrity_failure s
      else restore_from path allow_unsigned dry_run (load_envelope (s.host.files (sidecar path))) s
