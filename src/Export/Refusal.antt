-- ===== src/Export/Refusal.antt =====
-- An export under `restore`, and an export whose dump fails.
use df_local_foundation.Prelude.{
  ◌≡◌, refl, ◌∙◌, ap, Bool, true, false, String, Option, none, some, arith, Bool-cases, inl, inr,
  ◌≢◌, str_eq, eq_iff, if◌then◌else◌,
}
use df_local_foundation.Contract.{integrity_failure, startup_failure}
use df_local_foundation.Runtime.{
  Exc, type_error, restore_blocked_error, envelope_malformed, ok, raised, diverged, Level,
  is_enabled,
}
use df_local_foundation.Storage.{FilePath, File, sidecar, exists, bytes_of, Codec, LogRow, Backend}
use df_local_foundation.Backup.Envelope.{envelope_of}
use df_local_foundation.Backup.{BackupManager}
use df_local_foundation.Backup.Restoring.{restore, restore_from, load_envelope}
use df_local_foundation.Export.{
  ExportEnvelope, ExportResult, ExportManager, export_dict, no_export, get_app_schema_version,
  pg_dump_namespace, export_row, log_export, export_failed, export,
}
use df_local_foundation.Export.Sealed.{export-IsSealed}

-- A sidecar of an export is no envelope of a backup.
envelope_of-export_dict : (e : ExportEnvelope) → envelope_of (some (export_dict e)) ≡ none
unfolding envelope_of export_dict
envelope_of-export_dict e = refl

module _ {O : Type 0} (codec : Codec) (backend : Backend O) (level : Level) where
  refused_file :
      (f : Option File) (e : ExportEnvelope)
      → bytes_of f ≡ ok (codec.dumps (export_dict e))
      → codec.loads (codec.dumps (export_dict e)) ≡ some (export_dict e)
      → (exists f ≡ true) × (load_envelope codec backend level f ≡ none)
  refused_file none e h reads = cc h
  refused_file (some f) e h reads = (
    refl,
    ap (λ b. envelope_of (codec.loads b)) (by_bytes h)
        ∙ (ap envelope_of reads ∙ envelope_of-export_dict e),
  )
    where
      by_bytes :
          bytes_of (some f) ≡ ok (codec.dumps (export_dict e))
          → f.bytes ≡ codec.dumps (export_dict e)
      by_bytes h = ground arith

  -- What a restore does where the sidecar reads as no envelope of a backup.
  restore_refuses :
      (path : FilePath) (allow dry_run : Bool) (m : BackupManager O)
      → exists (m.host.files (sidecar path)) ≡ true
      → load_envelope codec backend level (m.host.files (sidecar path)) ≡ none
      → restore codec backend level path true allow dry_run m
        ≡ (raised (restore_blocked_error envelope_malformed integrity_failure), m)
  unfolding restore restore_from
  restore_refuses path allow dry_run m here none_read = rw (here, none_read)

  -- An export that succeeds cannot be restored: if its sidecar reads back as it was written, every
  -- confirmed restore of the file on that host is blocked as a malformed envelope, dry run or not,
  -- with leave for unsigned envelopes or not, and changes nothing.
  pub export_is_not_restorable :
      (namespace : String) (path : FilePath) (s : ExportManager O) (r : ExportResult)
      (m : BackupManager O) (allow dry_run : Bool)
      → ((e : ExportEnvelope)
          → r.envelope ≡ some e
          → codec.loads (codec.dumps (export_dict e)) ≡ some (export_dict e))
      → (export codec backend level namespace path s).0 ≡ ok r
      → r.success ≡ true
      → m.host ≡ (export codec backend level namespace path s).1.host
      → restore codec backend level path true allow dry_run m
        ≡ (raised (restore_blocked_error envelope_malformed integrity_failure), m)
  export_is_not_restorable namespace path s r m allow dry_run reads done good same =
      let sealed = (export-IsSealed codec backend level namespace path s r done good).1 in
      let f =
        refused_file (m.host.files (sidecar path)) sealed.envelope (rw same sealed.written)
          (reads sealed.envelope sealed.result) in
      restore_refuses path allow dry_run m f.0 f.1

  log_export_returns :
      (namespace : String) (path : FilePath) (version : String) (s : ExportManager O)
      → is_enabled level Level.error ≡ false
      → ((row : LogRow) (o : O) → (backend.insert_export_row row o).0 ≢ diverged)
      → (log_export codec backend level namespace path version "" "failed"
          (some startup_failure)
          s).0
        ≡ ok tt
  unfolding log_export
  log_export_returns namespace path version s quiet ends = ground (
    arith,
    ends
        (export_row codec backend level namespace path version "" "failed" (some startup_failure) s)
        s.host.outside,
  )

  export_failed_lem :
      (namespace version : String) (path : FilePath) (s : ExportManager O)
      → ((row : LogRow) (o : O) → (backend.insert_export_row row o).0 ≢ diverged)
      → (export_failed codec backend level namespace path version s).0 ≡ (
          if is_enabled level Level.error
          then raised type_error
          else ok (no_export startup_failure))
  unfolding export_failed log_export
  export_failed_lem namespace version path s ends =
      elim (Bool-cases (is_enabled level Level.error)) [
        | inl loud ↦ rw loud
        | inr quiet ↦
            let logged = log_export_returns namespace path version s quiet ends in
            rw quiet (ground (arith, logged))
      ]

  -- An export of another namespace than `core` whose dump fails: at a level where errors are logged
  -- it raises `TypeError`, and else it returns the result of a startup failure, if the insert of the
  -- log row ends, well or not.
  pub failed_dump_exports :
      (namespace version : String) (path : FilePath) (s t : ExportManager O) (x : Exc)
      → namespace ≢ "core"
      → get_app_schema_version codec backend level namespace s ≡ (ok version, t)
      → (pg_dump_namespace codec backend level path namespace t).0 ≡ raised x
      → ((row : LogRow) (o : O) → (backend.insert_export_row row o).0 ≢ diverged)
      → (export codec backend level namespace path s).0 ≡ (
          if is_enabled level Level.error
          then raised type_error
          else ok (no_export startup_failure))
  unfolding export
  failed_dump_exports namespace version path s t x other e d ends =
      elim (Bool-cases (str_eq namespace "core")) [
        | inl core ↦ absurd (other ((eq_iff namespace "core").0 core))
        | inr n ↦
            rw (n, e, d)
              (export_failed_lem namespace version path
                (pg_dump_namespace codec backend level path namespace t).1 ends)
      ]
