-- ===== src/Tests/Export.antt =====
-- An export on a small host, and the theorems about core/export at that run.
use df_local_foundation.Prelude.{
  ◌≡◌, ◌≢◌, refl, true, false, String, none, some, [], ◌∷◌, length, eq_iff, ◌==◌, if◌then◌else◌,
  arith,
}
use df_local_foundation.Contract.{integrity_failure}
use df_local_foundation.Runtime.{
  runtime_error, restore_blocked_error, envelope_malformed, ok, raised, diverged, Level,
}
use df_local_foundation.Storage.{rfind, stem, sidecar, write_bytes, Object, Codec, LogRow, Backend}
use df_local_foundation.Backup.{BackupManager}
use df_local_foundation.Backup.Restoring.{restore}
use df_local_foundation.Export.{
  ExportEnvelope, ExportResult, ExportManager, export_dict, get_app_schema_version,
  pg_dump_namespace, log_export, compute_hash, export_failed, finish_export, seal_export, export,
}
use df_local_foundation.Export.Sealed.{IsSealed, export-IsSealed}
use df_local_foundation.Export.Refusal.{export_is_not_restorable}
use df_local_foundation.Tests.Site.{dev_settings}
use df_local_foundation.Tests.Backup.{Rows, dump_path, digest, backend, empty_host}

-- A run of core/export computes where this name is unfolded.
exporting : Unit {0}
unfolding rfind stem sidecar write_bytes get_app_schema_version pg_dump_namespace log_export
    compute_hash export_failed finish_export seal_export export export_dict
exporting = tt

abbrev envelope_written : ExportEnvelope
envelope_written = record {
  app_id = "authorforge";
  foundation_version = "1.1.0";
  schema_version = "0004";
  export_at = "2026-01-05T00:00:00+00:00";
  format_version = "1";
  integrity_hash = "sha256:3";
  namespace = "authorforge";
}

abbrev written_dict : Object
written_dict = export_dict envelope_written

abbrev codec : Codec
codec = record {
  sha256 = digest;
  mac = λ k m. "hmac-sha256:ok";
  dumps_sorted = λ d. length d ∷ [];
  dumps = λ d. length d ∷ [];
  loads = λ b. if length b == 1 then some written_dict else none;
  is_ascii = λ s. true;
}

abbrev scope : String
scope = "authorforge"

abbrev core_scope : String
core_scope = "core"

abbrev manager : ExportManager Rows
manager = record { settings = dev_settings; host = empty_host }

abbrev exported : ExportManager Rows
exported = (export codec backend Level.warning "authorforge" dump_path manager).1

abbrev result : ExportResult
result = record {
  success = true;
  output_path = some dump_path;
  envelope = some envelope_written;
  error_class = none;
}

export_succeeds : (export codec backend Level.warning "authorforge" dump_path manager).0 ≡ ok result
unfolding exporting
export_succeeds = refl

export-IsSealed_example :
    (scope ≢ core_scope) × IsSealed codec "authorforge" "authorforge" dump_path exported.host result
export-IsSealed_example =
    export-IsSealed codec backend Level.warning "authorforge" dump_path manager result
      export_succeeds refl

reads_back :
    (e : ExportEnvelope)
    → result.envelope ≡ some e
    → codec.loads (codec.dumps (export_dict e)) ≡ some (export_dict e)
unfolding export_dict
reads_back e h = ground arith

abbrev backups : BackupManager Rows
backups = record { settings = dev_settings; signing_key = none; host = exported.host }

export_is_not_restorable_example :
    restore codec backend Level.warning dump_path true true false backups
    ≡ (raised (restore_blocked_error envelope_malformed integrity_failure), backups)
export_is_not_restorable_example =
    export_is_not_restorable codec backend Level.warning "authorforge" dump_path manager result
      backups true false reads_back export_succeeds refl refl

-- A backend whose pg_dump returns 1.
abbrev no_dump : Backend Rows
no_dump = record backend { run_pg_dump = λ ns path h. (ok 1, h) }

dump_fails :
    (pg_dump_namespace codec no_dump Level.critical dump_path "authorforge" manager).0
    ≡ raised runtime_error
unfolding exporting
dump_fails = refl

has_version :
    get_app_schema_version codec no_dump Level.critical "authorforge" manager ≡ (ok "0004", manager)
unfolding exporting
has_version = refl

other_namespace : scope ≢ core_scope
other_namespace h = cc ((eq_iff "authorforge" "core").1 h)

insert_ends : (row : LogRow) (o : Rows) → (no_dump.insert_export_row row o).0 ≢ diverged
insert_ends row o h = cc
