-- ===== src/Tests/Backup.antt =====
-- A backup and a restore on a small host, and the theorems about core/backup at those runs.
use df_local_foundation.Prelude.{
  ℕ, zero, suc, ◌+◌, ◌≡◌, ◌≢◌, ◌⊎◌, ◌↔◌, refl, true, false, String, none, some, List, [], ◌∷◌,
  arith, codes, length, ◌==◌, if◌then◌else◌,
}
use df_local_foundation.Runtime.{ok, raised, Level, restore_blocked_error, hash_mismatch}
use df_local_foundation.Contract.{integrity_failure}
use df_local_foundation.Storage.{
  FilePath, File, Host, update, rfind, stem, sidecar, read_bytes, write_bytes, chmod, text, texts,
  Object, Codec, Backend,
}
use df_local_foundation.Signing.{
  key_path, load_key, create_key, load_or_create_signing_key, insert_sorted, sorted, normalize,
  subset, canonical_fields, canonicalize, sign_envelope, compare_digest, verify_envelope,
}
use df_local_foundation.Signing.Key.{HoldsKey, key_is_kept}
use df_local_foundation.Backup.Envelope.{
  BackupEnvelope, unsigned_fields, envelope_dict, envelope_of, is_supported,
}
use df_local_foundation.Backup.{
  BackupResult, BackupManager, get_signing_key, get_core_schema_version, pg_dump, pg_restore,
  log_backup, compute_hash, backup_failed, finish_backup, sign_backup, backup, covered_fields,
}
use df_local_foundation.Backup.Restoring.{
  check_hmac, check_metadata, check_envelope, apply_restore, restore_from, restore,
}
use df_local_foundation.Backup.Checks.{ReadsOnly, IsAccepted}
use df_local_foundation.Backup.Restore.{restore_fails_closed, dry_run_decides}
use df_local_foundation.Backup.RoundTrip.{backup_is_restorable}
use df_local_foundation.Storage.Paths.{path_eq_iff}
use df_local_foundation.Tests.Site.{dev_settings}

-- A run of core/backup computes where this name is unfolded.
running : Unit {0}
unfolding rfind stem sidecar read_bytes write_bytes chmod load_key create_key
    load_or_create_signing_key insert_sorted sorted normalize subset canonical_fields canonicalize
    sign_envelope compare_digest verify_envelope unsigned_fields envelope_dict envelope_of
    is_supported get_signing_key get_core_schema_version pg_dump pg_restore log_backup compute_hash
    backup_failed finish_backup sign_backup backup check_hmac check_metadata check_envelope
    apply_restore restore_from restore
running = tt

-- The state outside: the rows of the database, as a number.
abbrev pub Rows : Type 0
Rows = ℕ

-- The system's random bytes, which are not.
abbrev pub sevens : ℕ → List ℕ
sevens zero = []
sevens (suc n) = 7 ∷ sevens n

length-sevens : (n : ℕ) → length (sevens n) ≡ n
length-sevens zero = refl
length-sevens (suc n) = omega (arith, length-sevens n)

abbrev pub dump_path : FilePath
dump_path = record { parent = "/backups"; name = codes "monday.dump" }

abbrev envelope_written : BackupEnvelope
envelope_written = record {
  app_id = text "authorforge";
  foundation_version = text "1.1.0";
  schema_version = text "0002";
  backup_at = text "2026-01-05T00:00:00+00:00";
  format_version = text "1";
  integrity_hash = text "sha256:3";
  includes_namespaces = texts ("core" ∷ []);
  envelope_hmac = text "hmac-sha256:ok";
  hmac_covers = texts covered_fields;
}

abbrev pub digest : List ℕ → String
digest (c ∷ []) = if c == 3 then "sha256:3" else "sha256:0"
digest _ = "sha256:0"

abbrev written_dict : Object
written_dict = envelope_dict envelope_written

abbrev codec : Codec
codec = record {
  sha256 = digest;
  mac = λ k m. "hmac-sha256:ok";
  dumps_sorted = λ d. length d ∷ [];
  dumps = λ d. length d ∷ [];
  loads = λ b. if length b == 1 then some written_dict else none;
  is_ascii = λ s. true;
}

abbrev pub dump_file : File
dump_file = record { bytes = 3 ∷ []; mode = 0o644 }

abbrev pub backend : Backend Rows
backend = record {
  now_text = λ o. "2026-01-05T00:00:00+00:00";
  token_bytes = λ n o. (ok (sevens n), o);
  fetch_core_version = λ o. (ok (some "0002"), o);
  fetch_app_version = λ ns o. (ok (some "0004"), o);
  insert_backup_row = λ row o. (ok tt, o + 1);
  insert_export_row = λ row o. (ok tt, o + 1);
  run_pg_dump = λ ns path h. (ok 0, record h { files = update path dump_file h.files });
  run_pg_restore = λ path h. (ok 0, record h { outside = 100 });
}

abbrev pub empty_host : Host Rows
empty_host = record {
  files = λ p. none;
  directories = λ d. true;
  writable = λ p. true;
  outside = 0;
}

abbrev manager : BackupManager Rows
manager = record { settings = dev_settings; signing_key = none; host = empty_host }

abbrev backed_up : BackupManager Rows
backed_up = (backup codec backend Level.warning dump_path none manager).1

abbrev result : BackupResult
result = record {
  success = true;
  output_path = some dump_path;
  envelope = some envelope_written;
  error_class = none;
}

backup_succeeds : (backup codec backend Level.warning dump_path none manager).0 ≡ ok result
unfolding running
backup_succeeds = refl

reads_back :
    (e : BackupEnvelope)
    → result.envelope ≡ some e
    → codec.loads (codec.dumps (envelope_dict e)) ≡ some (envelope_dict e)
unfolding envelope_dict
reads_back e h = ground arith

key_elsewhere : dump_path ≢ key_path "/var/lib/df-local"
key_elsewhere h = cc ((path_eq_iff dump_path (key_path "/var/lib/df-local")).1 h)

backup_is_restorable_example :
    (restore codec backend Level.warning dump_path true false true backed_up).0 ≡ ok tt
backup_is_restorable_example =
    backup_is_restorable codec backend Level.warning dump_path none manager result refl
      (λ k m. refl) reads_back key_elsewhere backup_succeeds refl

abbrev rows : Rows → ℕ
rows o = o

rows-ReadsOnly : ReadsOnly backend rows
rows-ReadsOnly = record { token_bytes = λ n o. refl }

restore_fails_closed_example :
    (rows (restore codec backend Level.warning dump_path true false false backed_up).1.host.outside
      ≡ rows backed_up.host.outside)
    ⊎ ((true ≡ true)
        × (false ≡ false)
        × IsAccepted codec backend Level.warning backed_up dump_path false)
restore_fails_closed_example =
    restore_fails_closed codec backend Level.warning rows rows-ReadsOnly backed_up dump_path true
      false false

dry_run_decides_example :
    ((restore codec backend Level.warning dump_path true false true backed_up).0 ≡ ok tt)
    ↔ IsAccepted codec backend Level.warning backed_up dump_path false
dry_run_decides_example =
    dry_run_decides codec backend Level.warning backed_up dump_path false refl (λ k m. refl)

-- A changed dump is refused.
abbrev tampered : BackupManager Rows
tampered = record backed_up {
  host = record (backed_up.host) {
    files = update dump_path (record dump_file { bytes = 4 ∷ [] }) backed_up.host.files;
  };
}

tampered_is_refused :
    (restore codec backend Level.warning dump_path true false false tampered).0
    ≡ raised (restore_blocked_error hash_mismatch integrity_failure)
unfolding running
tampered_is_refused = refl

-- A host whose key file is in order, and one whose key file others may read.
abbrev keyed_host : ℕ → Host Rows
keyed_host mode = record empty_host {
  files = update (key_path "/data") (record { bytes = sevens 32; mode = mode }) empty_host.files;
}

abbrev loose_key : File
loose_key = record { bytes = sevens 32; mode = 0o644 }

enough_bytes :
    (n : ℕ) (o : Rows) (raw : List ℕ) → (backend.token_bytes n o).0 ≡ ok raw → length raw ≡ n
enough_bytes n o raw h = ground (arith, length-sevens n)

creates_key :
    (load_or_create_signing_key backend Level.warning "/data" empty_host).0 ≡ ok (sevens 32)
unfolding running
creates_key = refl

key_is_kept_example :
    HoldsKey "/data"
      (sevens 32)
      (load_or_create_signing_key backend Level.warning "/data" empty_host).1
    × (load_or_create_signing_key backend Level.warning "/data"
          (load_or_create_signing_key backend Level.warning "/data" empty_host).1
        ≡ (ok (sevens 32), (load_or_create_signing_key backend Level.warning "/data" empty_host).1))
key_is_kept_example =
    key_is_kept backend Level.warning "/data" empty_host (sevens 32) enough_bytes creates_key
