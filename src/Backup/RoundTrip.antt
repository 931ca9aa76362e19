-- ===== src/Backup/RoundTrip.antt =====
-- A backup, and a restore of it.
use mathlib.Core.Path.{subst}
use df_local_foundation.Prelude.{
  ◌≡◌, refl, sym, ap, ◌∙◌, ◌≢◌, true, false, String, Option, List, arith,
}
use df_local_foundation.Runtime.{Outcome, ok, raised, diverged, Level, is_enabled}
use df_local_foundation.Storage.{FilePath, Codec, Backend}
use df_local_foundation.Signing.{key_path}
use df_local_foundation.Signing.Canonical.{MacIsAscii}
use df_local_foundation.Backup.{BackupManager}
use df_local_foundation.Backup.Restoring.{restore}
use df_local_foundation.Backup.Checks.{IsAccepted}
use df_local_foundation.Backup.{BackupResult, sign_backup, backup, get_core_schema_version, pg_dump}
use df_local_foundation.Backup.Restore.{dry_run_decides}
use df_local_foundation.Config.{FoundationSettings}
use df_local_foundation.Contract.{startup_failure}
use df_local_foundation.Backup.Sealed.{ReadsBack, success-backup_failed, sign_backup-IsAccepted}
use df_local_foundation.Backup.{or_core}

module _ {O : Type 0} (codec : Codec) (backend : Backend O) (level : Level) where
  settings-get_core_schema_version :
      (s : BackupManager O)
      → (get_core_schema_version codec backend level s).1.settings ≡ s.settings
  unfolding get_core_schema_version
  settings-get_core_schema_version s = ground arith

  settings-pg_dump :
      (path : FilePath) (namespaces : List String) (s : BackupManager O)
      → (pg_dump codec backend level path namespaces s).1.settings ≡ s.settings
  unfolding pg_dump
  settings-pg_dump path namespaces s = ground arith

  module _ (path : FilePath) (given : Option (List String)) (s : BackupManager O)
      (r : BackupResult) where
    -- A backup that succeeds is the signing of a dump, from a state with the same settings.
    abbrev Dumped : BackupManager O → Type 0
    Dumped t =
        (t.settings ≡ s.settings)
        × ((version : String) × ((backup_at : String) × (backup codec backend level path given s
                ≡ sign_backup codec backend level path (or_core codec backend level given) version
                    backup_at t)))

    by_dump :
        (version : String) (t : BackupManager O) (q : Outcome (Unit {0}) × BackupManager O)
        → get_core_schema_version codec backend level s ≡ (ok version, t)
        → pg_dump codec backend level path (or_core codec backend level given) t ≡ q
        → (backup codec backend level path given s).0 ≡ ok r
        → r.success ≡ true
        → (u : BackupManager O) × Dumped u
    unfolding backup
    by_dump version t (ok tt, u) e d done good = (
      u,
      (
        ap (λ (q : Outcome (Unit {0}) × BackupManager O). q.1.settings) (sym d)
            ∙ (settings-pg_dump path (or_core codec backend level given) t
                ∙ (ap (λ (q : Outcome String × BackupManager O). q.1.settings) (sym e)
                    ∙ settings-get_core_schema_version s)),
        (version, (backend.now_text t.host.outside, rw (e, d))),
      ),
    )
    by_dump version t (raised x, u) e d done good = cc (
      good,
      success-backup_failed codec backend level path version (or_core codec backend level given) ""
          startup_failure u r (rw (e, d) at done),
    )
    by_dump version t (diverged, u) e d done good = cc (rw (e, d) at done)

    by_version :
        (q : Outcome String × BackupManager O)
        → get_core_schema_version codec backend level s ≡ q
        → (backup codec backend level path given s).0 ≡ ok r
        → r.success ≡ true
        → (u : BackupManager O) × Dumped u
    unfolding backup
    by_version (ok version, t) e done good =
        by_dump version t (pg_dump codec backend level path (or_core codec backend level given) t) e
          refl done good
    by_version (raised x, t) e done good = cc (rw e at done)
    by_version (diverged, t) e done good = cc (rw e at done)

    -- A backup that succeeds can be restored: with messages of level INFO off, a path that is not the
    -- key file's, ASCII digests and a sidecar that reads back as it was written, the same manager's
    -- dry run of a restore returns, with no leave for unsigned envelopes.
    pub backup_is_restorable :
        is_enabled level Level.info ≡ false
        → MacIsAscii codec
        → ReadsBack codec r
        → path ≢ key_path s.settings.df_local_data_dir
        → (backup codec backend level path given s).0 ≡ ok r
        → r.success ≡ true
        → (restore codec backend level path true false true
            (backup codec backend level path given s).1).0
          ≡ ok tt
    backup_is_restorable quiet ascii reads other done good =
        let (t, (same, (version, (backup_at, e)))) =
          by_version (get_core_schema_version codec backend level s) refl done good in
        (dry_run_decides codec backend level (backup codec backend level path given s).1 path false
            quiet ascii).1
          (subst
            (λ (q : Outcome BackupResult × BackupManager O).
              IsAccepted codec backend level q.1 path false)
            (sym e)
            (sign_backup-IsAccepted codec backend level path (or_core codec backend level given)
              version backup_at t r ascii reads
              (subst (λ (x : FoundationSettings). path ≢ key_path x.df_local_data_dir) (sym same)
                other)
              (sym (ap (λ (q : Outcome BackupResult × BackupManager O). q.0) e) ∙ done) good))
