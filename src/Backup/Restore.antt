-- ===== src/Backup/Restore.antt =====
-- Runs of `BackupManager.restore`, dry or not.
use df_local_foundation.Prelude.{
  ◌≡◌, refl, ◌⊎◌, ◌↔◌, inl, inr, Bool, true, false, Option, none, some, arith, Bool-cases,
}
use df_local_foundation.Runtime.{ok, Level, is_enabled}
use df_local_foundation.Runtime.Rules.{returned-cases}
use df_local_foundation.Storage.{FilePath, File, sidecar, exists, Json, Codec, Backend}
use df_local_foundation.Signing.Canonical.{MacIsAscii, signed_is_verified}
use df_local_foundation.Backup.Envelope.{BackupEnvelope, unsigned_fields}
use df_local_foundation.Backup.{BackupManager}
use df_local_foundation.Backup.Restoring.{
  check_metadata, check_hmac, check_envelope, load_envelope, restore_from, restore,
}
use df_local_foundation.Backup.Checks.{
  ReadsOnly, IsChecked, IsAccepted, Signed, seen-check_envelope, check_hmac-Signed,
  check_metadata-Metadata, Metadata-check_metadata,
}

module _ {O : Type 0} (codec : Codec) (backend : Backend O) (level : Level) where
  sidecar_there :
      (f : Option File) (envelope : BackupEnvelope)
      → load_envelope codec backend level f ≡ some envelope
      → exists f ≡ true
  sidecar_there none envelope h = cc
  sidecar_there (some f) envelope h = refl

  check_envelope-parts :
      (s : BackupManager O) (path : FilePath) (envelope : BackupEnvelope) (allow : Bool)
      → (check_envelope codec backend level path envelope allow s).0 ≡ ok tt
      → (check_metadata codec backend level path envelope s ≡ ok tt)
        × ((check_hmac codec backend level envelope allow envelope.envelope_hmac s).0 ≡ ok tt)
  unfolding check_envelope
  check_envelope-parts s path envelope allow h = ground arith

  check_envelope-IsChecked :
      (s : BackupManager O) (path : FilePath) (envelope : BackupEnvelope) (allow : Bool)
      → (check_envelope codec backend level path envelope allow s).0 ≡ ok tt
      → IsChecked codec backend level s path allow envelope
  check_envelope-IsChecked s path envelope allow h =
      let parts = check_envelope-parts s path envelope allow h in
      let (format, app, content) =
        check_metadata-Metadata codec backend level s path envelope parts.0 in
      record {
        file = content.0;
        format = format;
        app = app;
        here = content.1;
        hash = content.2;
        signed =
            check_hmac-Signed codec backend level envelope allow envelope.envelope_hmac s parts.1;
      }

  -- Nothing is restored but behind an envelope that passed, and only outside of a dry run.
  seen-restore_from :
      {V : Type 0} (seen : O → V)
      → ReadsOnly backend seen
      → (s : BackupManager O) (path : FilePath) (allow dry_run : Bool) (o : Option BackupEnvelope)
      → (seen (restore_from codec backend level path allow dry_run o s).1.host.outside
          ≡ seen s.host.outside)
        ⊎ ((dry_run ≡ false)
            × ((envelope : BackupEnvelope) × (o ≡ some envelope)
                × ((check_envelope codec backend level path envelope allow s).0 ≡ ok tt)))
  unfolding restore_from
  seen-restore_from seen laws s path allow dry_run none = inl refl
  seen-restore_from seen laws s path allow true (some envelope) =
      inl (ground (arith, seen-check_envelope codec backend level seen laws path envelope allow s))
  seen-restore_from seen laws s path allow false (some envelope) =
      elim (returned-cases (check_envelope codec backend level path envelope allow s).0) [
        | inl passed ↦ inr (refl, (envelope, refl, passed))
        | inr other ↦ inl (
            ground (
              arith,
              other,
              seen-check_envelope codec backend level seen laws path envelope allow s,
            ))
      ]

  -- Where the observed part of the outside does change, the restore was confirmed and is no dry run,
  -- and the backup at the path has passed every check: a known format, this app's id, the recorded
  -- hash of the file, and a valid HMAC or none and the operator's leave.
  pub restore_fails_closed :
      {V : Type 0} (seen : O → V)
      → ReadsOnly backend seen
      → (s : BackupManager O) (path : FilePath) (confirm allow dry_run : Bool)
      → (seen (restore codec backend level path confirm allow dry_run s).1.host.outside
          ≡ seen s.host.outside)
        ⊎ ((confirm ≡ true) × (dry_run ≡ false) × IsAccepted codec backend level s path allow)
  unfolding restore
  restore_fails_closed seen laws s path false allow dry_run = inl refl
  restore_fails_closed seen laws s path true allow dry_run =
      elim (Bool-cases (exists (s.host.files (sidecar path)))) [
        | inr gone ↦ rw gone (inl refl)
        | inl here ↦
            rw here
              (elim (seen-restore_from seen laws s path allow dry_run
                (load_envelope codec backend level (s.host.files (sidecar path)))) [
                  | inl same ↦ inl same
                  | inr (applied, (envelope, read, passed)) ↦ inr (
                    refl,
                    applied,
                    record {
                      envelope = envelope;
                      read = read;
                      checked = check_envelope-IsChecked s path envelope allow passed;
                    },
                  )
                ])
      ]

  check_hmac_accepts :
      (s : BackupManager O) (envelope : BackupEnvelope) (allow : Bool) (claimed : Json)
      → MacIsAscii codec
      → Signed codec backend level s envelope allow claimed
      → (check_hmac codec backend level envelope allow claimed s).0 ≡ ok tt
  unfolding check_hmac
  check_hmac_accepts s envelope allow claimed ascii (inl (none_claimed, leave)) =
      rw (none_claimed, leave)
  check_hmac_accepts s envelope allow claimed ascii (inr (key, loaded, same)) =
      rw same
        (ground (arith, loaded, signed_is_verified codec (unsigned_fields envelope) key ascii))

  check_envelope_accepts :
      (s : BackupManager O) (path : FilePath) (allow : Bool) (envelope : BackupEnvelope)
      → MacIsAscii codec
      → IsChecked codec backend level s path allow envelope
      → (check_envelope codec backend level path envelope allow s).0 ≡ ok tt
  unfolding check_envelope
  check_envelope_accepts s path allow envelope ascii c =
      rw
        (Metadata-check_metadata codec backend level s path envelope
          (c.format, c.app, (c.file, c.here, c.hash)))
        (check_hmac_accepts s envelope allow envelope.envelope_hmac ascii c.signed)

  dry_run_returns :
      (s : BackupManager O) (path : FilePath) (allow : Bool) (envelope : BackupEnvelope)
      → is_enabled level Level.info ≡ false
      → (check_envelope codec backend level path envelope allow s).0 ≡ ok tt
      → (restore_from codec backend level path allow true (some envelope) s).0 ≡ ok tt
  unfolding restore_from
  dry_run_returns s path allow envelope quiet passed = ground arith

  from_passed :
      (s : BackupManager O) (path : FilePath) (allow : Bool) (o : Option BackupEnvelope)
      → (restore_from codec backend level path allow true o s).0 ≡ ok tt
      → (envelope : BackupEnvelope) × (o ≡ some envelope)
        × ((check_envelope codec backend level path envelope allow s).0 ≡ ok tt)
  unfolding restore_from
  from_passed s path allow none h = cc
  from_passed s path allow (some envelope) h = (envelope, refl, ground arith)

  dry_run_passed :
      (s : BackupManager O) (path : FilePath) (allow : Bool)
      → (restore codec backend level path true allow true s).0 ≡ ok tt
      → (envelope : BackupEnvelope) × (load_envelope codec backend level
            (s.host.files (sidecar path))
          ≡ some envelope)
        × ((check_envelope codec backend level path envelope allow s).0 ≡ ok tt)
  unfolding restore
  dry_run_passed s path allow h = elim (Bool-cases (exists (s.host.files (sidecar path)))) [
    | inr gone ↦ cc (rw gone at h)
    | inl here ↦
        from_passed s path allow (load_envelope codec backend level (s.host.files (sidecar path)))
          (rw here at h)
  ]

  -- With messages of level INFO off, a dry run returns exactly for a backup that passes every check.
  pub dry_run_decides :
      (s : BackupManager O) (path : FilePath) (allow : Bool)
      → is_enabled level Level.info ≡ false
      → MacIsAscii codec
      → ((restore codec backend level path true allow true s).0 ≡ ok tt)
        ↔ IsAccepted codec backend level s path allow
  unfolding restore
  dry_run_decides s path allow quiet ascii = (forward, backward)
    where
      forward :
          (restore codec backend level path true allow true s).0 ≡ ok tt
          → IsAccepted codec backend level s path allow
      forward h =
          let (envelope, read, passed) = dry_run_passed s path allow h in
          record {
            envelope = envelope;
            read = read;
            checked = check_envelope-IsChecked s path envelope allow passed;
          }

      backward :
          IsAccepted codec backend level s path allow
          → (restore codec backend level path true allow true s).0 ≡ ok tt
      backward a =
          rw (sidecar_there (s.host.files (sidecar path)) a.envelope a.read, a.read)
            (dry_run_returns s path allow a.envelope quiet
              (check_envelope_accepts s path allow a.envelope ascii a.checked))
