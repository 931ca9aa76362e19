-- ===== src/Backup/Sealed.antt =====
-- The envelope that `backup` signs and writes, and the checks of `restore`.
use mathlib.Core.Path.{subst}
use df_local_foundation.Prelude.{
  ℕ, ◌≡◌, refl, sym, ap, ◌∙◌, ◌≢◌, inl, inr, true, false, String, Option, none, some, List, arith,
  Option-cases,
}
use df_local_foundation.Runtime.{Outcome, ok, raised, diverged, Level}
use df_local_foundation.Storage.{
  FilePath, File, Host, sidecar, read_bytes, write_bytes, chmod, text, texts, Codec, Backend,
}
use df_local_foundation.Signing.{
  load_key, create_key, load_or_create, load_or_create_signing_key, sign_envelope, key_path,
}
use df_local_foundation.Signing.Canonical.{MacIsAscii}
use df_local_foundation.Backup.Envelope.{BackupEnvelope, unsigned_fields}
use df_local_foundation.Backup.{BackupManager, get_signing_key}
use df_local_foundation.Backup.Restoring.{load_envelope}
use df_local_foundation.Backup.Checks.{IsAccepted}
use df_local_foundation.Storage.{File}
use df_local_foundation.Storage.Paths.{path_eq_refl, path_eq-false, sidecar-ne}
use df_local_foundation.Backup.Envelope.{envelope_dict, envelope_of, envelope_of-envelope_dict}
use df_local_foundation.Backup.{
  BackupResult, log_backup, backup_failed, finish_backup, sign_backup, compute_hash, fresh_envelope,
  covered_fields,
}
use df_local_foundation.Config.{FoundationSettings}
use df_local_foundation.Contract.{ErrorClass, integrity_failure}
use df_local_foundation.Runtime.{signing_key_error}

-- The JSON of the envelope that a backup returned reads back as it was written.
abbrev pub ReadsBack : Codec → BackupResult → Type 0
ReadsBack codec r =
    (e : BackupEnvelope)
    → r.envelope ≡ some e
    → codec.loads (codec.dumps (envelope_dict e)) ≡ some (envelope_dict e)

module _ {O : Type 0} (codec : Codec) (backend : Backend O) (level : Level) where
  files-create_key :
      (dir : String) (h : Host O) (p : FilePath)
      → p ≢ key_path dir
      → (create_key backend level dir h).1.files p ≡ h.files p
  unfolding create_key write_bytes chmod
  files-create_key dir h p other = ground (arith, path_eq-false p (key_path dir) other)

  files-load_or_create :
      (dir : String) (f : Option File) (h : Host O) (p : FilePath)
      → p ≢ key_path dir
      → (load_or_create backend level dir f h).1.files p ≡ h.files p
  unfolding load_key read_bytes
  files-load_or_create dir none h p other = files-create_key dir h p other
  files-load_or_create dir (some f) h p other = ground arith

  -- The key is cached, and no other file is touched.
  get_signing_key_lem :
      (s : BackupManager O) (key : List ℕ) (p : FilePath)
      → p ≢ key_path s.settings.df_local_data_dir
      → (get_signing_key codec backend level s).0 ≡ ok key
      → let t = (get_signing_key codec backend level s).1 in
        (t.signing_key ≡ some key) × (t.settings ≡ s.settings) × (t.host.files p ≡ s.host.files p)
  unfolding get_signing_key load_or_create_signing_key
  get_signing_key_lem s key p other e = ground (
    arith,
    files-load_or_create s.settings.df_local_data_dir
        (s.host.files (key_path s.settings.df_local_data_dir)) s.host p other,
  )

  get_signing_key_cached :
      (s : BackupManager O) (key : List ℕ)
      → s.signing_key ≡ some key
      → (get_signing_key codec backend level s).0 ≡ ok key
  unfolding get_signing_key
  get_signing_key_cached s key h = rw h

  finish_backup_lem :
      (path : FilePath) (namespaces : List String) (e : BackupEnvelope) (version hash : String)
      (t : BackupManager O) (r : BackupResult)
      → (finish_backup codec backend level path namespaces e version hash t).0 ≡ ok r
      → let u = (finish_backup codec backend level path namespaces e version hash t).1 in
        (u.settings ≡ t.settings)
        × (u.signing_key ≡ t.signing_key)
        × (u.host.files path ≡ t.host.files path)
        × (load_envelope codec backend level (u.host.files (sidecar path))
            ≡ envelope_of (codec.loads (codec.dumps (envelope_dict e))))
        × (r.envelope ≡ some e)
  unfolding finish_backup write_bytes log_backup
  finish_backup_lem path namespaces e version hash t r done =
      ground
        (arith, path_eq_refl (sidecar path), path_eq-false path (sidecar path) (sidecar-ne path))

  pub success-backup_failed :
      (path : FilePath) (version : String) (namespaces : List String) (hash : String)
      (error : ErrorClass) (t : BackupManager O) (r : BackupResult)
      → (backup_failed codec backend level path version namespaces hash error t).0 ≡ ok r
      → r.success ≡ false
  unfolding backup_failed
  success-backup_failed path version namespaces hash error t r h = ground arith

  -- The envelope that is written, for a key.
  abbrev signed_envelope : String → String → String → String → List String → List ℕ → BackupEnvelope
  signed_envelope app_id version backup_at hash namespaces key =
      let envelope = fresh_envelope codec backend level app_id version backup_at hash namespaces in
      record envelope {
        envelope_hmac = text (sign_envelope codec (unsigned_fields envelope) key);
        hmac_covers = texts covered_fields;
      }

  module _ (path : FilePath) (namespaces : List String) (version backup_at : String)
      (s : BackupManager O) (r : BackupResult) where
    abbrev Signs : File → List ℕ → Type 0
    Signs file key =
        (s.host.files path ≡ some file)
        × ((get_signing_key codec backend level s).0 ≡ ok key)
        × (sign_backup codec backend level path namespaces version backup_at s
            ≡ finish_backup codec backend level path namespaces
                (signed_envelope s.settings.df_local_app_id version backup_at
                  (codec.sha256 file.bytes) namespaces key)
                version (codec.sha256 file.bytes) (get_signing_key codec backend level s).1)

    by_key :
        (file : File) (q : Outcome (List ℕ) × BackupManager O)
        → s.host.files path ≡ some file
        → get_signing_key codec backend level s ≡ q
        → (sign_backup codec backend level path namespaces version backup_at s).0 ≡ ok r
        → r.success ≡ true
        → (key : List ℕ) × Signs file key
    unfolding sign_backup compute_hash
    by_key file (ok key, t) here e done good = (key, (here, rw e, rw (here, e)))
    by_key file (raised signing_key_error, t) here e done good = cc (
      good,
      success-backup_failed path version namespaces (codec.sha256 file.bytes) integrity_failure t r
          (rw (here, e) at done),
    )
    by_key file (raised x, t) here e done good = cc (rw (here, e) at done)
    by_key file (diverged, t) here e done good = cc (rw (here, e) at done)

    sign_backup_parts :
        (sign_backup codec backend level path namespaces version backup_at s).0 ≡ ok r
        → r.success ≡ true
        → (file : File) × ((key : List ℕ) × Signs file key)
    unfolding sign_backup compute_hash
    sign_backup_parts done good = elim (Option-cases (s.host.files path)) [
      | inl gone ↦ cc (rw gone at done)
      | inr (file, here) ↦
          (file, by_key file (get_signing_key codec backend level s) here refl done good)
    ]

    abbrev signed : File → List ℕ → BackupEnvelope
    signed file key =
        signed_envelope s.settings.df_local_app_id version backup_at (codec.sha256 file.bytes)
          namespaces key

    abbrev finished : File → List ℕ → Outcome BackupResult × BackupManager O
    finished file key =
        finish_backup codec backend level path namespaces (signed file key) version
          (codec.sha256 file.bytes) (get_signing_key codec backend level s).1

    signed_fields_kept :
        (file : File) (key : List ℕ)
        → (signed file key).envelope_hmac
          ≡ text (sign_envelope codec (unsigned_fields (signed file key)) key)
    unfolding unsigned_fields
    signed_fields_kept file key = refl

    -- A backup that succeeds passes the checks of a restore by the same manager.
    pub sign_backup-IsAccepted :
        MacIsAscii codec
        → ReadsBack codec r
        → path ≢ key_path s.settings.df_local_data_dir
        → (sign_backup codec backend level path namespaces version backup_at s).0 ≡ ok r
        → r.success ≡ true
        → IsAccepted codec backend level
            (sign_backup codec backend level path namespaces version backup_at s).1
            path
            false
    sign_backup-IsAccepted ascii reads other done good =
        let (file, (key, parts)) = sign_backup_parts done good in
        subst
          (λ (q : Outcome BackupResult × BackupManager O).
            IsAccepted codec backend level q.1 path false)
          (sym parts.2)
          (accepted file key parts.0 parts.1
            (sym (ap (λ (q : Outcome BackupResult × BackupManager O). q.0) parts.2) ∙ done))
      where
        accepted :
            (file : File) (key : List ℕ)
            → s.host.files path ≡ some file
            → (get_signing_key codec backend level s).0 ≡ ok key
            → (finished file key).0 ≡ ok r
            → IsAccepted codec backend level (finished file key).1 path false
        accepted file key here loaded done =
            let envelope = signed file key in
            let kept = get_signing_key_lem s key path other loaded in
            let wrote =
              finish_backup_lem path namespaces envelope version (codec.sha256 file.bytes)
                (get_signing_key codec backend level s).1 r done in
            record {
              envelope = envelope;
              read =
                  wrote.3
                  ∙ (ap envelope_of (reads envelope wrote.4) ∙ envelope_of-envelope_dict envelope);
              checked = record {
                file = file;
                format = refl;
                app =
                    ap (λ (x : FoundationSettings). text x.df_local_app_id)
                      (sym (wrote.0 ∙ kept.1));
                here = wrote.2 ∙ (kept.2 ∙ here);
                hash = refl;
                signed = inr (
                  key,
                  get_signing_key_cached (finished file key).1 key (wrote.1 ∙ kept.0),
                  signed_fields_kept file key,
                );
              };
            }
