-- ===== src/Backup/Checks.antt =====
-- The checks of a restore, one by one.
use df_local_foundation.Prelude.{
  ℕ, ◌≡◌, ◌⊎◌, ◌↔◌, inl, inr, Bool, true, String, Option, none, some, List, arith, eq_iff,
  Option-cases,
}
use df_local_foundation.Runtime.{ok, Level}
use df_local_foundation.Storage.{
  FilePath, File, Host, sidecar, read_bytes, write_bytes, chmod, Json, text, null, Codec, Backend,
}
use df_local_foundation.Signing.{
  load_key, create_key, load_or_create, load_or_create_signing_key, sign_envelope, verify_envelope,
  key_path,
}
use df_local_foundation.Signing.Canonical.{verified_is_signed}
use df_local_foundation.Backup.Envelope.{BackupEnvelope, unsigned_fields, is_supported, equals_text}
use df_local_foundation.Backup.{BackupManager, get_signing_key}
use df_local_foundation.Backup.Restoring.{check_metadata, check_hmac, check_envelope, load_envelope}

-- `seen` observes the database. The system's random bytes do not change it.
pub record ReadsOnly {O V : Type 0} (backend : Backend O) (seen : O → V) : Type 0 where
  pub token_bytes : (n : ℕ) (o : O) → seen (backend.token_bytes n o).1 ≡ seen o

equals_text_iff : (v : Json) (t : String) → (equals_text v t ≡ true) ↔ (v ≡ text t)
equals_text_iff (text s) t = ground (arith, eq_iff s t)
equals_text_iff null t = ground arith
equals_text_iff _ t = ground arith

is_supported_iff : (v : Json) → (is_supported v ≡ ok true) ↔ (v ≡ text "1")
unfolding is_supported
is_supported_iff (text s) = ground (arith, eq_iff s "1")
is_supported_iff null = ground arith
is_supported_iff _ = ground arith

module _ {O : Type 0} (codec : Codec) (backend : Backend O) (level : Level) where
  -- The checks of an envelope that was read.
  pub record IsChecked (s : BackupManager O) (path : FilePath) (allow_unsigned : Bool)
      (envelope : BackupEnvelope) : Type 0 where
    pub file : File
    pub format : envelope.format_version ≡ text "1"
    pub app : envelope.app_id ≡ text s.settings.df_local_app_id
    pub here : s.host.files path ≡ some file
    pub hash : envelope.integrity_hash ≡ text (codec.sha256 file.bytes)
    pub signed :
        ((envelope.envelope_hmac ≡ null) × (allow_unsigned ≡ true))
        ⊎ ((key : List ℕ) × ((get_signing_key codec backend level s).0 ≡ ok key)
            × (envelope.envelope_hmac ≡ text (sign_envelope codec (unsigned_fields envelope) key)))

  -- The backup at a path passes every check of `restore`.
  pub record IsAccepted (s : BackupManager O) (path : FilePath) (allow_unsigned : Bool)
      : Type 0 where
    pub envelope : BackupEnvelope
    pub read : load_envelope codec backend level (s.host.files (sidecar path)) ≡ some envelope
    pub checked : IsChecked s path allow_unsigned envelope

  module _ {V : Type 0} (seen : O → V) (laws : ReadsOnly backend seen) where
    seen-create_key :
        (dir : String) (h : Host O)
        → seen (create_key backend level dir h).1.outside ≡ seen h.outside
    unfolding create_key write_bytes chmod
    seen-create_key dir h = ground (arith, laws.token_bytes 32 h.outside)

    seen-load_or_create :
        (dir : String) (f : Option File) (h : Host O)
        → seen (load_or_create backend level dir f h).1.outside ≡ seen h.outside
    unfolding load_key read_bytes
    seen-load_or_create dir none h = seen-create_key dir h
    seen-load_or_create dir (some f) h = ground arith

    pub seen-get_signing_key :
        (s : BackupManager O)
        → seen (get_signing_key codec backend level s).1.host.outside ≡ seen s.host.outside
    unfolding get_signing_key load_or_create_signing_key
    seen-get_signing_key s = ground (
      arith,
      seen-load_or_create s.settings.df_local_data_dir
          (s.host.files (key_path s.settings.df_local_data_dir)) s.host,
    )

    seen-check_hmac :
        (envelope : BackupEnvelope) (allow : Bool) (claimed : Json) (s : BackupManager O)
        → seen (check_hmac codec backend level envelope allow claimed s).1.host.outside
          ≡ seen s.host.outside
    unfolding check_hmac
    seen-check_hmac envelope allow null s = ground arith
    seen-check_hmac envelope allow _ s = ground (arith, seen-get_signing_key s)

    pub seen-check_envelope :
        (path : FilePath) (envelope : BackupEnvelope) (allow : Bool) (s : BackupManager O)
        → seen (check_envelope codec backend level path envelope allow s).1.host.outside
          ≡ seen s.host.outside
    unfolding check_envelope
    seen-check_envelope path envelope allow s =
        ground (arith, seen-check_hmac envelope allow envelope.envelope_hmac s)

  -- What the check of the HMAC accepts.
  abbrev pub Signed : BackupManager O → BackupEnvelope → Bool → Json → Type 0
  Signed s envelope allow claimed =
      ((claimed ≡ null) × (allow ≡ true))
      ⊎ ((key : List ℕ) × ((get_signing_key codec backend level s).0 ≡ ok key)
          × (claimed ≡ text (sign_envelope codec (unsigned_fields envelope) key)))

  check_hmac-verified :
      (envelope : BackupEnvelope) (allow : Bool) (c : String) (s : BackupManager O)
      → (check_hmac codec backend level envelope allow (text c) s).0 ≡ ok tt
      → (key : List ℕ) × ((get_signing_key codec backend level s).0 ≡ ok key)
        × (verify_envelope codec (unsigned_fields envelope) (text c) key ≡ ok tt)
  unfolding check_hmac
  check_hmac-verified envelope allow c s h = ground arith

  pub check_hmac-Signed :
      (envelope : BackupEnvelope) (allow : Bool) (claimed : Json) (s : BackupManager O)
      → (check_hmac codec backend level envelope allow claimed s).0 ≡ ok tt
      → Signed s envelope allow claimed
  unfolding check_hmac verify_envelope
  check_hmac-Signed envelope allow null s h = ground arith
  check_hmac-Signed envelope allow (text c) s h =
      let (key, loaded, good) = check_hmac-verified envelope allow c s h in
      inr (key, loaded, verified_is_signed codec (unsigned_fields envelope) (text c) key good)
  check_hmac-Signed envelope allow _ s h = ground arith

  -- The facts that the checks of the metadata establish.
  abbrev pub Metadata : BackupManager O → FilePath → BackupEnvelope → Type 0
  Metadata s path envelope =
      (envelope.format_version ≡ text "1")
      × (envelope.app_id ≡ text s.settings.df_local_app_id)
      × ((file : File) × (s.host.files path ≡ some file)
          × (envelope.integrity_hash ≡ text (codec.sha256 file.bytes)))

  pub check_metadata-Metadata :
      (s : BackupManager O) (path : FilePath) (envelope : BackupEnvelope)
      → check_metadata codec backend level path envelope s ≡ ok tt
      → Metadata s path envelope
  unfolding check_metadata
  check_metadata-Metadata s path envelope h = elim (Option-cases (s.host.files path)) [
    | inl gone ↦ ground (arith, equals_text_iff envelope.app_id s.settings.df_local_app_id)
    | inr (file, here) ↦ ground (
      arith,
      is_supported_iff envelope.format_version,
      equals_text_iff envelope.app_id s.settings.df_local_app_id,
      equals_text_iff envelope.integrity_hash (codec.sha256 file.bytes),
    )
  ]

  pub Metadata-check_metadata :
      (s : BackupManager O) (path : FilePath) (envelope : BackupEnvelope)
      → Metadata s path envelope
      → check_metadata codec backend level path envelope s ≡ ok tt
  unfolding check_metadata
  Metadata-check_metadata s path envelope (format, app, (file, here, hash)) = ground (
    arith,
    is_supported_iff envelope.format_version,
    equals_text_iff envelope.app_id s.settings.df_local_app_id,
    equals_text_iff envelope.integrity_hash (codec.sha256 file.bytes),
  )
