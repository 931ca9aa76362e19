-- ===== src/Signing/Key.antt =====
-- The signing key on disk: `get_or_create_signing_key` of core/backup/signing.py.
use df_local_foundation.Prelude.{
  ℕ, ◌≡◌, ◌≢◌, ◌↔◌, ◌⊎◌, inl, inr, String, some, List, length, arith, Option-cases,
}
use df_local_foundation.Runtime.{signing_key_error, ok, raised, Level}
use df_local_foundation.Storage.{File, Host, read_bytes, write_bytes, chmod, Backend}
use df_local_foundation.Storage.Paths.{path_eq_refl}
use df_local_foundation.Signing.{key_path, load_key, create_key, load_or_create_signing_key}

-- The key file of a data directory, as it must be to be loaded.
abbrev pub HoldsKey : {O : Type 0} → String → List ℕ → Host O → Type 0
HoldsKey data_dir key h =
    (h.files (key_path data_dir) ≡ some (record { bytes = key; mode = 0o600 })) × (length key ≡ 32)

module _ {O : Type 0} (backend : Backend O) (level : Level) (data_dir : String) where
  load_existing :
      (h : Host O) (key : List ℕ)
      → HoldsKey data_dir key h
      → load_or_create_signing_key backend level data_dir h ≡ (ok key, h)
  unfolding load_or_create_signing_key load_key read_bytes
  load_existing h key (here, long) = rw here (ground arith)

  -- Where there is a key file, it is loaded exactly if its permission bits are 0600 and it has 32 bytes,
  -- and refused with `SigningKeyError` exactly if it is otherwise; nothing is written either way.
  pub existing_key_decides :
      (h : Host O) (f : File) (key : List ℕ)
      → h.files (key_path data_dir) ≡ some f
      → ((load_or_create_signing_key backend level data_dir h ≡ (ok key, h))
          ↔ ((f.bytes ≡ key) × (f.mode ≡ 0o600) × (length key ≡ 32)))
        × ((load_or_create_signing_key backend level data_dir h ≡ (raised signing_key_error, h))
            ↔ ((f.mode ≢ 0o600) ⊎ (length f.bytes ≢ 32)))
  unfolding load_or_create_signing_key load_key read_bytes
  existing_key_decides h f key here = rw here (
    (λ e. ground arith, λ (same, mode, long). ground arith),
    (λ e. ground arith, λ bad. ground arith),
  )

  loaded-HoldsKey :
      (h : Host O) (f : File) (key : List ℕ)
      → h.files (key_path data_dir) ≡ some f
      → (load_key backend level (key_path data_dir) f h).0 ≡ ok key
      → HoldsKey data_dir key (load_key backend level (key_path data_dir) f h).1
  unfolding load_key read_bytes
  loaded-HoldsKey h f key here e = ground arith

  created-HoldsKey :
      (h : Host O) (key : List ℕ)
      → ((raw : List ℕ) → (backend.token_bytes 32 h.outside).0 ≡ ok raw → length raw ≡ 32)
      → (create_key backend level data_dir h).0 ≡ ok key
      → HoldsKey data_dir key (create_key backend level data_dir h).1
  unfolding create_key write_bytes chmod
  created-HoldsKey h key enough e = ground (arith, enough key, path_eq_refl (key_path data_dir))

  kept_file :
      (h : Host O) (key : List ℕ)
      → ((n : ℕ) (o : O) (raw : List ℕ) → (backend.token_bytes n o).0 ≡ ok raw → length raw ≡ n)
      → (load_or_create_signing_key backend level data_dir h).0 ≡ ok key
      → HoldsKey data_dir key (load_or_create_signing_key backend level data_dir h).1
  unfolding load_or_create_signing_key
  kept_file h key enough e = elim (Option-cases (h.files (key_path data_dir))) [
    | inr (f, here) ↦ rw here (loaded-HoldsKey h f key here (rw here at e))
    | inl gone ↦ rw gone (created-HoldsKey h key (enough 32 h.outside) (rw gone at e))
  ]

  -- Whatever key is returned, new or old, if the system's random bytes are as many as asked for:
  -- the key file holds it, with mode 0600, so that the next call returns the same key.
  pub key_is_kept :
      (h : Host O) (key : List ℕ)
      → ((n : ℕ) (o : O) (raw : List ℕ) → (backend.token_bytes n o).0 ≡ ok raw → length raw ≡ n)
      → (load_or_create_signing_key backend level data_dir h).0 ≡ ok key
      → let h' = (load_or_create_signing_key backend level data_dir h).1 in
        HoldsKey data_dir key h'
        × (load_or_create_signing_key backend level data_dir h' ≡ (ok key, h'))
  key_is_kept h key enough e =
      let kept = kept_file h key enough e in
      (kept, load_existing (load_or_create_signing_key backend level data_dir h).1 key kept)
