-- ===== src/Export/Sealed.antt =====
-- The file and the sidecar of an export of core/export/manager.py.
use df_local_foundation.Prelude.{
  ◌≡◌, refl, sym, ap, ◌∙◌, ◌≢◌, inl, inr, true, false, String, some, arith, Option-cases,
  Bool-cases, str_eq, eq_iff,
}
use df_local_foundation.Runtime.{Outcome, ok, raised, diverged, Level}
use df_local_foundation.Storage.{
  FilePath, File, Host, sidecar, bytes_of, write_bytes, Codec, Backend,
}
use df_local_foundation.Storage.Paths.{path_eq_refl, path_eq-false, sidecar-ne}
use df_local_foundation.Export.{
  ExportEnvelope, ExportResult, ExportManager, export_dict, get_app_schema_version,
  pg_dump_namespace, log_export, compute_hash, export_failed, finish_export, seal_export, export,
  export_envelope,
}

-- The file of an export of the namespace, its envelope, and the sidecar that holds the envelope.
pub record IsSealed {O : Type 0} (codec : Codec) (app_id namespace : String) (path : FilePath)
    (h : Host O) (r : ExportResult) : Type 0 where
  pub envelope : ExportEnvelope
  pub file : File
  pub result : r.envelope ≡ some envelope
  pub here : h.files path ≡ some file
  pub hash : envelope.integrity_hash ≡ codec.sha256 file.bytes
  pub app : envelope.app_id ≡ app_id
  pub scope : envelope.namespace ≡ namespace
  pub written : bytes_of (h.files (sidecar path)) ≡ ok (codec.dumps (export_dict envelope))

module _ {O : Type 0} (codec : Codec) (backend : Backend O) (level : Level) where
  finish_export_lem :
      (namespace : String) (path : FilePath) (e : ExportEnvelope) (s : ExportManager O)
      (r : ExportResult)
      → (finish_export codec backend level namespace path e s).0 ≡ ok r
      → let h = (finish_export codec backend level namespace path e s).1.host in
        (r.envelope ≡ some e)
        × (h.files path ≡ s.host.files path)
        × (bytes_of (h.files (sidecar path)) ≡ ok (codec.dumps (export_dict e)))
  unfolding finish_export write_bytes log_export
  finish_export_lem namespace path e s r done =
      ground
        (arith, path_eq_refl (sidecar path), path_eq-false path (sidecar path) (sidecar-ne path))

  seal_export-IsSealed :
      (namespace : String) (path : FilePath) (version export_at : String) (s : ExportManager O)
      (r : ExportResult)
      → (seal_export codec backend level namespace path version export_at s).0 ≡ ok r
      → IsSealed codec s.settings.df_local_app_id namespace path
          (seal_export codec backend level namespace path version export_at s).1.host
          r
  unfolding seal_export compute_hash
  seal_export-IsSealed namespace path version export_at s r done =
      elim (Option-cases (s.host.files path)) [
        | inl gone ↦ cc (rw gone at done)
        | inr (file, here) ↦
            let envelope =
              export_envelope codec backend level s.settings.df_local_app_id version export_at
                (codec.sha256 file.bytes) namespace in
            rw here (
              let wrote = finish_export_lem namespace path envelope s r (rw here at done) in
              record {
                envelope = envelope;
                file = file;
                result = wrote.0;
                here = wrote.1 ∙ here;
                hash = refl;
                app = refl;
                scope = refl;
                written = wrote.2;
              })
      ]

  settings-get_app_schema_version :
      (namespace : String) (s : ExportManager O)
      → (get_app_schema_version codec backend level namespace s).1.settings ≡ s.settings
  unfolding get_app_schema_version
  settings-get_app_schema_version namespace s = ground arith

  settings-pg_dump_namespace :
      (path : FilePath) (namespace : String) (s : ExportManager O)
      → (pg_dump_namespace codec backend level path namespace s).1.settings ≡ s.settings
  unfolding pg_dump_namespace
  settings-pg_dump_namespace path namespace s = ground arith

  success-export_failed :
      (namespace : String) (path : FilePath) (version : String) (s : ExportManager O)
      (r : ExportResult)
      → (export_failed codec backend level namespace path version s).0 ≡ ok r
      → r.success ≡ false
  unfolding export_failed
  success-export_failed namespace path version s r h = ground arith

  module _ (namespace : String) (path : FilePath) (s : ExportManager O) (r : ExportResult) where
    -- An export that succeeds is the sealing of a dump, from a state with the same settings.
    abbrev Dumped : Type 0
    Dumped =
        (t : ExportManager O) × (t.settings ≡ s.settings)
        × ((version : String) × ((export_at : String) × (export codec backend level namespace path s
                ≡ seal_export codec backend level namespace path version export_at t)))

    by_dump :
        (version : String) (t : ExportManager O) (q : Outcome (Unit {0}) × ExportManager O)
        → str_eq namespace "core" ≡ false
        → get_app_schema_version codec backend level namespace s ≡ (ok version, t)
        → pg_dump_namespace codec backend level path namespace t ≡ q
        → (export codec backend level namespace path s).0 ≡ ok r
        → r.success ≡ true
        → Dumped
    unfolding export
    by_dump version t (ok _, u) n e d done good = (
      u,
      ap (λ (q : Outcome (Unit {0}) × ExportManager O). q.1.settings) (sym d)
          ∙ (settings-pg_dump_namespace path namespace t
              ∙ (ap (λ (q : Outcome String × ExportManager O). q.1.settings) (sym e)
                  ∙ settings-get_app_schema_version namespace s)),
      (version, (backend.now_text t.host.outside, rw (n, e, d))),
    )
    by_dump version t (raised x, u) n e d done good =
        cc (good, success-export_failed namespace path version u r (rw (n, e, d) at done))
    by_dump version t (diverged, u) n e d done good = cc (rw (n, e, d) at done)

    by_version :
        (q : Outcome String × ExportManager O)
        → str_eq namespace "core" ≡ false
        → get_app_schema_version codec backend level namespace s ≡ q
        → (export codec backend level namespace path s).0 ≡ ok r
        → r.success ≡ true
        → Dumped
    unfolding export
    by_version (ok version, t) n e done good =
        by_dump version t (pg_dump_namespace codec backend level path namespace t) n e refl done
          good
    by_version (raised x, t) n e done good = cc (rw (n, e) at done)
    by_version (diverged, t) n e done good = cc (rw (n, e) at done)

    not_core :
        (export codec backend level namespace path s).0 ≡ ok r
        → r.success ≡ true
        → str_eq namespace "core" ≡ false
    unfolding export
    not_core done good = elim (Bool-cases (str_eq namespace "core")) [
      | inl core ↦ ground (arith, rw core at done)
      | inr other ↦ other
    ]

    -- An export that reports success is of another namespace than `core`. The file is at the path,
    -- the envelope names this app, the namespace and the hash of the file, and the sidecar holds the
    -- envelope.
    pub export-IsSealed :
        (export codec backend level namespace path s).0 ≡ ok r
        → r.success ≡ true
        → (namespace ≢ "core")
          × IsSealed codec s.settings.df_local_app_id namespace path
              (export codec backend level namespace path s).1.host
              r
    export-IsSealed done good =
        let other = not_core done good in
        let (t, same, (version, (export_at, e))) =
          by_version (get_app_schema_version codec backend level namespace s) other refl done
            good in
        let sealed =
          seal_export-IsSealed namespace path version export_at t r
            (sym (ap (λ (q : Outcome ExportResult × ExportManager O). q.0) e) ∙ done) in
        (λ core. cc (other, (eq_iff namespace "core").1 core), rw (e, sym same) sealed)
