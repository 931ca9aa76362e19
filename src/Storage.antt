-- ===== src/Storage.antt =====
-- The files and the processes that core/backup and core/export use: paths and files of `pathlib`,
-- JSON values, and, as parameters, the digests, the JSON reader and writer and the PostgreSQL tools.
pub mod Paths
use df_local_foundation.Prelude.{
  ℕ, zero, suc, ◌-◌, ◌&&◌, Bool, true, false, String, Option, none, some, List, [], ◌∷◌, ◌++◌,
  eqb_codes, str_eq, codes, length, ltb, ◌==◌, if◌then◌else◌,
}
use df_local_foundation.Contract.{Time, ErrorClass}
use df_local_foundation.Runtime.{Exc, driver_error, Outcome, ok, raised, diverged, Py}

-- A path to a file: its directory, and its name as code points.
pub record FilePath : Type 0 where
  pub parent : String
  pub name : List ℕ

abbrev pub path_eq : FilePath → FilePath → Bool
path_eq p q = str_eq p.parent q.parent && eqb_codes p.name q.name

-- `name.rfind(".")`
unfoldable pub rfind : List ℕ → Option ℕ
rfind [] = none
rfind (c ∷ s) = elim (rfind s) [ some i ↦ some (suc i) | none ↦ if c == b'.' then some 0 else none ]

abbrev pub take : ℕ → List ℕ → List ℕ
take zero s = []
take (suc n) [] = []
take (suc n) (c ∷ s) = c ∷ take n s

-- The name without its suffix: a dot that is the first or the last character begins none.
unfoldable pub stem : List ℕ → List ℕ
unfolding rfind
stem name = elim (rfind name) [
  | none ↦ name
  | some i ↦ if ltb 0 i && ltb i (length name - 1) then take i name else name
]

-- `path.with_suffix(".envelope.json")`
unfoldable pub sidecar : FilePath → FilePath
unfolding stem
sidecar p = record p { name = stem p.name ++ codes ".envelope.json" }

-- A file: its bytes, and its permission bits.
pub record File : Type 0 where
  pub bytes : List ℕ
  pub mode : ℕ

-- The file system, and the state `outside` of the database and of the other processes. A write to a
-- path that is not `writable` raises an `OSError`.
pub record Host (O : Type 0) : Type 0 where
  pub files : FilePath → Option File
  pub directories : String → Bool
  pub writable : FilePath → Bool
  pub outside : O

-- The bits of a file that is made without a mode, under the usual umask.
abbrev pub default_mode : ℕ
default_mode = 0o644

abbrev pub os_error : Exc
os_error = driver_error 5

-- `path.exists()`
abbrev pub exists : Option File → Bool
exists none = false
exists (some f) = true

abbrev pub bytes_of : Option File → Outcome (List ℕ)
bytes_of none = raised os_error
bytes_of (some f) = ok f.bytes

abbrev pub mode_or : ℕ → Option File → ℕ
mode_or m none = m
mode_or m (some f) = f.mode

abbrev pub update : FilePath → File → (FilePath → Option File) → FilePath → Option File
update p f files q = if path_eq q p then some f else files q

module _ {O : Type 0} where
  -- `path.read_bytes()`
  unfoldable pub read_bytes : FilePath → Py (Host O) (List ℕ)
  read_bytes p h = (bytes_of (h.files p), h)

  -- `path.write_bytes(bytes)`: an existing file keeps its mode.
  unfoldable pub write_bytes : FilePath → List ℕ → Py (Host O) (Unit {0})
  write_bytes p bytes h =
      if h.writable p
      then (
        ok tt,
        record h {
          files =
              update p (record { bytes = bytes; mode = mode_or default_mode (h.files p) }) h.files;
        },
      )
      else (raised os_error, h)

  abbrev pub chmod_found : FilePath → ℕ → Option File → Py (Host O) (Unit {0})
  chmod_found p mode none h = (raised os_error, h)
  chmod_found p mode (some f) h =
      (ok tt, record h { files = update p (record f { mode = mode }) h.files })

  -- `path.chmod(mode)`
  unfoldable pub chmod : FilePath → ℕ → Py (Host O) (Unit {0})
  chmod p mode h = chmod_found p mode (h.files p) h

-- A JSON value: a text, `null`, a list of texts, a number or a Boolean, an object. Lists of
-- anything else are left out.
pub data Json : Type 0 where
  text : String → Json
  null : Json
  texts : List String → Json
  scalar : ℕ → Json
  nested : ℕ → Json

abbrev pub Object : Type 0
Object = List (String × Json)

-- What is called of `hashlib`, `hmac` and `json`.
pub record Codec : Type 0 where
  -- "sha256:" and the hex digest of the bytes
  pub sha256 : List ℕ → String
  -- "hmac-sha256:" and the hex digest, of a key and a message
  pub mac : List ℕ → List ℕ → String
  -- json.dumps(d, sort_keys=True, separators=(",", ":"), ensure_ascii=True).encode("utf-8")
  pub dumps_sorted : Object → List ℕ
  -- json.dumps(d, indent=2), as the bytes of the file that holds it
  pub dumps : Object → List ℕ
  -- json.loads of a file's text: `none` for what is no JSON object
  pub loads : List ℕ → Option Object
  -- whether a text is ASCII
  pub is_ascii : String → Bool

-- A row of `core_backup_log` or `core_export_log`.
pub record LogRow : Type 0 where
  pub app_id : String
  pub foundation_version : String
  pub schema_version : String
  pub output_path : FilePath
  pub integrity_hash : String
  pub namespaces : List String
  pub status : String
  pub error_class : Option ErrorClass

-- What is called of the database, of the PostgreSQL tools and of the system.
pub record Backend (O : Type 0) : Type 0 where
  -- datetime.now(UTC).isoformat()
  pub now_text : O → String
  -- secrets.token_bytes(n)
  pub token_bytes : ℕ → Py O (List ℕ)
  -- SELECT current_version FROM core_schema_versions WHERE target = 'core', as the row's value
  pub fetch_core_version : Py O (Option String)
  -- SELECT current_version FROM core_schema_versions WHERE schema_namespace = $1
  pub fetch_app_version : String → Py O (Option String)
  -- INSERT INTO core_backup_log, INSERT INTO core_export_log
  pub insert_backup_row : LogRow → Py O (Unit {0})
  pub insert_export_row : LogRow → Py O (Unit {0})
  -- running pg_dump and pg_restore, with the return code
  pub run_pg_dump : List String → FilePath → Py (Host O) ℕ
  pub run_pg_restore : FilePath → Py (Host O) ℕ
