-- ===== src/RepoContext/Drift.antt =====
-- scripts/repo_context_tools.py: the generation of the instruction files, and the check of their drift.
pub mod Laws
use df_local_foundation.Prelude.{
  ℕ, Bool, true, false, String, Option, none, some, List, [], ◌∷◌, codes, eqb_codes, ◌==◌,
  if◌then◌else◌,
}
use df_local_foundation.Runtime.{Outcome, ok, raised, Py, ◌>>=◌}
use df_local_foundation.Storage.{os_error}
use df_local_foundation.RepoContext.Yaml.{Text, Store, begins}
use df_local_foundation.RepoContext.Manifest.{Item}
use df_local_foundation.RepoContext.Instructions.{instructions_of}

-- The files under the root: the text of each that is there.
abbrev pub Tree : Type 0
Tree = Text → Option Text

-- The end of each line as `read_text` gives it: "\r\n" and "\r" become "\n".
unfoldable pub newlines : Text → Text
newlines [] = []
newlines (c ∷ s) =
    let rest = newlines s in if c == 13 then (if begins 10 s then rest else 10 ∷ rest) else c ∷ rest

abbrev text_or_error : Option Text → Outcome Text
text_or_error none = raised os_error
text_or_error (some s) = ok (newlines s)

abbrev read_text : Text → Py Tree Text
read_text name t = (text_or_error (t name), t)

abbrev pub written : Text → Text → Tree → Tree
written name contents t other = if eqb_codes other name then some contents else t other

abbrev pub manifest_name : Text
manifest_name = codes "repo.manifest.yaml"

abbrev pub Files : Type 0
Files = List (Text × Text)

-- `write_text` of each file.
unfoldable pub write_all : Files → Tree → Tree
write_all [] t = t
write_all ((name, contents) ∷ fs) t = write_all fs (written name contents t)

pub data Reason : Type 0 where
  missing stale : Reason

abbrev drift_entry : Text → Text → Option Text → List (Text × Reason) → List (Text × Reason)
drift_entry name expected none rest = (name, missing) ∷ rest
drift_entry name expected (some s) rest =
    if eqb_codes (newlines s) expected then rest else (name, stale) ∷ rest

-- The loop of `drift`.
unfoldable pub drift_of : Files → Tree → List (Text × Reason)
drift_of [] t = []
drift_of ((name, expected) ∷ fs) t = drift_entry name expected (t name) (drift_of fs t)

abbrev pub exit_code : List (Text × Reason) → ℕ
exit_code [] = 0
exit_code (r ∷ rs) = 1

module _ (repr : Store → Item → Text) (digest : Text → Text) where
  unfoldable pub expected_instructions : Py Tree Files
  expected_instructions =
      read_text manifest_name >>= λ source t. (instructions_of repr digest source, t)

  unfoldable pub generate : Py Tree (Unit {0})
  unfolding write_all
  generate = expected_instructions >>= λ fs t. (ok tt, write_all fs t)

  unfoldable pub drift : Py Tree (List (Text × Reason))
  unfolding drift_of
  drift = expected_instructions >>= λ fs t. (ok (drift_of fs t), t)

  unfoldable pub check_drift : Py Tree ℕ
  check_drift = drift >>= λ results t. (ok (exit_code results), t)
