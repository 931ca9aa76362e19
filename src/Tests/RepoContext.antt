-- ===== src/Tests/RepoContext.antt =====
-- A small manifest, and the theorems about scripts/repo_context_tools.py at it.
use df_local_foundation.Prelude.{
  ◌≡◌, ◌↔◌, refl, Bool, true, not, ◌&&◌, contains, arith, none, some, [], ◌∷◌, codes, eqb_codes,
  All, if◌then◌else◌,
}
use df_local_foundation.Runtime.{Outcome, ok}
use df_local_foundation.Text.{is_space, lstrip, rstrip, strip, split}
use df_local_foundation.RepoContext.Yaml.{
  Text, Store, replace_crlf, indent_of, lines_of, parse_scalar, next_child_is_list, set_entry,
  unwind, split_colon, parse_lines, parse_yaml_subset,
}
use df_local_foundation.RepoContext.Yaml.Safety.{IsParsed, parse_yaml_subset-IsParsed}
use df_local_foundation.RepoContext.Manifest.{
  Item, get_item, require_dict, require_str, require_str_list, optional_str_list, manifest_of,
  parse_manifest,
}
use df_local_foundation.RepoContext.Instructions.{
  list_section, authority_section, render_agent_instruction, render_listed, instructions_of,
}
use df_local_foundation.RepoContext.Drift.{
  Tree, Files, newlines, manifest_name, expected_instructions, generate, check_drift,
}
use df_local_foundation.RepoContext.Drift.Laws.{
  HasNoCr, IsCurrent, check_drift_iff, drift_after_generate,
}

abbrev source : Text
source =
    codes
      "schema_version: v1\nrepo:\n  full_name: a/b\n  local_name: b\n  package_name: b\n  default_branch: main\n  repo_class: c\nidentity:\n  product_name: B\n  one_line: l\n  authority_role: r\nowns:\n  - x\ndoes_not_own:\n  - y\ncanonical_files:\n  - README.md\ngenerated_files:\n  - AGENTS.md\nagent_edit_policy:\n  may_edit:\n    - z\n  must_not_edit_directly:\n    - AGENTS.md\n  must_regenerate:\n    - AGENTS.md\n"

abbrev tree : Tree
tree name = if eqb_codes name manifest_name then some source else none

abbrev repr : Store → Item → Text
repr store v = []

abbrev digest : Text → Text
digest s = codes "0"

abbrev files_of : Outcome Files × Tree → Files
files_of (ok fs, t) = fs
files_of (r, t) = []

abbrev files : Files
files = files_of (expected_instructions repr digest tree)

files_run : expected_instructions repr digest tree ≡ (ok files, tree)
unfolding is_space lstrip rstrip strip split replace_crlf indent_of lines_of parse_scalar
    next_child_is_list set_entry unwind split_colon parse_lines parse_yaml_subset get_item
    require_dict require_str require_str_list optional_str_list manifest_of parse_manifest
    list_section authority_section render_agent_instruction render_listed instructions_of newlines
    expected_instructions
files_run = refl

-- Whether no text holds a carriage return.
abbrev are_plain : Files → Bool
are_plain [] = true
are_plain ((name, contents) ∷ fs) = not (contains 13 contents) && are_plain fs

are_plain-All : (fs : Files) → are_plain fs ≡ true → All HasNoCr fs
are_plain-All [] h = tt
are_plain-All ((name, contents) ∷ fs) h = (ground arith, are_plain-All fs (ground arith))

files_plain : are_plain files ≡ true
unfolding is_space lstrip rstrip strip split replace_crlf indent_of lines_of parse_scalar
    next_child_is_list set_entry unwind split_colon parse_lines parse_yaml_subset get_item
    require_dict require_str require_str_list optional_str_list manifest_of parse_manifest
    list_section authority_section render_agent_instruction render_listed instructions_of newlines
    expected_instructions
files_plain = refl {a = true}

check_drift_iff_example : ((check_drift repr digest tree).0 ≡ ok 0) ↔ All (IsCurrent tree) files
check_drift_iff_example = check_drift_iff repr digest tree files files_run

drift_after_generate_example : (check_drift repr digest (generate repr digest tree).1).0 ≡ ok 0
drift_after_generate_example =
    drift_after_generate repr digest tree files files_run (are_plain-All files files_plain)

parse_yaml_subset-IsParsed_example : IsParsed (parse_yaml_subset source)
parse_yaml_subset-IsParsed_example = parse_yaml_subset-IsParsed source
