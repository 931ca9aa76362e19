-- ===== src/RepoContext/Manifest.antt =====
-- scripts/repo_context_tools.py: the checks of the parsed manifest, and the manifest that is built of it.
use df_local_foundation.Prelude.{
  String, Option, none, some, List, [], ◌∷◌, codes, eqb_codes, if◌then◌else◌,
}
use df_local_foundation.Runtime.{value_error, Outcome, ok, raised}
use df_local_foundation.Runtime.Pure.{◌>>=◌}
use df_local_foundation.RepoContext.Yaml.{
  Text, Cell, scalar, container, Container, mapping, sequence, Store, nth, parse_yaml_subset,
}

abbrev pub Entries : Type 0
Entries = List (Text × Cell)

-- What `get` gives: `None`, a text, a dict, or a list.
pub data Item : Type 0 where
  absent : Item
  text : Text → Item
  dict : Entries → Item
  list : List Text → Item

abbrev item_in : Option Container → Item
item_in none = absent
item_in (some (mapping es)) = dict es
item_in (some (sequence ss)) = list ss

abbrev pub item_of_cell : Store → Cell → Item
item_of_cell store (scalar s) = text s
item_of_cell store (container n) = item_in (nth n store)

-- `entries.get(key)`
unfoldable pub get_item : Store → String → Entries → Item
get_item store key [] = absent
get_item store key ((k, c) ∷ es) =
    let rest = get_item store key es in
    if eqb_codes (codes key) k then item_of_cell store c else rest

unfoldable pub require_dict : Item → Outcome Entries
require_dict (dict es) = ok es
require_dict _ = raised value_error

unfoldable pub require_str : Item → Outcome Text
require_str (text []) = raised value_error
require_str (text (c ∷ s)) = ok (c ∷ s)
require_str _ = raised value_error

unfoldable pub require_str_list : Item → Outcome (List Text)
require_str_list (list ss) = ok ss
require_str_list _ = raised value_error

unfoldable pub optional_str_list : Item → List Text
optional_str_list (list ss) = ss
optional_str_list _ = []

-- `require_dict(v, ...) if v is not None else {}`
abbrev dict_if_there : Item → Outcome Entries
dict_if_there absent = ok []
dict_if_there v = require_dict v

-- `v or {}`
abbrev or_no_entries : Item → Item
or_no_entries absent = dict []
or_no_entries (text []) = dict []
or_no_entries (list []) = dict []
or_no_entries v = v

pub record Manifest : Type 0 where
  pub schema_version : Text
  pub full_name : Text
  pub local_name : Text
  pub package_name : Text
  pub default_branch : Text
  pub repo_class : Text
  pub product_name : Text
  pub one_line : Text
  pub authority_role : Text
  pub owns : List Text
  pub does_not_own : List Text
  pub upstream_authorities : Item
  pub downstream_consumers : List Text
  pub canonical_files : List Text
  pub generated_files : List Text
  pub may_edit : List Text
  pub must_not_edit_directly : List Text
  pub must_regenerate : List Text
  pub required_identity_checks : List Text
  pub test_commands : List Text
  pub build_commands : List Text
  pub safety_rules : List Text
  pub llm_rules : List Text

-- The manifest of the root mapping, its parts required in the order of the code.
unfoldable pub manifest_of : Store → Entries → Outcome Manifest
manifest_of store parsed = require_dict (get_item store "repo" parsed) >>= λ repo.
    require_dict (get_item store "identity" parsed) >>= λ identity.
    require_dict (get_item store "agent_edit_policy" parsed) >>= λ policy.
    dict_if_there (get_item store "verification" parsed) >>= λ verification.
    require_str (get_item store "schema_version" parsed) >>= λ schema_version.
    require_str (get_item store "full_name" repo) >>= λ full_name.
    require_str (get_item store "local_name" repo) >>= λ local_name.
    require_str (get_item store "package_name" repo) >>= λ package_name.
    require_str (get_item store "default_branch" repo) >>= λ default_branch.
    require_str (get_item store "repo_class" repo) >>= λ repo_class.
    require_str (get_item store "product_name" identity) >>= λ product_name.
    require_str (get_item store "one_line" identity) >>= λ one_line.
    require_str (get_item store "authority_role" identity) >>= λ authority_role.
    require_str_list (get_item store "owns" parsed) >>= λ owns.
    require_str_list (get_item store "does_not_own" parsed) >>= λ does_not_own.
    require_str_list (get_item store "canonical_files" parsed) >>= λ canonical_files.
    require_str_list (get_item store "generated_files" parsed) >>= λ generated_files.
    require_str_list (get_item store "may_edit" policy) >>= λ may_edit.
    require_str_list (get_item store "must_not_edit_directly" policy) >>= λ must_not_edit.
    require_str_list (get_item store "must_regenerate" policy) >>= λ must_regenerate. ok (record {
      schema_version = schema_version;
      full_name = full_name;
      local_name = local_name;
      package_name = package_name;
      default_branch = default_branch;
      repo_class = repo_class;
      product_name = product_name;
      one_line = one_line;
      authority_role = authority_role;
      owns = owns;
      does_not_own = does_not_own;
      upstream_authorities = or_no_entries (get_item store "upstream_authorities" parsed);
      downstream_consumers = optional_str_list (get_item store "downstream_consumers" parsed);
      canonical_files = canonical_files;
      generated_files = generated_files;
      may_edit = may_edit;
      must_not_edit_directly = must_not_edit;
      must_regenerate = must_regenerate;
      required_identity_checks =
          optional_str_list (get_item store "required_identity_checks" verification);
      test_commands = optional_str_list (get_item store "test_commands" verification);
      build_commands = optional_str_list (get_item store "build_commands" verification);
      safety_rules = optional_str_list (get_item store "safety_rules" verification);
      llm_rules = optional_str_list (get_item store "llm_rules" verification);
    })

-- The entries of the first container, which is the root.
abbrev root_of : Store → Outcome Entries
root_of (mapping es ∷ cs) = ok es
root_of _ = raised value_error

-- The manifest of a text, with the containers that it refers to.
unfoldable pub parse_manifest : Text → Outcome (Manifest × Store)
unfolding parse_yaml_subset manifest_of
parse_manifest source = parse_yaml_subset source >>= λ store.
    root_of store >>= λ parsed. manifest_of store parsed >>= λ manifest. ok (manifest, store)
