-- ===== src/RepoContext/Instructions.antt =====
-- scripts/repo_context_tools.py: the instruction files that are generated of the manifest.
use df_local_foundation.Prelude.{
  Bool, false, ◌||◌, List, [], ◌∷◌, ◌++◌, codes, eqb_codes, if◌then◌else◌,
}
use df_local_foundation.Runtime.{attribute_error, Outcome, ok, raised}
use df_local_foundation.Runtime.Pure.{◌>>=◌}
use df_local_foundation.RepoContext.Yaml.{Text, Store}
use df_local_foundation.RepoContext.Manifest.{
  Entries, Item, absent, dict, list, item_of_cell, get_item, Manifest, parse_manifest,
}

abbrev pub generated_agent_files : List Text
generated_agent_files =
    codes "AGENTS.md" ∷ codes "CLAUDE.md" ∷ codes "CODEX.md" ∷ codes "GEMINI.md" ∷ []

-- `"".join(f"- {item}\n" for item in items)`
abbrev bullets : List Text → Text
bullets [] = []
bullets (s ∷ ss) = codes "- " ++ (s ++ (codes "\n" ++ bullets ss))

unfoldable pub list_section : List Text → Text
list_section [] = codes "- None declared\n"
list_section (s ∷ ss) = bullets (s ∷ ss)

-- Texts one behind the other.
abbrev concat : List Text → Text
concat [] = []
concat (s ∷ ss) = s ++ concat ss

-- `repr` is Python's text of a list or of a dict, `digest` the hexadecimal SHA-256 of a text.
module _ (repr : Store → Item → Text) (digest : Text → Text) where
  -- `f"{value}"` of what a key holds.
  abbrev format_item : Store → Item → Text
  format_item store (Item.text s) = s
  format_item store v = repr store v

  -- `value.get('owns', 'authority declared in repo.manifest.yaml')`
  abbrev owned : Store → Item → Text
  owned store absent = codes "authority declared in repo.manifest.yaml"
  owned store v = format_item store v

  abbrev authority_text : Store → Item → Text
  authority_text store (dict es) = owned store (get_item store "owns" es)
  authority_text store v = format_item store v

  abbrev authority_lines : Store → Entries → Text
  authority_lines store [] = []
  authority_lines store ((name, c) ∷ es) =
      codes "- "
      ++ (name
          ++ (codes ": "
              ++ (authority_text store (item_of_cell store c)
                  ++ (codes "\n" ++ authority_lines store es))))

  -- `authority_section`: only a dict has `items`.
  unfoldable pub authority_section : Store → Item → Outcome Text
  authority_section store absent = ok (codes "- None declared\n")
  authority_section store (dict []) = ok (codes "- None declared\n")
  authority_section store (dict (e ∷ es)) = ok (authority_lines store (e ∷ es))
  authority_section store (Item.text s) = raised attribute_error
  authority_section store (list ss) = raised attribute_error

  abbrev instructions : Text → Manifest → Text → Text → Text
  instructions file_name m hash authorities = concat (
      codes
        "<!--\nGENERATED FILE - DO NOT EDIT DIRECTLY\n\nSource: repo.manifest.yaml\nGenerated by: scripts/generate_agent_instructions.py\nManifest hash: "
      ∷ hash
      ∷ codes "\nReceipt: receipts/repo-context/latest.json\n-->\n\n# "
      ∷ file_name
      ∷ codes " - "
      ∷ m.product_name
      ∷ codes " Agent Instructions\n\n## Repo Identity\n\n- Full name: "
      ∷ m.full_name
      ∷ codes "\n- Local name: "
      ∷ m.local_name
      ∷ codes "\n- Package name: "
      ∷ m.package_name
      ∷ codes "\n- Default branch: "
      ∷ m.default_branch
      ∷ codes "\n- Repo class: "
      ∷ m.repo_class
      ∷ codes "\n- Product: "
      ∷ m.product_name
      ∷ codes "\n- Authority role: "
      ∷ m.authority_role
      ∷ codes "\n- Summary: "
      ∷ m.one_line
      ∷ codes "\n\n## Owns\n\n"
      ∷ list_section m.owns
      ∷ codes "\n## Does Not Own\n\n"
      ∷ list_section m.does_not_own
      ∷ codes "\n## Upstream Authorities\n\n"
      ∷ authorities
      ∷ codes "\n## Downstream Consumers\n\n"
      ∷ list_section m.downstream_consumers
      ∷ codes "\n## Canonical Files\n\n"
      ∷ list_section m.canonical_files
      ∷ codes "\n## Generated Files\n\n"
      ∷ list_section m.generated_files
      ∷ codes "\n## Agent Edit Policy\n\nAgents may edit:\n\n"
      ∷ list_section m.may_edit
      ∷ codes "\nAgents must not edit these files directly:\n\n"
      ∷ list_section m.must_not_edit_directly
      ∷ codes "\nRegenerate these files after manifest changes:\n\n"
      ∷ list_section m.must_regenerate
      ∷ codes
          "\n## Verification Commands\n\nContext and drift:\n\n- python3 scripts/generate_agent_instructions.py\n- python3 scripts/check_agent_instruction_drift.py\n- python3 scripts/verify_repo_context.py\n\nTests:\n\n"
      ∷ list_section m.test_commands
      ∷ codes "\nBuilds:\n\n"
      ∷ list_section m.build_commands
      ∷ codes "\n## Safety Rules\n\n"
      ∷ list_section m.safety_rules
      ∷ codes "\n## Repo-Specific LLM Rules\n\n"
      ∷ list_section m.llm_rules
      ∷ codes
          "\n## Required Preflight Before Cross-Repo Work\n\n- Confirm the target repo path and git remote before reading architectural meaning from files.\n- Confirm the repo class and authority role from repo.manifest.yaml.\n- List the files you plan to read and edit.\n- Do not mutate upstream authority repos unless the work order explicitly allows it.\n- Run python3 scripts/verify_repo_context.py before claiming this repo is agent-governed.\n"
      ∷ [])

  -- `sha256`
  abbrev pub manifest_hash : Text → Text
  manifest_hash source = codes "sha256:" ++ digest source

  unfoldable pub render_agent_instruction : Text → Manifest → Store → Text → Outcome Text
  unfolding authority_section list_section
  render_agent_instruction file_name m store hash =
      authority_section store m.upstream_authorities >>= λ authorities.
      ok (instructions file_name m hash authorities)

  abbrev pub is_listed : Text → List Text → Bool
  is_listed name [] = false
  is_listed name (s ∷ ss) = eqb_codes name s || is_listed name ss

  unfoldable pub render_listed : List Text → Manifest → Store → Text → Outcome (List (Text × Text))
  unfolding render_agent_instruction
  render_listed [] m store hash = ok []
  render_listed (name ∷ names) m store hash =
      let rest = render_listed names m store hash in
      if is_listed name m.generated_files
      then (render_agent_instruction name m store hash >>= λ contents.
          rest >>= λ others. ok ((name, contents) ∷ others))
      else rest

  -- What `expected_instructions` computes of the text of the manifest.
  unfoldable pub instructions_of : Text → Outcome (List (Text × Text))
  unfolding render_listed
  instructions_of source = parse_manifest source >>= λ (m, store).
      render_listed generated_agent_files m store (manifest_hash source)
