-- ===== src/RepoContext.antt =====
-- scripts/repo_context_tools.py: the manifest of the repository and what is generated of it.
pub mod Yaml
pub mod Manifest
pub mod Instructions
pub mod Drift
