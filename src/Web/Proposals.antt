-- ===== src/Web/Proposals.antt =====
-- app/healing_proposal_services.py and app/api/healing_proposal_router.py.
pub mod Shape
use df_local_foundation.Prelude.{ℕ, String, Option, none, some, List, [], ◌∷◌, ◌++◌, codes, length}
use df_local_foundation.Prelude.Int.{ℤ, pos}
use df_local_foundation.Contract.{Time}
use df_local_foundation.Runtime.{
  healing_proposals, not_found, Outcome, ok, raised, Py, ◌>>=◌, Level,
}
use df_local_foundation.Runtime.Pure
use df_local_foundation.Web.Value.{
  Value, null, number, list, dict, empty, Row, to_values, get_or_null, at, traverse, json_value,
  iso,
}
use df_local_foundation.Web.Reader.{text_argument, Connection, read, select_filtered}
use df_local_foundation.Web.Routes.{route, lift}

abbrev healing_proposal_select : String
healing_proposal_select =
    "\n    SELECT proposal_id, source_system, repo_id, commit_sha, severity,\n           status, schema_version, envelope_json, decision_json, created_at\n    FROM healing_proposals\n"

abbrev healing_proposal_get_sql : List ℕ
healing_proposal_get_sql =
    codes "\n" ++ (codes healing_proposal_select ++ codes "\n    WHERE proposal_id = $1\n")

module _ (loads : String → Option Value) (isoformat : Time → String) where
  -- `_proposal_shape`
  unfoldable pub proposal_shape : Row → Outcome Row
  proposal_shape row = Pure.◌>>=◌ (at "proposal_id" row) λ proposal_id.
      Pure.◌>>=◌ (at "source_system" row) λ source_system.
        Pure.◌>>=◌ (at "severity" row) λ severity. Pure.◌>>=◌ (at "status" row) λ status.
          Pure.◌>>=◌ (at "schema_version" row) λ schema_version. ok (
            ("proposal_id", proposal_id)
            ∷ ("source_system", source_system)
            ∷ ("repo_id", get_or_null "repo_id" row)
            ∷ ("commit_sha", get_or_null "commit_sha" row)
            ∷ ("severity", severity)
            ∷ ("status", status)
            ∷ ("schema_version", schema_version)
            ∷ ("envelope", json_value loads (get_or_null "envelope_json" row) (dict empty))
            ∷ ("decision", json_value loads (get_or_null "decision_json" row) null)
            ∷ ("created_at", iso isoformat (get_or_null "created_at" row))
            ∷ [])

  unfoldable pub compute_healing_proposals_response : List Row → Outcome Row
  compute_healing_proposals_response rows =
      Pure.◌>>=◌ (traverse proposal_shape rows) λ items.
        ok (("items", list (to_values items)) ∷ ("count", number (pos (length items))) ∷ [])

  unfoldable compute_healing_proposal_response : String → Option Row → Outcome Row
  compute_healing_proposal_response proposal_id none =
      raised (not_found healing_proposals proposal_id)
  compute_healing_proposal_response proposal_id (some row) = proposal_shape row

  module _ {W : Type 0} (db : Connection W) (threshold : Level) where
    unfoldable pub fetch_healing_proposal_rows : Option String → Option String → ℤ → Py W (List Row)
    fetch_healing_proposal_rows status repo_id limit = read db threshold healing_proposals (
        db.fetch (
          select_filtered healing_proposal_select (("status", status) ∷ ("repo_id", repo_id) ∷ [])
            200 limit))

    unfoldable fetch_healing_proposal_row : String → Py W (Option Row)
    fetch_healing_proposal_row proposal_id = read db threshold healing_proposals (
        db.fetchrow
          (record { sql = healing_proposal_get_sql; arguments = text_argument proposal_id ∷ [] }))

    -- `list_healing_proposals` over `build_healing_proposals_response`
    unfoldable pub list_healing_proposals : Option String → Option String → ℤ → Py W Row
    list_healing_proposals status repo_id limit =
        route healing_proposals "healing_proposals_read_failure" none (
          fetch_healing_proposal_rows status repo_id limit >>= λ rows.
          lift (compute_healing_proposals_response rows))

    -- `get_healing_proposal` over `build_healing_proposal_response`
    unfoldable get_healing_proposal : String → Py W Row
    get_healing_proposal proposal_id =
        route healing_proposals "healing_proposals_read_failure"
          (some (codes "Proposal " ++ (codes proposal_id ++ codes " not found")))
          (fetch_healing_proposal_row proposal_id >>= λ row.
            lift (compute_healing_proposal_response proposal_id row))
