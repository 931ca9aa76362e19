-- ===== src/Web/Proposals/Shape.antt =====
-- The shape of a healing proposal and of their list, and what the list route answers.
use df_local_foundation.Prelude.{◌≡◌, ap, sym, String, Option, none, some, List, [], ◌∷◌, length}
use df_local_foundation.Prelude.Int.{ℤ, pos}
use df_local_foundation.Contract.{Time}
use df_local_foundation.Runtime.{healing_proposals, ok, Level}
use df_local_foundation.Runtime.Pure.{bound}
use df_local_foundation.Web.Value.{
  Value, null, number, list, dict, empty, Row, to_values, get, get_or_null, at, traverse,
  json_value, iso,
}
use df_local_foundation.Web.Value.Rows.{
  Pointwise, traverse-Pointwise, Pointwise-length, keys, Copies, at-IsCopied, under, keys_under,
}
use df_local_foundation.Web.Reader.{Connection}
use df_local_foundation.Web.Routes.Answers.{answer, route_lem}
use df_local_foundation.Web.Proposals.{
  proposal_shape, compute_healing_proposals_response, fetch_healing_proposal_rows,
  list_healing_proposals,
}

abbrev proposal_keys : List String
proposal_keys =
    "proposal_id" ∷ "source_system" ∷ "repo_id" ∷ "commit_sha" ∷ "severity" ∷ "status"
    ∷ "schema_version" ∷ "envelope" ∷ "decision" ∷ "created_at" ∷ []

abbrev required_columns : List String
required_columns = "proposal_id" ∷ "source_system" ∷ "severity" ∷ "status" ∷ "schema_version" ∷ []

module _ (loads : String → Option Value) (isoformat : Time → String) where
  -- The item of a row: the columns that must be there and those that need not be, as they are, the
  -- envelope and the decision decoded, and the time as text.
  pub record IsItemOf (row item : Row) : Type 0 where
    pub has_keys : keys item ≡ proposal_keys
    pub copies : Copies required_columns row item
    pub repo_id : get "repo_id" item ≡ some (get_or_null "repo_id" row)
    pub commit_sha : get "commit_sha" item ≡ some (get_or_null "commit_sha" row)
    pub envelope :
        get "envelope" item ≡ some (json_value loads (get_or_null "envelope_json" row) (dict empty))
    pub decision :
        get "decision" item ≡ some (json_value loads (get_or_null "decision_json" row) null)
    pub created_at : get "created_at" item ≡ some (iso isoformat (get_or_null "created_at" row))

  proposal_shape-IsItemOf :
      (row item : Row) → proposal_shape loads isoformat row ≡ ok item → IsItemOf row item
  unfolding proposal_shape
  proposal_shape-IsItemOf row item e =
      let (id, a, e1) = bound (at "proposal_id" row) _ item e in
      let (system, b, e2) = bound (at "source_system" row) _ item e1 in
      let (severity, c, e3) = bound (at "severity" row) _ item e2 in
      let (status, d, e4) = bound (at "status" row) _ item e3 in
      let (version, f, e5) = bound (at "schema_version" row) _ item e4 in
      record {
        has_keys = ap keys_under (sym e5);
        copies = (
          at-IsCopied "proposal_id" row item id a (ap (under "proposal_id") (sym e5)),
          (
            at-IsCopied "source_system" row item system b (ap (under "source_system") (sym e5)),
            (
              at-IsCopied "severity" row item severity c (ap (under "severity") (sym e5)),
              (
                at-IsCopied "status" row item status d (ap (under "status") (sym e5)),
                (
                  at-IsCopied "schema_version" row item version f
                      (ap (under "schema_version") (sym e5)),
                  tt,
                ),
              ),
            ),
          ),
        );
        repo_id = ap (under "repo_id") (sym e5);
        commit_sha = ap (under "commit_sha") (sym e5);
        envelope = ap (under "envelope") (sym e5);
        decision = ap (under "decision") (sym e5);
        created_at = ap (under "created_at") (sym e5);
      }

  -- The list of proposals that is computed has the keys `items` and `count`, in this order; the items
  -- are those of the rows, one for each row in their order, each with the ten keys of a proposal; and
  -- the count is the number of rows.
  pub proposals_have_shape :
      (rows : List Row) (response : Row)
      → compute_healing_proposals_response loads isoformat rows ≡ ok response
      → (items : List Row) × (response
          ≡ ("items", list (to_values items)) ∷ ("count", number (pos (length rows))) ∷ [])
        × Pointwise IsItemOf rows items
  unfolding compute_healing_proposals_response
  proposals_have_shape rows response e =
      let (items, a, whole) = bound (traverse (proposal_shape loads isoformat) rows) _ response e in
      let each : Pointwise IsItemOf rows items =
        traverse-Pointwise (proposal_shape loads isoformat) IsItemOf proposal_shape-IsItemOf rows
          items a in
      let same : length items ≡ length rows = Pointwise-length IsItemOf rows items each in
      (items, cc (whole, same), each)

  -- The answer to a request for the list, from what the read gave: what is computed of the rows, and
  -- 503 where the read failed.
  list_healing_proposals_answers :
      {W : Type 0} (db : Connection W) (level : Level) (status repo_id : Option String) (limit : ℤ)
      (w : W)
      → (list_healing_proposals loads isoformat db level status repo_id limit w).0
        ≡ answer healing_proposals "healing_proposals_read_failure" none
            (compute_healing_proposals_response loads isoformat)
            (fetch_healing_proposal_rows loads isoformat db level status repo_id limit w).0
  unfolding list_healing_proposals fetch_healing_proposal_rows
  list_healing_proposals_answers db level status repo_id limit w =
      route_lem db level healing_proposals "healing_proposals_read_failure" none (db.fetch _)
        (compute_healing_proposals_response loads isoformat) w
