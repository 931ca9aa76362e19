-- ===== src/Web/Lineage.antt =====
-- app/lineage_services.py and app/api/lineage_router.py.
pub mod Handlers
use df_local_foundation.Prelude.{ℕ, String, Option, none, some, List, [], ◌∷◌, ◌++◌, map, codes}
use df_local_foundation.Prelude.Int.{ℤ}
use df_local_foundation.Runtime.{lineage, not_found, Outcome, ok, raised, Py, pure, ◌>>=◌, Level}
use df_local_foundation.Runtime.Pure
use df_local_foundation.Web.Value.{
  Value, null, list, dict, empty, of_list, Row, get_or_null, at, traverse, json_value,
}
use df_local_foundation.Web.Reader.{
  text_argument, texts_argument, Query, Connection, read, select_filtered,
}
use df_local_foundation.Web.Routes.{route, lift}

abbrev pub node_list_select : String
node_list_select = "\n    SELECT node_json\n    FROM lineage_nodes\n"

abbrev pub node_get_sql : String
node_get_sql = "\n    SELECT node_json\n    FROM lineage_nodes\n    WHERE node_id = $1\n"

abbrev pub downstream_edges_sql : String
downstream_edges_sql =
    "\n    SELECT edge_json, target_node_id\n    FROM lineage_edges\n    WHERE source_node_id = $1\n    ORDER BY created_at\n"

abbrev pub nodes_by_ids_sql : String
nodes_by_ids_sql =
    "\n    SELECT node_json\n    FROM lineage_nodes\n    WHERE node_id = ANY($1::text[])\n"

-- `loads` is `json.loads`, `str` Python's `str`.
module _ (loads : String → Option Value) (str : Value → String) where
  -- `_json_value(row.get(column), {})`
  abbrev pub decoded : String → Row → Value
  decoded column row = json_value loads (get_or_null column row) (dict empty)

  abbrev pub decoded_all : String → List Row → Value
  decoded_all column rows = list (of_list (map (decoded column) rows))

  unfoldable pub compute_lineage_nodes_response : List Row → Row
  compute_lineage_nodes_response rows = ("nodes", decoded_all "node_json" rows) ∷ []

  unfoldable pub compute_lineage_node_response : String → Option Row → Outcome Value
  compute_lineage_node_response node_id none = raised (not_found lineage node_id)
  compute_lineage_node_response node_id (some row) = ok (decoded "node_json" row)

  unfoldable pub compute_lineage_downstream_response : String → List Row → List Row → Row
  compute_lineage_downstream_response node_id edge_rows node_rows =
      ("source_node_id", Value.text node_id)
      ∷ ("edges", decoded_all "edge_json" edge_rows)
      ∷ ("nodes", decoded_all "node_json" node_rows)
      ∷ []

  -- `[str(row["target_node_id"]) for row in edge_rows]`
  unfoldable pub target_ids : List Row → Outcome (List String)
  target_ids = traverse (λ row. Pure.◌>>=◌ (at "target_node_id" row) λ v. ok (str v))

  module _ {W : Type 0} (db : Connection W) (threshold : Level) where
    unfoldable pub fetch_lineage_node_rows : Option String → Option String → ℤ → Py W (List Row)
    fetch_lineage_node_rows node_type source_system limit = read db threshold lineage (
        db.fetch (
          select_filtered node_list_select
            (("node_type", node_type) ∷ ("source_system", source_system) ∷ []) 1000 limit))

    unfoldable pub fetch_lineage_node_row : String → Py W (Option Row)
    fetch_lineage_node_row node_id =
        read db threshold lineage (
          db.fetchrow (record { sql = codes node_get_sql; arguments = text_argument node_id ∷ [] }))

    unfoldable pub fetch_downstream_edge_rows : String → Py W (List Row)
    fetch_downstream_edge_rows node_id = read db threshold lineage (
        db.fetch
          (record { sql = codes downstream_edges_sql; arguments = text_argument node_id ∷ [] }))

    -- No ids: no connection is made.
    unfoldable pub fetch_lineage_nodes_by_ids : List String → Py W (List Row)
    fetch_lineage_nodes_by_ids [] = pure []
    fetch_lineage_nodes_by_ids (id ∷ ids) = read db threshold lineage (
        db.fetch
          (record { sql = codes nodes_by_ids_sql; arguments = texts_argument (id ∷ ids) ∷ [] }))

    unfoldable pub build_lineage_downstream_response : String → Py W Row
    build_lineage_downstream_response node_id = fetch_downstream_edge_rows node_id >>= λ edge_rows.
        lift (target_ids edge_rows) >>= λ ids. fetch_lineage_nodes_by_ids ids >>= λ node_rows.
        pure (compute_lineage_downstream_response node_id edge_rows node_rows)

    abbrev pub error_class : String
    error_class = "lineage_read_failure"

    -- `list_lineage_nodes` over `build_lineage_nodes_response`
    unfoldable pub list_lineage_nodes : Option String → Option String → ℤ → Py W Row
    list_lineage_nodes node_type source_system limit = route lineage error_class none (
        fetch_lineage_node_rows node_type source_system limit >>= λ rows.
        lift (ok (compute_lineage_nodes_response rows)))

    -- `get_lineage_node` over `build_lineage_node_response`
    unfoldable pub get_lineage_node : String → Py W Value
    get_lineage_node node_id =
        route lineage error_class (some (codes "lineage node not found: " ++ codes node_id)) (
          fetch_lineage_node_row node_id >>= λ row.
          lift (compute_lineage_node_response node_id row))

    -- `get_lineage_downstream`
    unfoldable pub get_lineage_downstream : String → Py W Row
    get_lineage_downstream node_id =
        route lineage error_class none (build_lineage_downstream_response node_id)
