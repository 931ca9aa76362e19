-- ===== src/Web/Lineage/Handlers.antt =====
-- The lineage routes of app/api/lineage_router.py.
use df_local_foundation.Prelude.{
  ℕ, ◌≡◌, ◌≢◌, refl, ap, sym, ◌∙◌, String, Option, List, [], ◌∷◌, ◌++◌, codes,
}
use df_local_foundation.Runtime.{lineage, Outcome, ok, raised, diverged, Level}
use df_local_foundation.Web.Value.{Value, Row}
use df_local_foundation.Web.Reader.{Query, Connection}
use df_local_foundation.Web.Reader.Connections.{Counts, read_closes}
use df_local_foundation.Web.Routes.{route}
use df_local_foundation.Web.Routes.Answers.{detail_answer, detail_route_lem}
use df_local_foundation.Web.Lineage.{
  decoded, compute_lineage_node_response, target_ids, fetch_lineage_node_row,
  fetch_downstream_edge_rows, fetch_lineage_nodes_by_ids, build_lineage_downstream_response,
  error_class, get_lineage_node, get_lineage_downstream,
}

module _ (loads : String → Option Value) (str : Value → String) {W : Type 0} (db : Connection W)
    (level : Level) where
  -- The answer to a request for one node, from what the read gave: the decoded node, or an empty dict
  -- where its JSON cannot be read; 404 with the id where there is no row; and 503 where the read failed.
  get_lineage_node_answers :
      (node_id : String) (w : W)
      → (get_lineage_node loads str db level node_id w).0
        ≡ detail_answer
            (error_class loads str db level)
            (codes "lineage node not found: " ++ codes node_id)
            (λ row. ok (decoded loads str "node_json" row))
            (fetch_lineage_node_row loads str db level node_id w).0
  unfolding get_lineage_node fetch_lineage_node_row compute_lineage_node_response
  get_lineage_node_answers node_id w =
      detail_route_lem db level lineage (error_class loads str db level)
        (codes "lineage node not found: " ++ codes node_id) (db.fetchrow _)
        (compute_lineage_node_response loads str node_id) node_id w refl (λ a. tt)

  -- A query that opens no connection and ends.
  pub record Queries (opened : W → ℕ) : Type 0 where
    pub fetch_keeps : (q : Query) (w : W) → opened (db.fetch q w).1 ≡ opened w
    pub fetch_ends : (q : Query) (w : W) → (db.fetch q w).0 ≢ diverged

  module _ (opened : W → ℕ) (counts : Counts db opened) (queries : Queries opened) where
    edges_close :
        (node_id : String) (w : W)
        → opened (fetch_downstream_edge_rows loads str db level node_id w).1 ≡ opened w
    unfolding fetch_downstream_edge_rows
    edges_close node_id w =
        read_closes db level lineage opened counts (db.fetch _) w (queries.fetch_keeps _)
          (queries.fetch_ends _)

    targets_close :
        (ids : List String) (w : W)
        → opened (fetch_lineage_nodes_by_ids loads str db level ids w).1 ≡ opened w
    unfolding fetch_lineage_nodes_by_ids
    targets_close [] w = refl
    targets_close (id ∷ ids) w =
        read_closes db level lineage opened counts (db.fetch _) w (queries.fetch_keeps _)
          (queries.fetch_ends _)

    -- The downstream route reads twice; however it ends, it leaves as many connections open as there
    -- were before.
    pub get_lineage_downstream_closes :
        (node_id : String) (w : W)
        → opened (get_lineage_downstream loads str db level node_id w).1 ≡ opened w
    unfolding get_lineage_downstream route build_lineage_downstream_response
    get_lineage_downstream_closes node_id w =
        by_edges (fetch_downstream_edge_rows loads str db level node_id w) refl
      where
        kept :
            (o : Outcome (List Row)) (v : W)
            → fetch_downstream_edge_rows loads str db level node_id w ≡ (o, v)
            → opened v ≡ opened w
        kept o v e = ap (λ (q : Outcome (List Row) × W). opened q.1) (sym e) ∙ edges_close node_id w

        by_nodes :
            (rows : List Row) (ids : List String) (v u : W) (o : Outcome (List Row))
            → fetch_downstream_edge_rows loads str db level node_id w ≡ (ok rows, v)
            → target_ids loads str rows ≡ ok ids
            → fetch_lineage_nodes_by_ids loads str db level ids v ≡ (o, u)
            → opened (get_lineage_downstream loads str db level node_id w).1 ≡ opened w
        by_nodes rows ids v u o e f g = by_outcome o e f g (
            ap (λ (q : Outcome (List Row) × W). opened q.1) (sym g)
            ∙ (targets_close ids v ∙ kept (ok rows) v e))
          where
            by_outcome :
                (o : Outcome (List Row))
                → fetch_downstream_edge_rows loads str db level node_id w ≡ (ok rows, v)
                → target_ids loads str rows ≡ ok ids
                → fetch_lineage_nodes_by_ids loads str db level ids v ≡ (o, u)
                → opened u ≡ opened w
                → opened (get_lineage_downstream loads str db level node_id w).1 ≡ opened w
            by_outcome (ok found) e f g same = rw (e, f, g) same
            by_outcome (raised x) e f g same = rw (e, f, g) same
            by_outcome diverged e f g same = rw (e, f, g) same

        by_targets :
            (rows : List Row) (v : W) (o : Outcome (List String))
            → fetch_downstream_edge_rows loads str db level node_id w ≡ (ok rows, v)
            → target_ids loads str rows ≡ o
            → opened (get_lineage_downstream loads str db level node_id w).1 ≡ opened w
        by_targets rows v (ok ids) e f =
            by_nodes rows ids v (fetch_lineage_nodes_by_ids loads str db level ids v).1
              (fetch_lineage_nodes_by_ids loads str db level ids v).0 e f refl
        by_targets rows v (raised x) e f = rw (e, f) (kept (ok rows) v e)
        by_targets rows v diverged e f = rw (e, f) (kept (ok rows) v e)

        by_edges :
            (q : Outcome (List Row) × W)
            → fetch_downstream_edge_rows loads str db level node_id w ≡ q
            → opened (get_lineage_downstream loads str db level node_id w).1 ≡ opened w
        by_edges (ok rows, v) e = by_targets rows v (target_ids loads str rows) e refl
        by_edges (raised x, v) e = rw e (kept (raised x) v e)
        by_edges (diverged, v) e = rw e (kept diverged v e)
