-- ===== src/Tests/Web.antt =====
-- Rows of the tables that the HTTP application serves, and the theorems about app at them.
use mathlib.Core.List.{Perm}
use df_local_foundation.Prelude.{
  ℕ, ◌+◌, ◌-◌, ◌≡◌, str_eq, if◌then◌else◌, refl, true, false, arith, String, Option, none, some,
  List, [], ◌∷◌, ◌++◌, map, All,
}
use df_local_foundation.Prelude.Int.{pos}
use df_local_foundation.Contract.{Time}
use df_local_foundation.Runtime.{ok, Level}
use df_local_foundation.Web.Value
use df_local_foundation.Web.Value.{
  Value, null, dict, empty, field, list, Fields, Row, to_values, get, get_or_null, at, traverse,
  json_value, iso, set_field, set_fields, is_truthy,
}
use df_local_foundation.Web.Value.Rows.{Pointwise}
use df_local_foundation.Web.Sorting.Laws.{IsSortedBy}
use df_local_foundation.Web.Reader.{Connection}
use df_local_foundation.Web.Reader.Connections.{Counts}
use df_local_foundation.Web.ContextPacks.{pack_response}
use df_local_foundation.Web.ContextPacks.Metadata.{IsServed, metadata-IsServed}
use df_local_foundation.Web.Proposals.{proposal_shape, compute_healing_proposals_response}
use df_local_foundation.Web.Proposals.Shape.{IsItemOf, proposals_have_shape}
use df_local_foundation.Web.Applications.{compute_public_applications_response}
use df_local_foundation.Web.Applications.Listing.{
  application, IsComplete, IsPublished, applications_are_listed,
}
use df_local_foundation.Web.Lineage.{get_lineage_downstream}
use df_local_foundation.Web.Lineage.Handlers.{Queries, get_lineage_downstream_closes}

-- A decoder that reads one document only.
abbrev pub loads : String → Option Value
loads s = if str_eq s "{}" then some (dict empty) else none

abbrev pub isoformat : Time → String
isoformat t = "2026-01-05T00:00:00+00:00"

abbrev pub str : Value → String
str (Value.text s) = s
str v = "None"

-- A database with these answers; its state is the number of open connections.
abbrev pub answering : List Row → Connection ℕ
answering rows = record {
  connect = λ w. (ok tt, w + 1);
  fetch = λ q w. (ok rows, w);
  fetchrow = λ q w. (ok none, w);
  close = λ w. (ok tt, w - 1);
}

abbrev edges : List Row
edges = (("edge_json", null) ∷ ("target_node_id", Value.text "n2") ∷ []) ∷ []

counts : Counts (answering edges) (λ w. w)
counts = record {
  connected = λ w h. refl;
  refused = λ w h. absurd (h refl);
  closed = λ w n h. omega arith;
}

queries : Queries loads str (answering edges) Level.warning (λ w. w)
queries = record { fetch_keeps = λ q w. refl; fetch_ends = λ q w h. cc }

get_lineage_downstream_closes_example :
    (get_lineage_downstream loads str (answering edges) Level.warning "n1" 3).1 ≡ 3
get_lineage_downstream_closes_example =
    get_lineage_downstream_closes loads str (answering edges) Level.warning (λ w. w) counts queries
      "n1" 3

abbrev filters : List (String × Option String)
filters = ("status", some "open") ∷ ("repo_id", some "") ∷ []

abbrev stored : Fields
stored = field "author" (Value.text "a") (field "served_from" (Value.text "elsewhere") empty)

abbrev pack_row : Row
pack_row =
    ("context_pack_id", Value.text "p1")
    ∷ ("bundle_hash", Value.text "h")
    ∷ ("metadata_json", dict stored)
    ∷ []

abbrev served : Fields
served = field "author" (Value.text "a") (
    field "served_from" (Value.text "precomputed_pact_packet") (
      field "context_pack_id" (Value.text "p1") (
        field "context_bundle_id" (Value.text "p1")
          (field "context_bundle_hash" (Value.text "h") (field "task_intent_id" null empty)))))

abbrev pack : Row
pack =
    ("primary", Value.text "")
    ∷ ("supporting", list Value.nil)
    ∷ ("metadata", dict served)
    ∷ ("context_pack_id", Value.text "p1")
    ∷ ("bundle_hash", Value.text "h")
    ∷ ("created_at", null)
    ∷ []

pack_is_served : pack_response loads isoformat pack_row ≡ ok pack
unfolding pack_response json_value iso is_truthy set_field set_fields
pack_is_served = refl

metadata-IsServed_example :
    (stored : Fields) × (served : Fields) × (json_value loads
        (get_or_null "metadata_json" pack_row)
        (dict empty)
      ≡ dict stored)
    × (get "metadata" pack ≡ some (dict served))
    × IsServed pack_row stored served
metadata-IsServed_example = metadata-IsServed loads isoformat pack_row pack pack_is_served

abbrev proposal_row : Row
proposal_row =
    ("proposal_id", Value.text "p")
    ∷ ("source_system", Value.text "s")
    ∷ ("severity", Value.text "low")
    ∷ ("status", Value.text "open")
    ∷ ("schema_version", Value.text "v1")
    ∷ ("envelope_json", Value.text "{}")
    ∷ []

abbrev proposal : Row
proposal =
    ("proposal_id", Value.text "p")
    ∷ ("source_system", Value.text "s")
    ∷ ("repo_id", null)
    ∷ ("commit_sha", null)
    ∷ ("severity", Value.text "low")
    ∷ ("status", Value.text "open")
    ∷ ("schema_version", Value.text "v1")
    ∷ ("envelope", dict empty)
    ∷ ("decision", null)
    ∷ ("created_at", null)
    ∷ []

abbrev proposals : Row
proposals = ("items", list (to_values (proposal ∷ []))) ∷ ("count", Value.number (pos 1)) ∷ []

proposals_run :
    compute_healing_proposals_response loads isoformat (proposal_row ∷ []) ≡ ok proposals
unfolding compute_healing_proposals_response proposal_shape json_value iso
proposals_run = refl

proposals_have_shape_example :
    (items : List Row) × (proposals
      ≡ ("items", list (to_values items)) ∷ ("count", Value.number (pos 1)) ∷ [])
    × Pointwise (IsItemOf loads isoformat) (proposal_row ∷ []) items
proposals_have_shape_example =
    proposals_have_shape loads isoformat (proposal_row ∷ []) proposals proposals_run

-- An application that is public or not.
abbrev application_row : String → Value → Row
application_row name is_public =
    ("application_name", Value.text name)
    ∷ ("display_name", null)
    ∷ ("owns_service_name", null)
    ∷ ("ownership_class", null)
    ∷ ("visibility_class", null)
    ∷ ("forgecustomer_product_ref", null)
    ∷ ("is_public", is_public)
    ∷ ("is_enabled", Value.truth true)
    ∷ ("created_at", null)
    ∷ ("updated_at", null)
    ∷ []

abbrev application_rows : List Row
application_rows =
    application_row "b" (Value.truth true)
    ∷ application_row "hidden" (Value.truth false)
    ∷ application_row "a" (Value.truth true)
    ∷ []

applications_are_listed_example :
    (ordered : List Row) × (others : List Row) × (compute_public_applications_response isoformat
        application_rows
      ≡ ok (map (application isoformat) ordered))
    × Perm application_rows (ordered ++ others)
    × All IsPublished ordered
    × All (λ r. ¬ (IsPublished r)) others
    × IsSortedBy (at "application_name") ordered
applications_are_listed_example =
    applications_are_listed isoformat application_rows
      ((λ h. complete "b"), ((λ h. cc h.1), ((λ h. complete "a"), tt)))
  where
    complete : (name : String) → IsComplete (application_row name (Value.truth true))
    complete name = record {
      copied = (
        (Value.text name, refl),
        (
          (null, refl),
          (
            (null, refl),
            (
              (null, refl),
              (
                (null, refl),
                ((null, refl), ((Value.truth true, refl), ((Value.truth true, refl), tt))),
              ),
            ),
          ),
        ),
      );
      created_at = (null, refl);
      updated_at = (null, refl);
      name = (name, refl);
    }
