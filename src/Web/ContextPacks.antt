-- ===== src/Web/ContextPacks.antt =====
-- app/context_pack_services.py and app/api/context_pack_router.py.
pub mod Metadata
use df_local_foundation.Prelude.{
  String, Option, none, some, List, [], ◌∷◌, ◌++◌, codes, if◌then◌else◌,
}
use df_local_foundation.Contract.{Time}
use df_local_foundation.Runtime.{
  context_packs, not_found, type_error, Outcome, ok, raised, Py, ◌>>=◌, Level,
}
use df_local_foundation.Runtime.Pure
use df_local_foundation.Web.Value.{
  Value, text, list, dict, nil, empty, Fields, Row, get_or_null, at, json_value, iso, or_empty,
  set_fields,
}
use df_local_foundation.Web.Reader.{text_argument, Connection, read}
use df_local_foundation.Web.Routes.{route, lift}

abbrev context_pack_sql : String
context_pack_sql =
    "\n    SELECT context_pack_id, bundle_hash, task_intent_id,\n           primary_text, supporting_json, metadata_json, created_at\n    FROM context_packs\n    WHERE context_pack_id = $1\n"

-- `{**metadata, …}`: only a dict can be spread.
abbrev pub as_fields : Value → Outcome Fields
as_fields (dict fs) = ok fs
as_fields _ = raised type_error

-- What the row adds to the metadata.
abbrev pub authoritative : Value → Value → Value → Row
authoritative id hash intent =
    ("context_pack_id", id)
    ∷ ("context_bundle_id", id)
    ∷ ("context_bundle_hash", hash)
    ∷ ("task_intent_id", intent)
    ∷ ("served_from", text "precomputed_pact_packet")
    ∷ []

module _ (loads : String → Option Value) (isoformat : Time → String) where
  unfoldable pub pack_response : Row → Outcome Row
  pack_response row =
      let open_metadata = json_value loads (get_or_null "metadata_json" row) (dict empty) in
      Pure.◌>>=◌ (as_fields open_metadata) λ metadata. Pure.◌>>=◌ (at "context_pack_id" row) λ id.
        Pure.◌>>=◌ (at "bundle_hash" row) λ hash. ok (
          ("primary", or_empty (get_or_null "primary_text" row))
          ∷ ("supporting", json_value loads (get_or_null "supporting_json" row) (list nil))
          ∷ (
            "metadata",
            dict (set_fields (authoritative id hash (get_or_null "task_intent_id" row)) metadata),
          )
          ∷ ("context_pack_id", id)
          ∷ ("bundle_hash", hash)
          ∷ ("created_at", iso isoformat (get_or_null "created_at" row))
          ∷ [])

  unfoldable pub compute_context_pack_response : String → Option Row → Outcome Row
  compute_context_pack_response id none = raised (not_found context_packs id)
  compute_context_pack_response id (some row) = pack_response row

  module _ {W : Type 0} (db : Connection W) (threshold : Level) where
    unfoldable pub fetch_context_pack_row : String → Py W (Option Row)
    fetch_context_pack_row id =
        read db threshold context_packs
          (db.fetchrow (record { sql = codes context_pack_sql; arguments = text_argument id ∷ [] }))

    -- `get_context_pack` over `build_context_pack_response`
    unfoldable pub get_context_pack : String → Py W Row
    get_context_pack id =
        route context_packs "context_pack_read_failure"
          (some (codes "context pack " ++ (codes id ++ codes " not found")))
          (fetch_context_pack_row id >>= λ row. lift (compute_context_pack_response id row))
