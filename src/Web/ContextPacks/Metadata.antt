-- ===== src/Web/ContextPacks/Metadata.antt =====
-- The metadata of a context pack that is served, and the answers of its route.
use df_local_foundation.Prelude.{
  ◌≡◌, ◌≢◌, refl, ap, sym, ◌∙◌, String, Option, none, some, ◌++◌, codes, arith, str_eq, eq_iff,
  if◌then◌else◌,
}
use df_local_foundation.Contract.{Time}
use df_local_foundation.Runtime.{context_packs, Outcome, ok, Level}
use df_local_foundation.Runtime.Pure.{bound}
use df_local_foundation.Web.Value.{
  Value, text, dict, empty, Fields, Row, get, get_or_null, at, get_field, json_value, set_fields,
  get_field-set_field,
}
use df_local_foundation.Web.Value.Rows.{at-ok}
use df_local_foundation.Web.Reader.{Connection}
use df_local_foundation.Web.Routes.Answers.{
  detail_answer, detail_route_lem, RaisesForeign, bind-RaisesForeign, at-RaisesForeign,
}
use df_local_foundation.Web.ContextPacks.{
  as_fields, authoritative, pack_response, compute_context_pack_response, fetch_context_pack_row,
  get_context_pack,
}

-- The keys that the row decides are its own, and every other key is the stored metadata's.
abbrev pub IsServed : Row → Fields → Fields → Type 0
IsServed row stored served =
    (get_field "context_pack_id" served ≡ get "context_pack_id" row)
    × (get_field "context_bundle_id" served ≡ get "context_pack_id" row)
    × (get_field "context_bundle_hash" served ≡ get "bundle_hash" row)
    × (get_field "task_intent_id" served ≡ some (get_or_null "task_intent_id" row))
    × (get_field "served_from" served ≡ some (text "precomputed_pact_packet"))
    × ((k : String)
        → k ≢ "context_pack_id"
        → k ≢ "context_bundle_id"
        → k ≢ "context_bundle_hash"
        → k ≢ "task_intent_id"
        → k ≢ "served_from"
        → get_field k served ≡ get_field k stored)

get_field-authoritative :
    (k : String) (id hash intent : Value) (fs : Fields)
    → get_field k (set_fields (authoritative id hash intent) fs) ≡ (
        if str_eq k "served_from"
        then some (text "precomputed_pact_packet")
        else if str_eq k "task_intent_id"
        then some intent
        else if str_eq k "context_bundle_hash"
        then some hash
        else if str_eq k "context_bundle_id"
        then some id
        else if str_eq k "context_pack_id"
        then some id
        else get_field k fs)
unfolding set_fields
get_field-authoritative k id hash intent fs = simp get_field-set_field

as_fields-ok : (v : Value) (fs : Fields) → as_fields v ≡ ok fs → v ≡ dict fs
as_fields-ok (dict gs) fs h = cc
as_fields-ok _ fs h = cc

as_fields-RaisesForeign : (v : Value) → RaisesForeign (as_fields v)
as_fields-RaisesForeign (dict fs) = tt
as_fields-RaisesForeign _ = tt

abbrev metadata_of : Outcome Row → Option Value
metadata_of (ok r) = get "metadata" r
metadata_of _ = none

set_fields-IsServed :
    (row : Row) (id hash : Value) (stored : Fields)
    → get "context_pack_id" row ≡ some id
    → get "bundle_hash" row ≡ some hash
    → IsServed row stored
        (set_fields (authoritative id hash (get_or_null "task_intent_id" row)) stored)
set_fields-IsServed row id hash stored e f =
    let intent = get_or_null "task_intent_id" row in
    (
      get_field-authoritative "context_pack_id" id hash intent stored ∙ sym e,
      get_field-authoritative "context_bundle_id" id hash intent stored ∙ sym e,
      get_field-authoritative "context_bundle_hash" id hash intent stored ∙ sym f,
      get_field-authoritative "task_intent_id" id hash intent stored,
      get_field-authoritative "served_from" id hash intent stored,
      λ k a b c d g. ground (
        arith,
        get_field-authoritative k id hash intent stored,
        eq_iff k "context_pack_id",
        eq_iff k "context_bundle_id",
        eq_iff k "context_bundle_hash",
        eq_iff k "task_intent_id",
        eq_iff k "served_from",
      ),
    )

module _ (loads : String → Option Value) (isoformat : Time → String) where
  -- A pack that is served carries the stored metadata with the identity of its row written over it:
  -- whatever the stored metadata says of the pack's id, its hash, its intent or its origin is replaced.
  pub metadata-IsServed :
      (row response : Row)
      → pack_response loads isoformat row ≡ ok response
      → (stored : Fields) × (served : Fields) × (json_value loads
            (get_or_null "metadata_json" row)
            (dict empty)
          ≡ dict stored)
        × (get "metadata" response ≡ some (dict served))
        × IsServed row stored served
  unfolding pack_response
  metadata-IsServed row response e =
      let (stored, m, e1) =
        bound (as_fields (json_value loads (get_or_null "metadata_json" row) (dict empty))) _
          response e in
      let (id, i, e2) = bound (at "context_pack_id" row) _ response e1 in
      let (hash, h, e3) = bound (at "bundle_hash" row) _ response e2 in
      (
        stored,
        set_fields (authoritative id hash (get_or_null "task_intent_id" row)) stored,
        as_fields-ok _ stored m,
        ap metadata_of (sym e3),
        set_fields-IsServed row id hash stored (at-ok "context_pack_id" row id i)
            (at-ok "bundle_hash" row hash h),
      )

  pack_response-RaisesForeign : (row : Row) → RaisesForeign (pack_response loads isoformat row)
  unfolding pack_response
  pack_response-RaisesForeign row =
      bind-RaisesForeign
        (as_fields (json_value loads (get_or_null "metadata_json" row) (dict empty))) _
        (as_fields-RaisesForeign (json_value loads (get_or_null "metadata_json" row) (dict empty)))
        λ metadata.
          bind-RaisesForeign (at "context_pack_id" row) _ (at-RaisesForeign "context_pack_id" row)
            λ id.
              bind-RaisesForeign (at "bundle_hash" row) _ (at-RaisesForeign "bundle_hash" row)
                λ hash. tt

  -- The answer to a request for a pack, from what the read gave: what is computed of the row, be it the
  -- response or an exception; 404 with the id where there is no row; and 503 where the read failed.
  get_context_pack_answers :
      {W : Type 0} (db : Connection W) (level : Level) (id : String) (w : W)
      → (get_context_pack loads isoformat db level id w).0
        ≡ detail_answer "context_pack_read_failure"
            (codes "context pack " ++ (codes id ++ codes " not found"))
            (pack_response loads isoformat)
            (fetch_context_pack_row loads isoformat db level id w).0
  unfolding get_context_pack fetch_context_pack_row compute_context_pack_response
  get_context_pack_answers db level id w =
      detail_route_lem db level context_packs "context_pack_read_failure"
        (codes "context pack " ++ (codes id ++ codes " not found")) (db.fetchrow _)
        (compute_context_pack_response loads isoformat id) id w refl pack_response-RaisesForeign
