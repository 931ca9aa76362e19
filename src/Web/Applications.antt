-- ===== src/Web/Applications.antt =====
-- app/public_applications_services.py and app/api/public_applications_router.py.
pub mod Listing
use df_local_foundation.Prelude.{
  ◌&&◌, Bool, String, Option, none, List, [], ◌∷◌, ◌++◌, codes, if◌then◌else◌,
}
use df_local_foundation.Contract.{Time}
use df_local_foundation.Runtime.{public_applications, Outcome, ok, Py, ◌>>=◌, Level}
use df_local_foundation.Runtime.Pure
use df_local_foundation.Web.Value.{Value, Row, get_or_null, at, is_true, traverse, iso}
use df_local_foundation.Web.Sorting.{sort_by}
use df_local_foundation.Web.Reader.{Connection, read}
use df_local_foundation.Web.Routes.{route, lift}

abbrev public_applications_sql : String
public_applications_sql =
    "\n    SELECT application_name, display_name, owns_service_name, ownership_class,\n           visibility_class, forgecustomer_product_ref, is_public, is_enabled,\n           created_at, updated_at\n    FROM service_registry.public_applications\n    WHERE is_enabled = true AND is_public = true\n    ORDER BY application_name\n"

abbrev pub is_shown : Row → Bool
is_shown row = is_true (get_or_null "is_enabled" row) && is_true (get_or_null "is_public" row)

-- `[row for row in rows if ...]`
unfoldable pub shown_rows : List Row → List Row
shown_rows [] = []
shown_rows (row ∷ rows) = let rest = shown_rows rows in if is_shown row then row ∷ rest else rest

-- The entries `k: row[k]` of a dict, in their order.
unfoldable pub entries : List String → Row → Outcome Row
entries columns row = traverse (λ k. Pure.◌>>=◌ (at k row) λ v. ok (k, v)) columns

abbrev pub copied_columns : List String
copied_columns =
    "application_name" ∷ "display_name" ∷ "owns_service_name" ∷ "ownership_class"
    ∷ "visibility_class" ∷ "forgecustomer_product_ref" ∷ "is_public" ∷ "is_enabled" ∷ []

module _ (isoformat : Time → String) where
  unfoldable pub application_shape : Row → Outcome Row
  unfolding entries
  application_shape row = Pure.◌>>=◌ (entries copied_columns row) λ copied.
      Pure.◌>>=◌ (at "created_at" row) λ created_at. Pure.◌>>=◌ (at "updated_at" row) λ updated_at.
        ok (
          copied
          ++ (("created_at", iso isoformat created_at)
              ∷ ("updated_at", iso isoformat updated_at)
              ∷ []))

  unfoldable pub compute_public_applications_response : List Row → Outcome (List Row)
  unfolding shown_rows
  compute_public_applications_response rows =
      Pure.◌>>=◌ (sort_by (at "application_name") (shown_rows rows))
        λ ordered. traverse application_shape ordered

  module _ {W : Type 0} (db : Connection W) (threshold : Level) where
    unfoldable pub fetch_public_application_rows : Py W (List Row)
    fetch_public_application_rows =
        read db threshold public_applications
          (db.fetch (record { sql = codes public_applications_sql; arguments = [] }))

    -- `list_public_applications` over `build_public_applications_response`
    unfoldable pub list_public_applications : Py W (List Row)
    list_public_applications =
        route public_applications "public_applications_read_failure" none (
          fetch_public_application_rows >>= λ rows.
          lift (compute_public_applications_response rows))
