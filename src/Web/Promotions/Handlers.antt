-- ===== src/Web/Promotions/Handlers.antt =====
-- app/proving_slice_queue_services.py and app/api/proving_slice_queue_router.py: the reader of the
-- promotion queue, and its routes.
use df_local_foundation.Prelude.{ℕ, String, Option, none, some, List, [], ◌∷◌, ◌++◌, codes}
use df_local_foundation.Prelude.Int.{ℤ}
use df_local_foundation.Contract.{Time}
use df_local_foundation.Runtime.{proving_slice_queue, Outcome, Py, pure, ◌>>=◌, Level}
use df_local_foundation.Web.Value.{Value, Row, at}
use df_local_foundation.Web.Reader.{
  text_argument, number_argument, value_argument, Connection, read, clamp_limit,
}
use df_local_foundation.Web.Routes.{route, lift}
use df_local_foundation.Web.Promotions.{Datetime, compute_queue_response}
use df_local_foundation.Web.Promotions.Detail.{compute_detail_response}

abbrev pub queue_sql : String
queue_sql =
    "\n    SELECT s.*, a.payload_json, a.produced_by_system\n    FROM runtime_promotion.ps_promotion_staging s\n    JOIN runtime_promotion.ps_local_artifacts a\n      ON a.artifact_id = s.artifact_id\n    WHERE s.queue_status != $1\n    ORDER BY s.updated_at DESC\n    LIMIT $2\n"

abbrev detail_staging_sql : String
detail_staging_sql =
    "\n    SELECT *\n    FROM runtime_promotion.ps_promotion_staging\n    WHERE staged_promotion_id = $1\n"

abbrev detail_artifact_sql : String
detail_artifact_sql =
    "\n    SELECT *\n    FROM runtime_promotion.ps_local_artifacts\n    WHERE artifact_id = $1\n"

abbrev detail_attempts_sql : String
detail_attempts_sql =
    "\n    SELECT *\n    FROM runtime_promotion.ps_promotion_attempts\n    WHERE staged_promotion_id = $1\n    ORDER BY attempt_number ASC\n"

-- `dict(row) if row is not None else {}`
abbrev or_empty_row : Option Row → Row
or_empty_row none = []
or_empty_row (some row) = row

-- The staging row, the artifact's and those of the attempts.
abbrev DetailRows : Type 0
DetailRows = Option Row × Row × List Row

module _ {W : Type 0} (db : Connection W) (threshold : Level) where
  unfoldable pub fetch_queue_rows : ℤ → Py W (List Row)
  fetch_queue_rows limit = read db threshold proving_slice_queue (
      db.fetch (record {
        sql = codes queue_sql;
        arguments = text_argument "accepted" ∷ number_argument (clamp_limit 1000 limit) ∷ [];
      }))

  -- What is read behind the staging row, over the same connection.
  abbrev fetch_rest : String → Option Row → Py W DetailRows
  fetch_rest id none = pure (none, [], [])
  fetch_rest id (some staging) = lift (at "artifact_id" staging) >>= λ artifact_id.
      db.fetchrow
        (record { sql = codes detail_artifact_sql; arguments = value_argument artifact_id ∷ [] })
      >>= λ artifact.
          db.fetch (record { sql = codes detail_attempts_sql; arguments = text_argument id ∷ [] })
          >>= λ attempts. pure (some staging, or_empty_row artifact, attempts)

  unfoldable pub fetch_detail_rows : String → Py W DetailRows
  fetch_detail_rows id = read db threshold proving_slice_queue (
      db.fetchrow (record { sql = codes detail_staging_sql; arguments = text_argument id ∷ [] })
      >>= fetch_rest id)

  -- `now` is what the clock reads, `parse` `datetime.fromisoformat`, `loads` `json.loads`.
  module _ (parse : String → Option Datetime) (loads : String → Option Value) where
    -- `list_proving_slice_queue` over `build_queue_response`
    unfoldable list_proving_slice_queue : (Datetime → String) → (ℕ → Time) → ℤ → Py W (List Row)
    list_proving_slice_queue isoformat now limit =
        route proving_slice_queue "proving_slice_queue_read_failure" none (
          fetch_queue_rows limit >>= λ rows.
          lift (compute_queue_response parse loads isoformat now rows))

    abbrev computed_detail : (Value → String) → Time → String → DetailRows → Outcome Row
    computed_detail str now id rows =
        compute_detail_response str parse loads now id rows.0 rows.1 rows.2

    -- `get_proving_slice_queue_detail` over `build_detail_response`
    unfoldable pub get_proving_slice_queue_detail : (Value → String) → Time → String → Py W Row
    get_proving_slice_queue_detail str now id =
        route proving_slice_queue "proving_slice_queue_read_failure"
          (some (codes "Queue entry not found: " ++ codes id))
          (fetch_detail_rows id >>= λ rows. lift (computed_detail str now id rows))
