-- ===== src/Web/Promotions.antt =====
-- app/proving_slice_queue_services.py: the rows of the promotion queue. The details of one entry, the
-- reader and the routes are in the child modules.
pub mod Detail
pub mod Handlers
pub mod Retry
pub mod Audit
pub mod Queue
use df_local_foundation.Prelude.{
  ℕ, suc, ◌+◌, ◌*◌, Bool, true, String, Option, none, some, List, [], ◌∷◌, ltb, if◌then◌else◌,
}
use df_local_foundation.Prelude.Int.{ℤ, pos}
use df_local_foundation.Contract.{Time}
use df_local_foundation.Runtime.{type_error, value_error, Outcome, ok, raised}
use df_local_foundation.Runtime.Pure.{◌>>=◌}
use df_local_foundation.Web.Value
use df_local_foundation.Web.Value.{
  Value, null, dict, empty, Row, get_or_null, get_or, at, payload_get, json_value,
}

-- A `datetime`: its instant, where a naive one counts as UTC, and its offset from UTC in seconds, if it
-- has one, which `isoformat` writes. A time of the database is aware, in UTC.
pub record Datetime : Type 0 where
  pub instant : Time
  pub utc_offset : Option ℤ

abbrev staleness_threshold_seconds : ℕ
staleness_threshold_seconds = 900

-- `_staleness_posture`, where `now` is what the clock reads.
unfoldable pub staleness_posture : Time → Datetime → String
staleness_posture now updated_at =
    if ltb (updated_at.instant + staleness_threshold_seconds * 1000000) now
    then "stale"
    else "fresh"

abbrev or_value_error : Option Datetime → Outcome Datetime
or_value_error none = raised value_error
or_value_error (some t) = ok t

-- `parse` is `datetime.fromisoformat`, with `none` for a `ValueError`.
module _ (parse : String → Option Datetime) where
  -- `_datetime_value`
  unfoldable pub datetime_value : Value → Outcome Datetime
  datetime_value (Value.time t) = ok (record { instant = t; utc_offset = some (pos 0) })
  datetime_value (Value.text s) = or_value_error (parse s)
  datetime_value _ = raised type_error

  module _ (loads : String → Option Value) (isoformat : Datetime → String) where
    unfoldable pub compute_queue_row : Time → Row → Row → Outcome Row
    unfolding datetime_value
    compute_queue_row now staging artifact =
        let payload = json_value loads (get_or_null "payload_json" artifact) (dict empty) in
        at "updated_at" staging >>= λ updated. datetime_value updated >>= λ updated_at.
        at "created_at" staging >>= λ created. datetime_value created >>= λ created_at.
        at "staged_promotion_id" staging >>= λ id. at "artifact_id" staging >>= λ artifact_id.
        payload_get "system_id" (get_or "produced_by_system" (Value.text "") artifact) payload
        >>= λ system_id. payload_get "operator_summary" (Value.text "") payload >>= λ summary.
            at "artifact_family" staging >>= λ family.
            payload_get "drift_class" null payload >>= λ drift_class.
            at "queue_status" staging >>= λ status.
            payload_get "confidence" (Value.text "unknown") payload >>= λ confidence. ok (
              ("staged_promotion_id", id)
              ∷ ("artifact_id", artifact_id)
              ∷ ("system_id", system_id)
              ∷ ("issue_summary", summary)
              ∷ ("artifact_family", family)
              ∷ ("drift_class", drift_class)
              ∷ ("promotion_state", status)
              ∷ ("confidence_posture", confidence)
              ∷ ("created_at", Value.text (isoformat created_at))
              ∷ ("last_state_change_at", Value.text (isoformat updated_at))
              ∷ ("staleness_posture", Value.text (staleness_posture now updated_at))
              ∷ ("changed_since_last_view", Value.truth true)
              ∷ ("attempt_count", get_or "promotion_attempt_count" (Value.number (pos 0)) staging)
              ∷ [])

    -- The artifact's columns of a joined row.
    abbrev pub artifact_of : Row → Row
    artifact_of row =
        ("payload_json", json_value loads (get_or_null "payload_json" row) (dict empty))
        ∷ ("produced_by_system", get_or "produced_by_system" (Value.text "") row)
        ∷ []

    -- The clock is read once for each row: `now n` is the n-th reading.
    unfoldable pub compute_queue_response : (ℕ → Time) → List Row → Outcome (List Row)
    unfolding compute_queue_row
    compute_queue_response now [] = ok []
    compute_queue_response now (row ∷ rows) =
        compute_queue_row (now 0) row (artifact_of row) >>= λ item.
        compute_queue_response (λ n. now (suc n)) rows >>= λ items. ok (item ∷ items)
