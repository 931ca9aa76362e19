-- ===== src/Web/Promotions/Detail.antt =====
-- app/proving_slice_queue_services.py: the details of one entry of the promotion queue.
use df_local_foundation.Prelude.{
  ℕ, ◌&&◌, ◌||◌, not, Bool, true, false, String, Option, none, some, List, [], ◌∷◌, map, codes,
  str_eq, ◌==◌, if◌then◌else◌,
}
use df_local_foundation.Prelude.Int.{pos}
use df_local_foundation.Contract.{Time}
use df_local_foundation.Runtime.{
  proving_slice_queue, not_found, type_error, attribute_error, Outcome, ok, raised,
}
use df_local_foundation.Runtime.Pure.{◌>>=◌}
use df_local_foundation.Web.Value.{
  Value, nil, null, dict, empty, Row, object, to_values, get_or_null, get_or, at, payload_get,
  json_value, is_text, or_empty,
}
use df_local_foundation.Web.Sorting.{sort_by}
use df_local_foundation.Web.Promotions.{Datetime, staleness_posture, datetime_value}

abbrev plain_texts : List (String × String)
plain_texts =
    ("staged", "Admitted locally and waiting for the next promotion check.")
    ∷ ("queued", "Queued for outbound promotion to shared truth.")
    ∷ ("claimed_for_send", "Currently being sent to shared intake.")
    ∷ ("send_failed_retryable", "Last send attempt failed. Will retry automatically.")
    ∷ (
      "awaiting_receipt_reconciliation",
      "Send outcome is uncertain. Awaiting receipt confirmation before marking accepted.",
    )
    ∷ ("accepted", "Accepted by shared intake. Canonical shared truth exists.")
    ∷ ("rejected", "Rejected by shared intake. See rejection reason below.")
    ∷ (
      "dead_lettered",
      "Automatic retries exhausted or non-retryable failure. Operator review required.",
    )
    ∷ []

abbrev look_up : String → List (String × String) → String
look_up s [] = s
look_up s ((k, t) ∷ r) = if str_eq s k then t else look_up s r

-- `_LIFECYCLE_PLAIN_LANGUAGE.get(status, status)`: a list or a dict has no hash.
unfoldable pub plain_language : Value → Outcome Value
plain_language (Value.text s) = ok (Value.text (look_up s plain_texts))
plain_language (Value.list vs) = raised type_error
plain_language (Value.dict fs) = raised type_error
plain_language v = ok v

unfoldable pub starts_with : List ℕ → List ℕ → Bool
starts_with [] s = true
starts_with (c ∷ p) [] = false
starts_with (c ∷ p) (d ∷ s) = (c == d) && starts_with p s

-- `not reason.startswith("Retry ceiling")`, where only a text has that method.
abbrev pub is_under_ceiling : Value → Outcome Bool
is_under_ceiling (Value.text s) = ok (not (starts_with (codes "Retry ceiling") (codes s)))
is_under_ceiling _ = raised attribute_error

-- `status == DEAD_LETTERED and not reason.startswith(...)`
unfoldable pub retry_allowed : Value → Value → Outcome Bool
retry_allowed status reason =
    if is_text "dead_lettered" status then is_under_ceiling reason else ok false

abbrev pub block_of : Value → Row → Bool → Value
block_of status staging allowed = object (
    ("state", status)
    ∷ ("rejection_class", get_or_null "last_remote_error_class" staging)
    ∷ ("dead_letter_reason", get_or_null "dead_letter_reason" staging)
    ∷ ("retry_allowed", Value.truth allowed)
    ∷ ("operator_action_required", Value.truth (is_text "dead_lettered" status))
    ∷ ("_derived", Value.truth true)
    ∷ [])

unfoldable pub rejection_block : Value → Row → Outcome Value
rejection_block status staging =
    if is_text "rejected" status || is_text "dead_lettered" status
    then (retry_allowed status (or_empty (get_or_null "dead_letter_reason" staging)) >>= λ allowed.
        ok (block_of status staging allowed))
    else ok null

abbrev pub attempt_number : Row → Outcome Value
attempt_number row = ok (get_or "attempt_number" (Value.number (pos 0)) row)

-- `str` is Python's `str`.
module _ (str : Value → String) where
  abbrev pub audit_entry : Row → Row
  audit_entry row =
      ("attempted_at", Value.text (str (get_or "attempted_at" (Value.text "") row)))
      ∷ ("attempt_number", get_or_null "attempt_number" row)
      ∷ ("transport_action", get_or_null "transport_action" row)
      ∷ ("outcome_class", get_or_null "outcome_class" row)
      ∷ ("remote_status_code", get_or_null "remote_status_code" row)
      ∷ []

  module _ (parse : String → Option Datetime) (loads : String → Option Value) where
    unfoldable pub detail_of : Time → Row → Row → List Row → Outcome Row
    detail_of now staging artifact attempts =
        let payload = json_value loads (get_or_null "payload_json" artifact) (dict empty) in
        at "queue_status" staging >>= λ status. at "updated_at" staging >>= λ updated.
        datetime_value parse updated >>= λ updated_at. rejection_block status staging >>= λ block.
        at "staged_promotion_id" staging >>= λ id. at "artifact_id" staging >>= λ artifact_id.
        payload_get "operator_summary" (Value.text "No summary available") payload >>= λ title.
        payload_get "system_id" (get_or "produced_by_system" (Value.text "") artifact) payload
        >>= λ system. payload_get "confidence" (Value.text "unknown") payload >>= λ confidence.
            plain_language status >>= λ plain.
            payload_get "evidence_refs" (Value.list nil) payload >>= λ refs.
            payload_get "affected_components" (Value.list nil) payload >>= λ components.
            payload_get "detection_source" null payload >>= λ detection_source.
            payload_get "declared_truth_ref" null payload >>= λ declared.
            payload_get "observed_truth_ref" null payload >>= λ observed.
            sort_by attempt_number attempts >>= λ ordered. ok (
              ("staged_promotion_id", id)
              ∷ ("artifact_id", artifact_id)
              ∷ (
                "summary_header",
                object (
                    ("issue_title", title)
                    ∷ ("target_system", system)
                    ∷ ("confidence_posture", confidence)
                    ∷ ("staleness_posture", Value.text (staleness_posture now updated_at))
                    ∷ ("promotion_lifecycle_state", status)
                    ∷ ("concise_explanation", plain)
                    ∷ ("_derived", Value.truth true)
                    ∷ []),
              )
              ∷ (
                "evidence_summary",
                object (
                    ("evidence_refs", refs)
                    ∷ ("affected_components", components)
                    ∷ ("detection_source", detection_source)
                    ∷ ("declared_truth_ref", declared)
                    ∷ ("observed_truth_ref", observed)
                    ∷ []),
              )
              ∷ (
                "promotion_lifecycle_block",
                object (
                    ("state", status)
                    ∷ ("plain_language", plain)
                    ∷ (
                      "attempt_count",
                      get_or "promotion_attempt_count" (Value.number (pos 0)) staging,
                    )
                    ∷ ("remote_receipt_ref", get_or_null "remote_receipt_ref" staging)
                    ∷ ("last_transport_error", get_or_null "last_transport_error" staging)
                    ∷ ("_derived", Value.truth true)
                    ∷ (
                      "_note",
                      Value.text
                          "This block is derived from staging state. Not canonical lifecycle truth.",
                    )
                    ∷ []),
              )
              ∷ ("rejection_dead_letter_block", block)
              ∷ ("audit_summary", Value.list (to_values (map audit_entry ordered)))
              ∷ [])

    unfoldable pub compute_detail_response :
        Time → String → Option Row → Row → List Row → Outcome Row
    compute_detail_response now id none artifact attempts =
        raised (not_found proving_slice_queue id)
    compute_detail_response now id (some staging) artifact attempts =
        detail_of now staging artifact attempts
