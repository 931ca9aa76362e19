-- ===== src/Tests/Promotions.antt =====
-- An entry of the promotion queue with two attempts, and the theorems about
-- app/proving_slice_queue_services.py at it.
use df_local_foundation.Prelude.{ℕ, ◌≡◌, ◌↔◌, refl, true, String, Option, none, some, List, [], ◌∷◌}
use df_local_foundation.Prelude.Int.{pos}
use df_local_foundation.Contract.{Time}
use df_local_foundation.Runtime.{Outcome, ok}
use df_local_foundation.Web.Value.{Value, Row, get, get_or_null, json_value, is_truthy}
use df_local_foundation.Web.Sorting.{le_codes, le_value, insert_keyed, sort_keyed, sort_by}
use df_local_foundation.Web.Promotions.{
  Datetime, staleness_posture, datetime_value, compute_queue_row, compute_queue_response,
}
use df_local_foundation.Web.Promotions.Detail.{
  plain_language, starts_with, retry_allowed, rejection_block, detail_of, compute_detail_response,
}
use df_local_foundation.Web.Promotions.Retry.{in_block, IsUnderCeiling}
use df_local_foundation.Web.Promotions.Audit.{retry_is_allowed_iff}
use df_local_foundation.Web.Promotions.Queue.{AreItemsOf, queue_follows_rows}
use df_local_foundation.Tests.Web.{loads, str}

abbrev parse : String → Option Datetime
parse s = none

abbrev isoformat : Datetime → String
isoformat d = "1970-01-01T00:00:00+00:00"

abbrev staging : Row
staging =
    ("staged_promotion_id", Value.text "sp1")
    ∷ ("artifact_id", Value.text "a1")
    ∷ ("artifact_family", Value.text "drift")
    ∷ ("queue_status", Value.text "dead_lettered")
    ∷ ("dead_letter_reason", Value.text "Rejected by the peer")
    ∷ ("created_at", Value.time 0)
    ∷ ("updated_at", Value.time 1000000)
    ∷ []

abbrev attempts : List Row
attempts =
    (("attempt_number", Value.number (pos 2)) ∷ [])
    ∷ (("attempt_number", Value.number (pos 1)) ∷ [])
    ∷ []

abbrev row_of : Outcome Row → Row
row_of (ok r) = r
row_of _ = []

abbrev rows_of : Outcome (List Row) → List Row
rows_of (ok rs) = rs
rows_of _ = []

abbrev detail : Row
detail =
    row_of (compute_detail_response str parse loads 2000000000 "sp1" (some staging) [] attempts)

detail_run :
    compute_detail_response str parse loads 2000000000 "sp1" (some staging) [] attempts ≡ ok detail
unfolding compute_detail_response detail_of datetime_value rejection_block retry_allowed starts_with
    plain_language staleness_posture sort_by sort_keyed insert_keyed le_value le_codes is_truthy
    json_value
detail_run = refl

retry_is_allowed_iff_example :
    (block : Value) × (get "rejection_dead_letter_block" detail ≡ some block)
    × ((in_block "retry_allowed" block ≡ some (Value.truth true)) ↔ (
        (get "queue_status" staging ≡ some (Value.text "dead_lettered"))
        × IsUnderCeiling (get_or_null "dead_letter_reason" staging)))
retry_is_allowed_iff_example =
    retry_is_allowed_iff str parse loads 2000000000 "sp1" staging [] attempts detail detail_run

abbrev clock : ℕ → Time
clock n = 2000000000

abbrev queue : List Row
queue = rows_of (compute_queue_response parse loads isoformat clock (staging ∷ []))

queue_run : compute_queue_response parse loads isoformat clock (staging ∷ []) ≡ ok queue
unfolding compute_queue_response compute_queue_row datetime_value staleness_posture json_value
queue_run = refl

queue_follows_rows_example : AreItemsOf parse loads isoformat clock (staging ∷ []) queue
queue_follows_rows_example =
    queue_follows_rows parse loads isoformat clock (staging ∷ []) queue queue_run
