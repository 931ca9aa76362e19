-- ===== src/Web/Promotions/Audit.antt =====
-- What the details of an entry of the promotion queue say of its attempts and of a retry,
-- and what its routes answer.
use df_local_foundation.Prelude.{
  ◌≡◌, ◌↔◌, ap, sym, ◌∙◌, true, String, Option, some, List, ◌++◌, map, codes,
}
use df_local_foundation.Contract.{Time}
use df_local_foundation.Runtime.{proving_slice_queue, Level, ok}
use df_local_foundation.Runtime.Pure.{bound}
use df_local_foundation.Web.Value.{
  Value, dict, nil, null, empty, Row, to_values, get, get_or, get_or_null, at, payload_get,
  json_value,
}
use df_local_foundation.Web.Value.Rows.{at-ok, under}
use df_local_foundation.Web.Sorting.{sort_by}
use df_local_foundation.Web.Promotions.{Datetime, datetime_value}
use df_local_foundation.Web.Promotions.Retry.{in_block, IsUnderCeiling, block_allows}
use df_local_foundation.Web.Reader.{Connection}
use df_local_foundation.Web.Routes.Answers.{answer, route_lem}
use df_local_foundation.Web.Promotions.Handlers.{fetch_detail_rows, get_proving_slice_queue_detail}
use df_local_foundation.Web.Promotions.Detail.{
  rejection_block, attempt_number, audit_entry, plain_language, detail_of, compute_detail_response,
}

-- The parts of a response that are looked at below.
record HasParts (str : Value → String) (staging : Row) (attempts : List Row) (response : Row)
    : Type 0 where
  status : Value
  block : Value
  ordered : List Row
  reads_status : get "queue_status" staging ≡ some status
  computes_block : rejection_block status staging ≡ ok block
  ordered_of : sort_by attempt_number attempts ≡ ok ordered
  shows_block : get "rejection_dead_letter_block" response ≡ some block
  shows_audit :
      get "audit_summary" response ≡ some (Value.list (to_values (map (audit_entry str) ordered)))

module _ (str : Value → String) (parse : String → Option Datetime)
    (loads : String → Option Value) where
  detail_parts :
      (now : Time) (staging artifact : Row) (attempts : List Row) (response : Row)
      → detail_of str parse loads now staging artifact attempts ≡ ok response
      → HasParts str staging attempts response
  unfolding detail_of
  detail_parts now staging artifact attempts response e =
      let payload : Value = json_value loads (get_or_null "payload_json" artifact) (dict empty) in
      let (status, s, e1) = bound (at "queue_status" staging) _ response e in
      let (updated, u, e2) = bound (at "updated_at" staging) _ response e1 in
      let (updated_at, t, e3) = bound (datetime_value parse updated) _ response e2 in
      let (block, b, e4) = bound (rejection_block status staging) _ response e3 in
      let (id, i, e5) = bound (at "staged_promotion_id" staging) _ response e4 in
      let (artifact_id, a, e6) = bound (at "artifact_id" staging) _ response e5 in
      let (title, p1, e7) =
        bound (payload_get "operator_summary" (Value.text "No summary available") payload) _
          response e6 in
      let (system, p2, e8) =
        bound
          (payload_get "system_id" (get_or "produced_by_system" (Value.text "") artifact) payload) _
          response e7 in
      let (confidence, p3, e9) =
        bound (payload_get "confidence" (Value.text "unknown") payload) _ response e8 in
      let (plain, l, f) = bound (plain_language status) _ response e9 in
      let (refs, p4, f1) =
        bound (payload_get "evidence_refs" (Value.list nil) payload) _ response f in
      let (components, p5, f2) =
        bound (payload_get "affected_components" (Value.list nil) payload) _ response f1 in
      let (source, p6, f3) = bound (payload_get "detection_source" null payload) _ response f2 in
      let (declared, p7, f4) =
        bound (payload_get "declared_truth_ref" null payload) _ response f3 in
      let (observed, p8, f5) =
        bound (payload_get "observed_truth_ref" null payload) _ response f4 in
      let (ordered, o, f6) = bound (sort_by attempt_number attempts) _ response f5 in
      record {
        status = status;
        block = block;
        ordered = ordered;
        reads_status = at-ok "queue_status" staging status s;
        computes_block = b;
        ordered_of = o;
        shows_block = ap (under "rejection_dead_letter_block") (sym f6);
        shows_audit = ap (under "audit_summary") (sym f6);
      }

  -- The details allow a retry exactly if the entry is dead-lettered and its reason is no text that
  -- begins with "Retry ceiling".
  pub retry_is_allowed_iff :
      (now : Time) (id : String) (staging artifact : Row) (attempts : List Row) (response : Row)
      → compute_detail_response str parse loads now id (some staging) artifact attempts
        ≡ ok response
      → (block : Value) × (get "rejection_dead_letter_block" response ≡ some block)
        × ((in_block "retry_allowed" block ≡ some (Value.truth true)) ↔ (
            (get "queue_status" staging ≡ some (Value.text "dead_lettered"))
            × IsUnderCeiling (get_or_null "dead_letter_reason" staging)))
  unfolding compute_detail_response
  retry_is_allowed_iff now id staging artifact attempts response e =
      let parts = detail_parts now staging artifact attempts response e in
      let allows = block_allows parts.status staging parts.block parts.computes_block in
      let reads_status : get "queue_status" staging ≡ some parts.status = parts.reads_status in
      (
        parts.block,
        parts.shows_block,
        (
          λ h.
              let (dead, under_ceiling) = allows.0 h in
              (reads_status ∙ ap some dead, under_ceiling),
          λ (s, under_ceiling). allows.1 (cc (s, reads_status), under_ceiling),
        ),
      )

  -- The answer to a request for the details of one entry, from what the reads gave: what is computed of
  -- the rows, with 404 and the id where there is no such entry; and 503 where a read failed.
  get_proving_slice_queue_detail_answers :
      {W : Type 0} (db : Connection W) (level : Level) (now : Time) (id : String) (w : W)
      → (get_proving_slice_queue_detail db level parse loads str now id w).0
        ≡ answer proving_slice_queue "proving_slice_queue_read_failure"
            (some (codes "Queue entry not found: " ++ codes id))
            (λ rows. compute_detail_response str parse loads now id rows.0 rows.1 rows.2)
            (fetch_detail_rows db level id w).0
  unfolding get_proving_slice_queue_detail fetch_detail_rows
  get_proving_slice_queue_detail_answers db level now id w =
      route_lem db level proving_slice_queue "proving_slice_queue_read_failure"
        (some (codes "Queue entry not found: " ++ codes id)) _
        (λ rows. compute_detail_response str parse loads now id rows.0 rows.1 rows.2) w
