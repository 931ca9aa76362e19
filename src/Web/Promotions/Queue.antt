-- ===== src/Web/Promotions/Queue.antt =====
-- The rows of the promotion queue that are shown.
use mathlib.Core.Path.{subst}
use df_local_foundation.Prelude.{
  ℕ, suc, ◌+◌, ◌<◌, ◌≡◌, ◌↔◌, refl, ap, sym, ◌∙◌, Bool, true, false, String, Option, some, List, [],
  ◌∷◌, arith, eq_iff, ltb,
}
use df_local_foundation.Contract.{Time}
use df_local_foundation.Runtime.{ok}
use df_local_foundation.Runtime.Pure.{bound}
use df_local_foundation.Web.Value.{
  Value, dict, null, empty, Row, get, get_or, get_or_null, at, payload_get, json_value,
}
use df_local_foundation.Web.Value.Rows.{keys, Copies, at-IsCopied, at-ok, under, keys_under}
use df_local_foundation.Web.Promotions.{
  Datetime, staleness_posture, datetime_value, compute_queue_row, artifact_of,
  compute_queue_response,
}

abbrev queue_keys : List String
queue_keys =
    "staged_promotion_id" ∷ "artifact_id" ∷ "system_id" ∷ "issue_summary" ∷ "artifact_family"
    ∷ "drift_class" ∷ "promotion_state" ∷ "confidence_posture" ∷ "created_at"
    ∷ "last_state_change_at" ∷ "staleness_posture" ∷ "changed_since_last_view" ∷ "attempt_count"
    ∷ []

abbrev staging_columns : List String
staging_columns = "staged_promotion_id" ∷ "artifact_id" ∷ "artifact_family" ∷ []

posture_iff :
    (now : Time) (updated_at : Datetime) (shown : Option Value)
    → shown ≡ some (Value.text (staleness_posture now updated_at))
    → (shown ≡ some (Value.text "stale")) ↔ (updated_at.instant + 900000000 < now)
unfolding staleness_posture
posture_iff now updated_at shown e = by_test (ltb (updated_at.instant + 900000000) now) refl
  where
    by_test :
        (t : Bool)
        → ltb (updated_at.instant + 900000000) now ≡ t
        → (shown ≡ some (Value.text "stale")) ↔ (updated_at.instant + 900000000 < now)
    by_test true h = (λ k. ground arith, λ k. e ∙ rw h refl)
    by_test false h = (
      λ k.
          let fresh : shown ≡ some (Value.text "fresh") = e ∙ rw h refl in
          let same : ◌≡◌ {A = String} "fresh" "stale" = cc (k, fresh) in
          let clash : false ≡ true = (eq_iff "fresh" "stale").1 same in cc clash,
      λ k. ground arith,
    )

module _ (parse : String → Option Datetime) (loads : String → Option Value)
    (isoformat : Datetime → String) where
  -- The item of a row: it has the thirteen keys of the queue; three columns and the state as they are; and
  -- the posture "stale" exactly if the row changed more than 900 seconds before the clock's reading.
  pub record IsItemOf (now : Time) (row item : Row) : Type 0 where
    pub has_keys : keys item ≡ queue_keys
    pub copied : Copies staging_columns row item
    pub state : (get "promotion_state" item ≡ get "queue_status" row)
    pub updated : Value
    pub updated_at : Datetime
    pub has_updated : get "updated_at" row ≡ some updated
    pub reads_updated : datetime_value parse updated ≡ ok updated_at
    pub shows_updated : get "last_state_change_at" item ≡ some (Value.text (isoformat updated_at))
    pub stale :
        (get "staleness_posture" item ≡ some (Value.text "stale"))
        ↔ (updated_at.instant + 900000000 < now)

  compute_queue_row-IsItemOf :
      (now : Time) (row artifact item : Row)
      → compute_queue_row parse loads isoformat now row artifact ≡ ok item
      → IsItemOf now row item
  unfolding compute_queue_row
  compute_queue_row-IsItemOf now row artifact item e =
      let payload : Value = json_value loads (get_or_null "payload_json" artifact) (dict empty) in
      let (updated, u, e1) = bound (at "updated_at" row) _ item e in
      let (updated_at, t, e2) = bound (datetime_value parse updated) _ item e1 in
      let (created, c, e3) = bound (at "created_at" row) _ item e2 in
      let (created_at, d, e4) = bound (datetime_value parse created) _ item e3 in
      let (id, i, e5) = bound (at "staged_promotion_id" row) _ item e4 in
      let (artifact_id, a, e6) = bound (at "artifact_id" row) _ item e5 in
      let (system, p1, e7) =
        bound
          (payload_get "system_id" (get_or "produced_by_system" (Value.text "") artifact) payload) _
          item e6 in
      let (summary, p2, e8) =
        bound (payload_get "operator_summary" (Value.text "") payload) _ item e7 in
      let (family, f, e9) = bound (at "artifact_family" row) _ item e8 in
      let (drift, p3, f1) = bound (payload_get "drift_class" null payload) _ item e9 in
      let (status, s, f2) = bound (at "queue_status" row) _ item f1 in
      let (confidence, p4, f3) =
        bound (payload_get "confidence" (Value.text "unknown") payload) _ item f2 in
      record {
        has_keys = ap keys_under (sym f3);
        copied = (
          at-IsCopied "staged_promotion_id" row item id i
              (ap (under "staged_promotion_id") (sym f3)),
          (
            at-IsCopied "artifact_id" row item artifact_id a (ap (under "artifact_id") (sym f3)),
            (
              at-IsCopied "artifact_family" row item family f
                  (ap (under "artifact_family") (sym f3)),
              tt,
            ),
          ),
        );
        state = ap (under "promotion_state") (sym f3) ∙ sym (at-ok "queue_status" row status s);
        updated = updated;
        updated_at = updated_at;
        has_updated = at-ok "updated_at" row updated u;
        reads_updated = t;
        shows_updated = ap (under "last_state_change_at") (sym f3);
        stale =
            posture_iff now updated_at (get "staleness_posture" item)
              (ap (under "staleness_posture") (sym f3));
      }

  -- One item for each row, in the order of the rows, each at its own reading of the clock.
  abbrev pub AreItemsOf : (ℕ → Time) → List Row → List Row → Type 0
  AreItemsOf now [] [] = Unit
  AreItemsOf now [] (i ∷ is) = ⊥
  AreItemsOf now (r ∷ rs) [] = ⊥
  AreItemsOf now (r ∷ rs) (i ∷ is) = IsItemOf (now 0) r i × AreItemsOf (λ n. now (suc n)) rs is

  -- A queue that is served has one item for each row, in the order of the rows, each with the thirteen
  -- keys of the queue and the row's own identity and state; its posture is "stale" exactly if the row
  -- changed more than 900 seconds before the clock was read for it.
  pub queue_follows_rows :
      (now : ℕ → Time) (rows items : List Row)
      → compute_queue_response parse loads isoformat now rows ≡ ok items
      → AreItemsOf now rows items
  unfolding compute_queue_response
  queue_follows_rows now [] [] e = tt
  queue_follows_rows now [] (i ∷ is) e = cc
  queue_follows_rows now (r ∷ rs) items e =
      let (item, a, e1) =
        bound
          (compute_queue_row parse loads isoformat (now 0) r (artifact_of parse loads isoformat r))
          _ items e in
      let (rest, b, e2) =
        bound (compute_queue_response parse loads isoformat (λ n. now (suc n)) rs) _ items e1 in
      by_items items item rest
        (compute_queue_row-IsItemOf (now 0) r (artifact_of parse loads isoformat r) item a)
        (queue_follows_rows (λ n. now (suc n)) rs rest b) e2
    where
      by_items :
          (items : List Row) (item : Row) (rest : List Row)
          → IsItemOf (now 0) r item
          → AreItemsOf (λ n. now (suc n)) rs rest
          → ok (item ∷ rest) ≡ ok items
          → AreItemsOf now (r ∷ rs) items
      by_items [] item rest h k e = cc
      by_items (i ∷ is) item rest h k e =
          let same : item ∷ rest ≡ i ∷ is = cc e in subst (AreItemsOf now (r ∷ rs)) same (h, k)
