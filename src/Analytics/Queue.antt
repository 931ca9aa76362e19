-- ===== src/Analytics/Queue.antt =====
-- `compute_queue_response` of app/analytics_services.py: the counts and the ages of the queue.
use df_local_foundation.Prelude.{
  ℕ, suc, ◌+◌, ◌-◌, ◌*◌, ◌/◌, max, Bool, false, ◌||◌, ◌&&◌, String, Option, none, some, List, [],
  ◌∷◌, length, str_eq, ltb, ◌==◌, if◌then◌else◌,
}
use df_local_foundation.Prelude.Int.{ℤ, pos, negsuc}
use df_local_foundation.Contract.{Time}
use df_local_foundation.Runtime.{overflow_error, Outcome, ok, raised}
use df_local_foundation.Runtime.Pure
use df_local_foundation.Analytics.{age_seconds}

-- A row of `_QUEUE_SQL`.
pub record QueueRow : Type 0 where
  pub queue_status : String
  pub created_at : Option Time
  pub claim_lease_expires_at : Option Time

pub record QueueStatusCounts : Type 0 where
  pub queued : ℕ
  pub leased : ℕ
  pub failed : ℕ
  pub deferred : ℕ

pub record QueueResponse : Type 0 where
  pub computed_at : String
  pub status_counts : QueueStatusCounts
  pub stale_leases : ℕ
  pub oldest_item_age_seconds : ℕ
  pub average_queue_dwell_seconds : ℕ
  pub degradation_flags : List String

-- The variables of the loop over the rows.
pub record Tally : Type 0 where
  pub counts : QueueStatusCounts
  pub stale_leases : ℕ
  pub active_ages : List ℕ

-- `counts[bucket] += 1`, by `_QUEUE_STATUS_TO_BUCKET`; other statuses have no bucket.
unfoldable pub count_status : String → QueueStatusCounts → QueueStatusCounts
count_status status c =
    if str_eq status "staged" || str_eq status "queued"
    then record c { queued = c.queued + 1 }
    else if str_eq status "claimed_for_send" || str_eq status "awaiting_receipt_reconciliation"
    then record c { leased = c.leased + 1 }
    else if str_eq status "send_failed_retryable"
    then record c { failed = c.failed + 1 }
    else if str_eq status "rejected" || str_eq status "dead_lettered"
    then record c { deferred = c.deferred + 1 }
    else c

abbrev is_terminal : String → Bool
is_terminal status =
    str_eq status "accepted" || str_eq status "rejected" || str_eq status "dead_lettered"

abbrev expired : Time → Option Time → Bool
expired stale_before none = false
expired stale_before (some t) = ltb t stale_before

abbrev add_age : Option ℕ → List ℕ → List ℕ
add_age none ages = ages
add_age (some age) ages = age ∷ ages

-- The body of the loop. The ages are collected in reverse: only their sum, their number and their
-- largest are used.
unfoldable pub tally_row : Time → Time → QueueRow → Tally → Tally
tally_row now stale_before row t = record {
  counts = count_status row.queue_status t.counts;
  stale_leases =
      if str_eq row.queue_status "claimed_for_send"
        && expired stale_before row.claim_lease_expires_at
      then t.stale_leases + 1
      else t.stale_leases;
  active_ages =
      if is_terminal row.queue_status
      then t.active_ages
      else add_age (age_seconds now row.created_at) t.active_ages;
}

-- `for row in rows`
unfoldable pub tally_rows : Time → Time → List QueueRow → Tally → Tally
tally_rows now stale_before [] t = t
tally_rows now stale_before (row ∷ rows) t =
    tally_rows now stale_before rows (tally_row now stale_before row t)

abbrev pub empty_tally : Tally
empty_tally = record {
  counts = record { queued = 0; leased = 0; failed = 0; deferred = 0 };
  stale_leases = 0;
  active_ages = [];
}

-- `datetime.max`
abbrev pub last_time : Time
last_time = 315537897599999999

-- `now - timedelta(seconds=grace)`
unfoldable pub stale_before_at : Time → ℤ → Outcome Time
stale_before_at now (pos grace) =
    if ltb now (grace * 1000000) then raised overflow_error else ok (now - grace * 1000000)
stale_before_at now (negsuc n) =
    if ltb last_time (now + suc n * 1000000)
    then raised overflow_error
    else ok (now + suc n * 1000000)

abbrev pub sum : List ℕ → ℕ
sum [] = 0
sum (n ∷ ns) = n + sum ns

abbrev pub largest : List ℕ → ℕ
largest [] = 0
largest (n ∷ ns) = max n (largest ns)

-- `int(sum(ages) / len(ages)) if ages else 0`
abbrev pub average : List ℕ → ℕ
average [] = 0
average (n ∷ ns) = sum (n ∷ ns) / suc (length ns)

module _ (iso : Time → String) (grace : ℤ) where
  abbrev pub queue_response : Time → Tally → QueueResponse
  queue_response now t = record {
    computed_at = iso now;
    status_counts = t.counts;
    stale_leases = t.stale_leases;
    oldest_item_age_seconds = largest t.active_ages;
    average_queue_dwell_seconds = average t.active_ages;
    degradation_flags = if t.stale_leases == 0 then [] else "stale_lease_detected" ∷ [];
  }

  -- `compute_queue_response`
  unfoldable pub compute_queue_response : List QueueRow → Time → Outcome QueueResponse
  compute_queue_response rows now =
      Pure.◌>>=◌ (stale_before_at now grace)
        λ stale_before. ok (queue_response now (tally_rows now stale_before rows empty_tally))
