-- ===== src/Analytics/Leases.antt =====
-- The bounds of what the queue view reports.
use df_local_foundation.Prelude.{
  ℕ, suc, ◌+◌, ◌*◌, ◌≤◌, ◌≡◌, refl, String, List, [], ◌∷◌, length, arith, str_eq, eq_iff,
  Bool-cases, inl, inr,
}
use native.Mathlib.Nat.{div-le_of_le-mul}
use df_local_foundation.Prelude.Int.{ℤ}
use df_local_foundation.Contract.{Time}
use df_local_foundation.Runtime.{Outcome, ok, raised, diverged}
use df_local_foundation.Analytics.Queue.{
  QueueRow, QueueStatusCounts, QueueResponse, Tally, count_status, tally_row, tally_rows,
  empty_tally, stale_before_at, sum, largest, average, queue_response, compute_queue_response,
}

abbrev pub total : QueueStatusCounts → ℕ
total c = c.queued + c.leased + c.failed + c.deferred

sum-largest : (ns : List ℕ) (m : ℕ) → largest ns ≤ m → sum ns ≤ length ns * m
sum-largest [] m h = omega arith
sum-largest (n ∷ ns) m h = omega (arith, sum-largest ns m (omega arith))

total-count_status :
    (status : String) (c : QueueStatusCounts) → total (count_status status c) ≤ total c + 1
unfolding count_status
total-count_status status c = ground arith

count_claimed : (c : QueueStatusCounts) → (count_status "claimed_for_send" c).leased ≡ c.leased + 1
unfolding count_status
count_claimed c = refl

leased-count_status :
    (status : String) (c : QueueStatusCounts) → c.leased ≤ (count_status status c).leased
unfolding count_status
leased-count_status status c = ground arith

row_bounds :
    (now stale_before : Time) (row : QueueRow) (t : Tally)
    → t.stale_leases ≤ t.counts.leased
    → (tally_row now stale_before row t).stale_leases
      ≤ (tally_row now stale_before row t).counts.leased
unfolding tally_row
row_bounds now stale_before row t h =
    elim (Bool-cases (str_eq row.queue_status "claimed_for_send")) [
      | inl claimed ↦
          let status = (eq_iff row.queue_status "claimed_for_send").0 claimed in
          let counted : (count_status row.queue_status t.counts).leased ≡ t.counts.leased + 1 =
            rw status (count_claimed t.counts) in
          ground (arith, counted)
      | inr other ↦ rw other (ground (arith, leased-count_status row.queue_status t.counts))
    ]

row_total :
    (now stale_before : Time) (row : QueueRow) (t : Tally)
    → total (tally_row now stale_before row t).counts ≤ total t.counts + 1
unfolding tally_row
row_total now stale_before row t = total-count_status row.queue_status t.counts

rows_bounds :
    (now stale_before : Time) (rows : List QueueRow) (t : Tally)
    → t.stale_leases ≤ t.counts.leased
    → let u = tally_rows now stale_before rows t in
      (u.stale_leases ≤ u.counts.leased) × (total u.counts ≤ total t.counts + length rows)
unfolding tally_rows
rows_bounds now stale_before [] t h = (h, omega arith)
rows_bounds now stale_before (row ∷ rows) t h =
    let rest =
      rows_bounds now stale_before rows (tally_row now stale_before row t)
        (row_bounds now stale_before row t h) in
    (rest.0, omega (arith, rest.1, row_total now stale_before row t))

average_bound : (ns : List ℕ) → average ns ≤ largest ns
average_bound [] = omega arith
average_bound (n ∷ ns) =
    div-le_of_le-mul (suc (length ns)) (sum-largest (n ∷ ns) (largest (n ∷ ns)) (omega arith))

module _ (iso : Time → String) (grace : ℤ) where
  -- In every queue view that is computed, no more leases are stale than leased, the four counts
  -- together are at most the rows, and the average age is at most the largest.
  queue_bounds :
      (rows : List QueueRow) (now : Time) (r : QueueResponse)
      → compute_queue_response iso grace rows now ≡ ok r
      → (r.stale_leases ≤ r.status_counts.leased)
        × (total r.status_counts ≤ length rows)
        × (r.average_queue_dwell_seconds ≤ r.oldest_item_age_seconds)
  unfolding compute_queue_response
  queue_bounds rows now r h = by_time (stale_before_at now grace) refl
    where
      by_time :
          (o : Outcome Time)
          → stale_before_at now grace ≡ o
          → (r.stale_leases ≤ r.status_counts.leased)
            × (total r.status_counts ≤ length rows)
            × (r.average_queue_dwell_seconds ≤ r.oldest_item_age_seconds)
      by_time (ok stale_before) e =
          let tally = tally_rows now stale_before rows empty_tally in
          let bounds = rows_bounds now stale_before rows empty_tally (omega arith) in
          let shape : r ≡ queue_response iso grace now tally = cc (rw e at h) in
          rw shape (bounds.0, omega (arith, bounds.1), average_bound tally.active_ages)
      by_time (raised x) e = cc (rw e at h)
      by_time diverged e = cc (rw e at h)
