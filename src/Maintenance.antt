-- ===== src/Maintenance.antt =====
-- core/lifecycle/maintenance.py: pruning of the tables of health events and of backups.
pub mod Retention
pub mod Status
use df_local_foundation.Prelude.{
  ℕ, ◌-◌, ◌*◌, ◌≤◌, Bool, String, Option, none, some, List, ltb, if◌then◌else◌,
}
use df_local_foundation.Prelude.Int.{ℤ, pos, pos_part, ltb_ℤ}
use df_local_foundation.Contract.{Time}
use df_local_foundation.Runtime.{
  maintenance_error, overflow_error, Outcome, ok, raised, diverged, Py, pure, ◌>>=◌, ◌>>◌, Level,
  log_fields,
}
use df_local_foundation.Text.Number.{signed_numeral}
use df_local_foundation.Text.Words.{words, last}

abbrev pub default_retention_days : ℤ
default_retention_days = pos 30

abbrev pub minimum_prune_days : ℤ
minimum_prune_days = pos 7

-- The tables that are pruned.
pub data Table : Type 0 where
  core_health_events core_backup_log : Table

pub record PruneResult : Type 0 where
  pub table : Table
  pub rows_pruned : ℤ
  pub cutoff : Time

-- What is called of the clock and of `pool.execute`: the time, and DELETE FROM the table the rows
-- whose time is before the cutoff, with the status string that PostgreSQL answers.
pub record Operations (W : Type 0) : Type 0 where
  pub now : W → Time
  pub delete_before : Table → Time → Py W (List ℕ)

-- A day in microseconds.
abbrev pub day : ℕ
day = 24 * 60 * 60 * 1000000

-- `datetime.now(UTC) - timedelta(days=days)`: there is no `timedelta` of more than 999999999 days,
-- and no `datetime` before the first.
unfoldable pub cutoff_at : Time → ℕ → Outcome Time
cutoff_at now days =
    if ltb 999999999 days
    then raised overflow_error
    else if ltb now (days * day)
    then raised overflow_error
    else ok (now - days * day)

abbrev pub or_zero : Option ℤ → ℤ
or_zero none = pos 0
or_zero (some n) = n

abbrev pub count_of : Option (List ℕ) → ℤ
count_of none = pos 0
count_of (some w) = or_zero (signed_numeral w)

-- `_parse_delete_count`
unfoldable pub parse_delete_count : List ℕ → ℤ
parse_delete_count status = count_of (last (words status))

module _ {W : Type 0} (db : Operations W) (threshold : Level) where
  -- The body of the two functions, which differ in the table.
  unfoldable pub prune : Table → ℤ → Py W PruneResult
  prune table older_than_days w =
      if ltb_ℤ older_than_days minimum_prune_days
      then (raised maintenance_error, w)
      else ((λ v. (cutoff_at (db.now v) (pos_part older_than_days), v)) >>= λ cutoff.
            db.delete_before table cutoff >>= λ status.
            log_fields threshold Level.info
            >> pure (record {
              table = table;
              rows_pruned = parse_delete_count status;
              cutoff = cutoff;
            }))
          w

  -- `prune_health_events`
  unfoldable pub prune_health_events : ℤ → Py W PruneResult
  unfolding prune
  prune_health_events older_than_days = prune core_health_events older_than_days

  -- `prune_backup_log`
  unfoldable pub prune_backup_log : ℤ → Py W PruneResult
  unfolding prune
  prune_backup_log older_than_days = prune core_backup_log older_than_days
