-- ===== src/Tests/Maintenance.antt =====
-- Prunes of two small tables, and the theorems about core/lifecycle/maintenance.py at those runs.
use df_local_foundation.Prelude.{
  ◌*◌, ◌-◌, ◌≡◌, ◌≢◌, ◌⊎◌, inl, inr, refl, ◌≤◌, ◌++◌, Bool-cases, List, [], ◌∷◌, leb, arith, codes,
  if◌then◌else◌, length,
}
use df_local_foundation.Prelude.Int.{pos}
use df_local_foundation.Contract.{Time}
use df_local_foundation.Runtime.{maintenance_error, ok, raised, Level}
use df_local_foundation.Text.Number.{show}
use df_local_foundation.Maintenance.{
  Table, core_health_events, core_backup_log, Operations, day, prune_health_events,
  prune_backup_log,
}
use df_local_foundation.Maintenance.Retention.{Retains, prune_keeps_recent}

-- The times of the rows of the two tables.
pub record Tables : Type 0 where
  pub events : List Time
  pub rows : List Time

abbrev rows_of : Table → Tables → List Time
rows_of core_health_events w = w.events
rows_of core_backup_log w = w.rows

abbrev keep_from : Time → List Time → List Time
keep_from c [] = []
keep_from c (t ∷ ts) = let rest = keep_from c ts in if leb c t then t ∷ rest else rest

abbrev delete : Table → Time → Tables → Tables
delete core_health_events c w = record w { events = keep_from c w.events }
delete core_backup_log c w = record w { rows = keep_from c w.rows }

abbrev IsIn : Time → List Time → Type 0
IsIn t [] = ⊥
IsIn t (x ∷ xs) = (t ≡ x) ⊎ IsIn t xs

abbrev database : Operations Tables
database = record {
  now = λ w. 400 * day;
  delete_before = λ table c w. (
    ok (
        codes "DELETE "
        ++ show (length (rows_of table w) - length (rows_of table (delete table c w)))),
    delete table c w,
  );
}

abbrev Holds : Table → Tables → Time → Type 0
Holds table w t = IsIn t (rows_of table w)

IsIn-keep_from : (c t : Time) (ts : List Time) → c ≤ t → IsIn t ts → IsIn t (keep_from c ts)
IsIn-keep_from c t [] h k = k
IsIn-keep_from c t (x ∷ xs) h (inl e) = ground (arith, e)
IsIn-keep_from c t (x ∷ xs) h (inr k) = elim (Bool-cases (leb c x)) [
  | inl kept ↦ rw kept (inr (IsIn-keep_from c t xs h k))
  | inr gone ↦ rw gone (IsIn-keep_from c t xs h k)
]

database-Retains : Retains database Holds
database-Retains = record { keeps = kept }
  where
    kept :
        (table other : Table) (cutoff t : Time) (w : Tables)
        → (other ≢ table) ⊎ (cutoff ≤ t)
        → Holds other w t
        → Holds other (delete table cutoff w) t
    kept core_health_events core_health_events c t w (inl h) k = absurd (h refl)
    kept core_health_events core_health_events c t w (inr h) k = IsIn-keep_from c t w.events h k
    kept core_health_events core_backup_log c t w h k = k
    kept core_backup_log core_backup_log c t w (inl h) k = absurd (h refl)
    kept core_backup_log core_backup_log c t w (inr h) k = IsIn-keep_from c t w.rows h k
    kept core_backup_log core_health_events c t w h k = k

-- An event of a year ago and one of yesterday, and a backup of as long ago.
abbrev tables : Tables
tables = record { events = 35 * day ∷ 399 * day ∷ []; rows = 35 * day ∷ [] }

prune_keeps_recent_example :
    Holds core_health_events
      (prune_health_events database Level.warning (pos 7) tables).1
      (399 * day)
    × Holds core_health_events
        (prune_backup_log database Level.warning (pos 7) tables).1
        (399 * day)
prune_keeps_recent_example =
    prune_keeps_recent database Level.warning Holds database-Retains core_health_events (pos 7)
      tables (399 * day) (omega arith) (inr (inl refl))

no_refusal :
    (table : Table) (cutoff : Time) (w : Tables)
    → (database.delete_before table cutoff w).0 ≢ raised maintenance_error
no_refusal table cutoff w h = cc

abbrev month_ago : Time
month_ago = 370 * day
