-- ===== src/Maintenance/Retention.antt =====
-- Runs of the two prunes of core/lifecycle/maintenance.py.
use df_local_foundation.Prelude.{
  ℕ, ◌+◌, ◌-◌, ◌*◌, ◌≤◌, ◌≡◌, ◌≢◌, ◌↔◌, ◌⊎◌, inl, inr, refl, true, false, ◌++◌, arith, codes,
  Bool-cases, ltb, if◌then◌else◌,
}
use df_local_foundation.Prelude.Int.{ℤ, pos, pos_part, ltb_ℤ}
use df_local_foundation.Contract.{Time}
use df_local_foundation.Runtime.{
  Outcome, ok, raised, Level, is_enabled, type_error, maintenance_error,
}
use df_local_foundation.Text.Number.{show}
use df_local_foundation.Maintenance.{
  Table, core_health_events, core_backup_log, PruneResult, Operations, day, minimum_prune_days,
  cutoff_at, prune, prune_health_events, prune_backup_log,
}
use df_local_foundation.Maintenance.Status.{parse_delete_count-show}

-- A DELETE of a table keeps the rows of the other, and those of its own that are not before the
-- cutoff. `holds` says which rows there are, by their time.
pub record Retains {W : Type 0} (db : Operations W) (holds : Table → W → Time → Type 0)
    : Type 0 where
  pub keeps :
      (table other : Table) (cutoff t : Time) (w : W)
      → (other ≢ table) ⊎ (cutoff ≤ t)
      → holds other w t
      → holds other (db.delete_before table cutoff w).1 t

module _ {W : Type 0} (db : Operations W) (level : Level) where
  -- A prune either leaves all as it was, or deletes what is before a cutoff of at least seven days.
  prune_world :
      (table : Table) (days : ℤ) (w : W)
      → ((prune db level table days w).1 ≡ w)
        ⊎ ((cutoff : Time) × ((prune db level table days w).1 ≡ (db.delete_before table cutoff w).1)
            × (cutoff + 7 * day ≤ db.now w))
  unfolding prune cutoff_at
  prune_world table days w = elim (Bool-cases (ltb_ℤ days minimum_prune_days)) [
    | inl soon ↦ inl (rw soon)
    | inr late ↦ elim (Bool-cases (ltb 999999999 (pos_part days))) [
      | inl huge ↦ inl (rw (late, huge))
      | inr fits ↦ elim (Bool-cases (ltb (db.now w) (pos_part days * day))) [
        | inl early ↦ inl (rw (late, fits, early))
        | inr after ↦
            inr
              (db.now w - pos_part days * day, rw (late, fits, after) (ground arith), ground arith)
      ]
    ]
  ]

  kept_row :
      (holds : Table → W → Time → Type 0)
      → Retains db holds
      → (table other : Table) (days : ℤ) (w : W) (t : Time)
      → (other ≢ table) ⊎ (db.now w ≤ t + 7 * day)
      → holds other w t
      → holds other (prune db level table days w).1 t
  kept_row holds laws table other days w t spared there = elim (prune_world table days w) [
    | inl same ↦ rw same there
    | inr (cutoff, deleted, old) ↦
        rw deleted (laws.keeps table other cutoff t w (by_age cutoff old spared) there)
  ]
    where
      by_age :
          (cutoff : Time)
          → cutoff + 7 * day ≤ db.now w
          → (other ≢ table) ⊎ (db.now w ≤ t + 7 * day)
          → (other ≢ table) ⊎ (cutoff ≤ t)
      by_age cutoff old (inl apart) = inl apart
      by_age cutoff old (inr young) = inr (omega arith)

  -- A row of the last seven days stays in its table, whichever of the two functions is called, with
  -- whatever number of days, and however the call ends.
  pub prune_keeps_recent :
      (holds : Table → W → Time → Type 0)
      → Retains db holds
      → (table : Table) (days : ℤ) (w : W) (t : Time) → db.now w ≤ t + 7 * day
      → holds table w t
      → holds table (prune_health_events db level days w).1 t
        × holds table (prune_backup_log db level days w).1 t
  unfolding prune_health_events prune_backup_log
  prune_keeps_recent holds laws table days w t young there = (
    kept_row holds laws core_health_events table days w t (inr young) there,
    kept_row holds laws core_backup_log table days w t (inr young) there,
  )

  -- Pruning the health events deletes no row of the backup log, of whatever age, and pruning the
  -- backup log no health event.
  pub prune_keeps_other :
      (holds : Table → W → Time → Type 0)
      → Retains db holds
      → (days : ℤ) (w : W) (event row : Time) → holds core_health_events w event
      → holds core_backup_log w row
      → holds core_backup_log (prune_health_events db level days w).1 row
        × holds core_health_events (prune_backup_log db level days w).1 event
  unfolding prune_health_events prune_backup_log
  prune_keeps_other holds laws days w event row event_there row_there = (
    kept_row holds laws core_health_events core_backup_log days w row (inl (λ h. cc)) row_there,
    kept_row holds laws core_backup_log core_health_events days w event (inl (λ h. cc)) event_there,
  )

  refused_iff :
      ((table : Table) (cutoff : Time) (v : W)
        → (db.delete_before table cutoff v).0 ≢ raised maintenance_error)
      → (table : Table) (days : ℤ) (w : W)
      → (prune db level table days w ≡ (raised maintenance_error, w))
        ↔ (ltb_ℤ days minimum_prune_days ≡ true)
  unfolding prune cutoff_at
  refused_iff others table days w = elim (Bool-cases (ltb_ℤ days minimum_prune_days)) [
    | inl soon ↦ rw soon (λ h. refl, λ h. refl)
    | inr late ↦
        (λ h. ground (arith, h, others table (db.now w - pos_part days * day) w), λ h. cc (late, h))
  ]

  -- If a DELETE raises no `MaintenanceError` of its own: a prune is refused, with nothing changed,
  -- exactly for fewer than seven days, negative numbers of days among them.
  pub prune_refuses_iff :
      ((table : Table) (cutoff : Time) (v : W)
        → (db.delete_before table cutoff v).0 ≢ raised maintenance_error)
      → (days : ℤ) (w : W)
      → ((prune_health_events db level days w ≡ (raised maintenance_error, w))
          ↔ (ltb_ℤ days minimum_prune_days ≡ true))
        × ((prune_backup_log db level days w ≡ (raised maintenance_error, w))
            ↔ (ltb_ℤ days minimum_prune_days ≡ true))
  unfolding prune_health_events prune_backup_log
  prune_refuses_iff others days w =
      (refused_iff others core_health_events days w, refused_iff others core_backup_log days w)

  -- What a prune of a table answers where a DELETE reports `n` rows.
  abbrev pub answer : Table → ℕ → ℕ → W → Outcome PruneResult
  answer table days n w =
      if is_enabled level Level.info
      then raised type_error
      else ok (record { table = table; rows_pruned = pos n; cutoff = db.now w - days * day })

  prune_lem :
      (table : Table) (days n : ℕ) (w v : W)
      → 7 ≤ days
      → days ≤ 999999999
      → days * day ≤ db.now w
      → db.delete_before table (db.now w - days * day) w ≡ (ok (codes "DELETE " ++ show n), v)
      → prune db level table (pos days) w ≡ (answer table days n w, v)
  unfolding prune cutoff_at
  prune_lem table days n w v long short early deleted =
      let late : ltb_ℤ (pos days) minimum_prune_days ≡ false = ground arith in
      let fits : ltb 999999999 days ≡ false = ground arith in
      let after : ltb (db.now w) (days * day) ≡ false = ground arith in
      elim (Bool-cases (is_enabled level Level.info)) [
        | inl loud ↦ rw (late, fits, after, deleted, loud) refl
        | inr quiet ↦ rw (late, fits, after, deleted, quiet, parse_delete_count-show n) refl
      ]

  -- For a window of at least seven days that a `datetime` has room for, and DELETEs that report `n`
  -- health events and `m` log rows: with messages of level INFO off, each function returns its number
  -- of rows and the cutoff. With them on it raises `TypeError`, and the rows are deleted all the same.
  pub prune_answers :
      (days n m : ℕ) (w v u : W)
      → 7 ≤ days
      → days ≤ 999999999
      → days * day ≤ db.now w
      → db.delete_before core_health_events (db.now w - days * day) w
        ≡ (ok (codes "DELETE " ++ show n), v)
      → db.delete_before core_backup_log (db.now w - days * day) w
        ≡ (ok (codes "DELETE " ++ show m), u)
      → (prune_health_events db level (pos days) w ≡ (answer core_health_events days n w, v))
        × (prune_backup_log db level (pos days) w ≡ (answer core_backup_log days m w, u))
  unfolding prune_health_events prune_backup_log
  prune_answers days n m w v u long short early events rows = (
    prune_lem core_health_events days n w v long short early events,
    prune_lem core_backup_log days m w u long short early rows,
  )
