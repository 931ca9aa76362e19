-- ===== src/Runtime.antt =====
-- Python as the program uses it: exceptions, `try`, `finally`, and the calls of `logging`.
-- A coroutine is a function from the state to its outcome and the new state: what was written
-- before a raise stays written.
pub mod Rules
pub mod Pure
use df_local_foundation.Prelude.{ℕ, List, String, Bool, true, false, ◌&&◌, leb, if◌then◌else◌}
use df_local_foundation.Contract.{ErrorClass, LifecycleState}

-- Why `BackupManager.restore` refuses; the messages carry no more than this.
pub data BlockReason : Type 0 where
  not_confirmed sidecar_missing envelope_malformed unsupported_format app_mismatch : BlockReason
  file_missing hash_mismatch unsigned_envelope verification_failed restore_failed : BlockReason

-- The tables that the HTTP application reads: each has a read error and a not-found error of its own.
pub data Service : Type 0 where
  analytics context_packs healing_proposals lineage proving_slice_queue public_applications :
      Service

-- The `detail` of an `HTTPException`: that of a service that cannot be read, with its error class, or
-- a text.
pub data Detail : Type 0 where
  unavailable : String → Detail
  message : List ℕ → Detail

-- The exceptions that the program raises or catches. `driver_error` is any other exception of the
-- database driver or of a subprocess. `CancelledError` and `KeyboardInterrupt` are left out.
pub data Exc : Type 0 where
  type_error attribute_error value_error overflow_error runtime_error key_error : Exc
  undefined_table_error migration_lock_timeout migration_lock_error : Exc
  maintenance_error privacy_violation_error signing_key_error envelope_verification_error : Exc
  driver_error : ℕ → Exc
  lifecycle_start_error : ErrorClass → LifecycleState → Exc
  restore_blocked_error : BlockReason → ErrorClass → Exc
  read_error : Service → Exc
  not_found : Service → String → Exc
  http_exception : ℕ → Detail → Exc

-- `diverged` is no Python outcome: it is that of a loop whose fuel ran out.
pub data Outcome {ℓ} (A : Type ℓ) : Type ℓ where
  ok : A → Outcome A
  raised : Exc → Outcome A
  diverged : Outcome A

abbrev pub Py {ℓ} : Type ℓ → Type ℓ → Type ℓ
Py S A = S → Outcome A × S

module _ {ℓ} {S A : Type ℓ} where
  abbrev pub pure : A → Py S A
  pure a s = (ok a, s)

  abbrev pub raise : Exc → Py S A
  raise e s = (raised e, s)

module _ {ℓ} {S A B : Type ℓ} where
  abbrev pub continue : Outcome A → (A → Py S B) → Py S B
  continue (ok a) f s = f a s
  continue (raised e) f s = (raised e, s)
  continue diverged f s = (diverged, s)

  infixl 5 ◌>>=◌ ◌>>◌
  abbrev pub ◌>>=◌ : Py S A → (A → Py S B) → Py S B
  ◌>>=◌ m f s = let (r, t) = m s in continue r f t

  abbrev pub ◌>>◌ : Py S A → Py S B → Py S B
  m >> k = m >>= λ _. k

module _ {ℓ} {S A : Type ℓ} where
  abbrev pub handle : Outcome A → (Exc → Py S A) → Py S A
  handle (ok a) h s = (ok a, s)
  handle (raised e) h s = h e s
  handle diverged h s = (diverged, s)

  -- `try: m  except Exception as e: h(e)`
  abbrev pub try_except : Py S A → (Exc → Py S A) → Py S A
  try_except m h s = let (r, t) = m s in handle r h t

module _ {ℓ} {S A B : Type ℓ} where
  abbrev pub branch : Outcome A → (Exc → Py S B) → (A → Py S B) → Py S B
  branch (ok a) h rest s = rest a s
  branch (raised e) h rest s = h e s
  branch diverged h rest s = (diverged, s)

  -- `try: a = m  except Exception as e: h(e)`, and `rest(a)` behind it, outside the `try`.
  abbrev pub try_else : Py S A → (Exc → Py S B) → (A → Py S B) → Py S B
  try_else m h rest s = let (r, t) = m s in branch r h rest t

  -- The end of `finally`: an exception of the last block replaces the outcome of the first.
  abbrev pub settle : Outcome A → Outcome B × S → Outcome A × S
  settle r (ok b, s) = (r, s)
  settle r (raised e, s) = (raised e, s)
  settle r (diverged, s) = (diverged, s)

  abbrev pub conclude : Outcome A → Py S B → Py S A
  conclude (ok a) last s = settle (ok a) (last s)
  conclude (raised e) last s = settle (raised e) (last s)
  conclude diverged last s = (diverged, s)

  -- `try: m  finally: last`
  abbrev pub try_finally : Py S A → Py S B → Py S A
  try_finally m last s = let (r, t) = m s in conclude r last t

-- Levels of `logging`.
pub data Level : Type 0 where
  debug info warning error critical : Level

abbrev pub rank : Level → ℕ
rank Level.debug = 10
rank Level.info = 20
rank Level.warning = 30
rank Level.error = 40
rank Level.critical = 50

-- `logger.isEnabledFor(level)`, where `threshold` is the logger's effective level.
abbrev pub is_enabled : Level → Level → Bool
is_enabled threshold level = leb (rank threshold) (rank level)

-- `logger.warning("event", key=value, …)` and the like. A `Logger` of the standard library takes
-- no keyword fields but `exc_info`, `extra`, `stack_info` and `stacklevel`: the call reaches
-- `Logger._log` if its level is enabled, and raises `TypeError` there.
abbrev pub log_fields {ℓ} : {S : Type ℓ} → Level → Level → Py S (Unit {ℓ})
log_fields threshold level s = (if is_enabled threshold level then raised type_error else ok tt, s)

-- `logger.info("event", extra=…)`, and calls with positional arguments: these raise nothing.
abbrev pub log_event {ℓ} : {S : Type ℓ} → Level → Level → Py S (Unit {ℓ})
log_event threshold level s = (ok tt, s)
