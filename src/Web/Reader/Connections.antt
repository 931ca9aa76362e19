-- ===== src/Web/Reader/Connections.antt =====
-- The connections and the failures of a reader.
use df_local_foundation.Prelude.{ℕ, ◌+◌, ◌≡◌, ◌≢◌, ◌↔◌, arith}
use df_local_foundation.Runtime.{Service, read_error, Exc, ok, raised, diverged, Py, Level}
use df_local_foundation.Web.Reader.{Connection, read}

-- `opened` counts the open connections: a `connect` that returns opens one, a `close` gives one back,
-- whether it returns or raises, and a connect that fails opens none.
pub record Counts {W : Type 0} (db : Connection W) (opened : W → ℕ) : Type 0 where
  pub connected : (w : W) → (db.connect w).0 ≡ ok tt → opened (db.connect w).1 ≡ opened w + 1
  pub refused : (w : W) → (db.connect w).0 ≢ ok tt → opened (db.connect w).1 ≡ opened w
  pub closed : (w : W) (n : ℕ) → opened w ≡ n + 1 → opened (db.close w).1 ≡ n

module _ {W : Type 0} (db : Connection W) (level : Level) (service : Service) where
  -- A read leaves as many connections open as it found, if its query opens none and ends.
  pub read_closes :
      {A : Type 0} (opened : W → ℕ)
      → Counts db opened
      → (body : Py W A) (w : W) → ((v : W) → opened (body v).1 ≡ opened v)
      → ((v : W) → (body v).0 ≢ diverged)
      → opened (read db level service body w).1 ≡ opened w
  unfolding read
  read_closes opened laws body w keeps ends =
      let v = (db.connect w).1 in
      ground (
        arith,
        laws.connected w,
        laws.refused w,
        keeps v,
        ends v,
        laws.closed (body v).1 (opened w),
      )

  -- A read returns exactly what its query returns over a connection that could be opened and closed.
  read_returns_iff :
      {A : Type 0} (body : Py W A) (w : W) (a : A)
      → ((read db level service body w).0 ≡ ok a) ↔ (
          ((db.connect w).0 ≡ ok tt)
          × ((body (db.connect w).1).0 ≡ ok a)
          × ((db.close (body (db.connect w).1).1).0 ≡ ok tt))
  unfolding read
  read_returns_iff body w a =
      (λ h. ground arith, λ (opened, answered, closed). rw (opened, answered, closed))

  -- Whatever a read raises is the read error of its service.
  pub read_raises :
      {A : Type 0} (body : Py W A) (w : W) (e : Exc)
      → (read db level service body w).0 ≡ raised e
      → e ≡ read_error service
  unfolding read
  read_raises body w e h = ground arith
