-- ===== src/Web/Routes/Answers.antt =====
-- The answer of a handler, from what its read gave.
use df_local_foundation.Prelude.{ℕ, ◌≡◌, refl, ap, ◌∙◌, String, Option, none, some, List, true}
use df_local_foundation.Runtime.{
  Service, analytics, unavailable, message, not_found, read_error, http_exception, Exc, Outcome, ok,
  raised, diverged, Py, Level, ◌>>=◌,
}
use df_local_foundation.Runtime.Pure
use df_local_foundation.Web.Value.{Value, Row, get, at, or_key_error}
use df_local_foundation.Web.Reader.{Connection, read}
use df_local_foundation.Web.Reader.Connections.{read_raises}
use df_local_foundation.Web.Routes.{same_service, http_error, route, lift}

abbrev translate : {A : Type 0} → Service → String → Option (List ℕ) → Outcome A → Outcome A
translate service error_class missing (ok a) = ok a
translate service error_class missing (raised e) = raised (http_error service error_class missing e)
translate service error_class missing diverged = diverged

-- 503 where the read failed, and else what the service computes of it, its errors as HTTP's.
abbrev pub answer :
    {A B : Type 0} → Service → String → Option (List ℕ) → (A → Outcome B) → Outcome A → Outcome B
answer service error_class missing compute (ok a) =
    translate service error_class missing (compute a)
answer service error_class missing compute (raised e) =
    raised (http_exception 503 (unavailable error_class))
answer service error_class missing compute diverged = diverged

same_service_refl : (s : Service) → same_service s s ≡ true
same_service_refl analytics = refl
same_service_refl _ = refl

module _ {W A B : Type 0} (db : Connection W) (level : Level) (service : Service)
    (error_class : String) (missing : Option (List ℕ)) where
  -- A handler answers with what its service computes of the rows, or with 503.
  pub route_lem :
      (body : Py W A) (compute : A → Outcome B) (w : W)
      → (route service error_class missing
          (read db level service body >>= λ a. lift (compute a))
          w).0
        ≡ answer service error_class missing compute (read db level service body w).0
  unfolding route
  route_lem body compute w = by_read (read db level service body w) refl
    where
      by_computed :
          (o : Outcome B) (v : W) (a : A)
          → read db level service body w ≡ (ok a, v)
          → compute a ≡ o
          → (route service error_class missing
              (read db level service body >>= λ a. lift (compute a))
              w).0
            ≡ translate service error_class missing (compute a)
      by_computed (ok b) v a e c = rw (e, c)
      by_computed (raised x) v a e c = rw (e, c)
      by_computed diverged v a e c = rw (e, c)

      by_read :
          (q : Outcome A × W)
          → read db level service body w ≡ q
          → (route service error_class missing
              (read db level service body >>= λ a. lift (compute a))
              w).0
            ≡ answer service error_class missing compute (read db level service body w).0
      by_read (ok a, v) e = by_computed (compute a) v a e refl ∙ rw e
      by_read (raised x, v) e =
          let named : x ≡ read_error service =
            read_raises db level service body w x (ap (λ (q : Outcome A × W). q.0) e) in
          rw e (rw named (rw (same_service_refl service)))
      by_read (diverged, v) e = rw e

-- The answer to a request for one row: what is computed of the row, 404 if there is none, and 503 if
-- the read failed.
abbrev pub detail_answer :
    {A B : Type 0} → String → List ℕ → (A → Outcome B) → Outcome (Option A) → Outcome B
detail_answer error_class missing compute (ok none) = raised (http_exception 404 (message missing))
detail_answer error_class missing compute (ok (some row)) = compute row
detail_answer error_class missing compute (raised e) =
    raised (http_exception 503 (unavailable error_class))
detail_answer error_class missing compute diverged = diverged

-- An exception that is none of a service's: the handlers let it pass.
abbrev IsForeign : Exc → Type 0
IsForeign (read_error s) = ⊥
IsForeign (not_found s id) = ⊥
IsForeign e = Unit

abbrev pub RaisesForeign : {B : Type 0} → Outcome B → Type 0
RaisesForeign (ok b) = Unit
RaisesForeign (raised e) = IsForeign e
RaisesForeign diverged = Unit

pub bind-RaisesForeign :
    {A B : Type 0} (m : Outcome A) (f : A → Outcome B)
    → RaisesForeign m
    → ((a : A) → RaisesForeign (f a))
    → RaisesForeign (Pure.◌>>=◌ m f)
bind-RaisesForeign (ok a) f h k = k a
bind-RaisesForeign (raised e) f h k = h
bind-RaisesForeign diverged f h k = tt

pub at-RaisesForeign : (k : String) (row : Row) → RaisesForeign (at k row)
at-RaisesForeign k row = by_value (get k row)
  where
    by_value : (o : Option Value) → RaisesForeign (or_key_error o)
    by_value none = tt
    by_value (some v) = tt

http_error-IsForeign :
    (service : Service) (error_class : String) (missing : Option (List ℕ)) (e : Exc)
    → IsForeign e
    → http_error service error_class missing e ≡ e
http_error-IsForeign service error_class missing (read_error s) h = elim h [ ]
http_error-IsForeign service error_class missing (not_found s id) h = elim h [ ]
http_error-IsForeign service error_class missing _ h = refl

translate-RaisesForeign :
    {B : Type 0} (service : Service) (error_class : String) (missing : Option (List ℕ))
    (o : Outcome B)
    → RaisesForeign o
    → translate service error_class missing o ≡ o
translate-RaisesForeign service error_class missing (ok b) h = refl
translate-RaisesForeign service error_class missing (raised e) h =
    ap raised (http_error-IsForeign service error_class missing e h)
translate-RaisesForeign service error_class missing diverged h = refl

module _ {W A B : Type 0} (db : Connection W) (level : Level) (service : Service)
    (error_class : String) (detail : List ℕ) where
  -- A handler for one row answers so.
  pub detail_route_lem :
      (body : Py W (Option A)) (compute : Option A → Outcome B) (id : String) (w : W)
      → compute none ≡ raised (not_found service id)
      → ((a : A) → RaisesForeign (compute (some a)))
      → (route service error_class
          (some detail)
          (read db level service body >>= λ a. lift (compute a))
          w).0
        ≡ detail_answer error_class detail (λ a. compute (some a)) (read db level service body w).0
  detail_route_lem body compute id w gone foreign =
      route_lem db level service error_class (some detail) body compute w
      ∙ by_read (read db level service body w).0
    where
      by_read :
          (o : Outcome (Option A))
          → answer service error_class (some detail) compute o
            ≡ detail_answer error_class detail (λ a. compute (some a)) o
      by_read (ok none) = rw gone (rw (same_service_refl service))
      by_read (ok (some a)) =
          translate-RaisesForeign service error_class (some detail) (compute (some a)) (foreign a)
      by_read (raised e) = refl
      by_read diverged = refl
