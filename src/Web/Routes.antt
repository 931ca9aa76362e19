-- ===== src/Web/Routes.antt =====
-- What the routers of app/api have in common: a handler runs a service over a reader, and its
-- exceptions become answers of HTTP.
pub mod Answers
use df_local_foundation.Prelude.{
  ℕ, Bool, String, Option, none, some, List, ◌++◌, codes, ◌==◌, if◌then◌else◌,
}
use df_local_foundation.Runtime.{
  Service, analytics, context_packs, healing_proposals, lineage, proving_slice_queue,
  public_applications, Detail, unavailable, message, read_error, not_found, http_exception, Exc,
  Outcome, Py, raise, try_except, ◌>>=◌,
}

abbrev service_number : Service → ℕ
service_number analytics = 0
service_number context_packs = 1
service_number healing_proposals = 2
service_number lineage = 3
service_number proving_slice_queue = 4
service_number public_applications = 5

abbrev pub same_service : Service → Service → Bool
same_service s t = service_number s == service_number t

abbrev missing_error : Option (List ℕ) → Exc → Exc
missing_error none e = e
missing_error (some detail) e = http_exception 404 (message detail)

-- The `except` clauses of a handler: the read error of its service is 503 with an error class, and the
-- service's not-found error 404, where the handler catches that.
abbrev pub http_error : Service → String → Option (List ℕ) → Exc → Exc
http_error service error_class missing (read_error s) =
    if same_service s service then http_exception 503 (unavailable error_class) else read_error s
http_error service error_class missing (not_found s id) =
    if same_service s service then missing_error missing (not_found s id) else not_found s id
http_error service error_class missing e = e

module _ {W A : Type 0} where
  unfoldable pub route : Service → String → Option (List ℕ) → Py W A → Py W A
  route service error_class missing m =
      try_except m (λ e. raise (http_error service error_class missing e))

-- A computation on rows that were read, which touches nothing.
abbrev pub lift : {W A : Type 0} → Outcome A → Py W A
lift o s = (o, s)
