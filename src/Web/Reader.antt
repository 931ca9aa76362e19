-- ===== src/Web/Reader.antt =====
-- The readers of app/*_services.py: a connection that is opened and closed for each read, and the
-- queries with their optional filters.
pub mod Connections
pub mod Filters
use df_local_foundation.Prelude.{
  ℕ, suc, ◌+◌, max, min, Bool, true, false, String, Option, none, some, List, [], ◌∷◌, ◌++◌, codes,
  length, str_eq, if◌then◌else◌,
}
use df_local_foundation.Prelude.Int.{ℤ, pos, pos_part}
use df_local_foundation.Runtime.{
  Service, read_error, Outcome, ok, raised, Py, pure, raise, ◌>>=◌, ◌>>◌, try_except, try_finally,
  Level, log_event,
}
use df_local_foundation.Text.Number.{show}
use df_local_foundation.Web.Value.{Value, Row}

-- An argument of a query.
pub data Argument : Type 0 where
  text_argument : String → Argument
  number_argument : ℕ → Argument
  texts_argument : List String → Argument
  value_argument : Value → Argument

-- A query: its SQL text, and its arguments.
pub record Query : Type 0 where
  pub sql : List ℕ
  pub arguments : List Argument

-- What the readers call of asyncpg: `connect(dsn)`, `conn.fetch`, `conn.fetchrow`, `conn.close()`.
pub record Connection (W : Type 0) : Type 0 where
  pub connect : Py W (Unit {0})
  pub fetch : Query → Py W (List Row)
  pub fetchrow : Query → Py W (Option Row)
  pub close : Py W (Unit {0})

module _ {W : Type 0} (db : Connection W) (threshold : Level) where
  -- A read over a connection of its own. Whatever fails becomes the read error of the service.
  unfoldable pub read : {A : Type 0} → Service → Py W A → Py W A
  read service body =
      try_except (db.connect >> try_finally body db.close)
        (λ _. log_event threshold Level.warning >> raise (read_error service))

-- `max(1, min(limit, cap))`
unfoldable pub clamp_limit : ℕ → ℤ → ℕ
clamp_limit cap limit = max 1 (min (pos_part limit) cap)

-- A filter: a column, and the value that it is to have, if one is given.
abbrev pub Filter : Type 0
Filter = String × Option String

-- `clauses` and `values` while they are filled.
pub record Clauses : Type 0 where
  pub clauses : List (List ℕ)
  pub arguments : List Argument

-- `f"{column} = ${index}"`
abbrev pub clause : String → ℕ → List ℕ
clause column index = codes column ++ (codes " = $" ++ show index)

abbrev pub add_given : String → String → Clauses → Clauses
add_given column value c =
    let arguments = c.arguments ++ (text_argument value ∷ []) in
    record { clauses = c.clauses ++ (clause column (length arguments) ∷ []); arguments = arguments }

-- `if value: ...`: an empty text is no filter.
unfoldable add_filter : Filter → Clauses → Clauses
add_filter (column, none) c = c
add_filter (column, some value) c = if str_eq value "" then c else add_given column value c

unfoldable pub add_filters : List Filter → Clauses → Clauses
unfolding add_filter
add_filters [] c = c
add_filters (f ∷ fs) c = add_filters fs (add_filter f c)

-- `" AND ".join(clauses)`
abbrev join_and : List (List ℕ) → List ℕ
join_and [] = []
join_and (s ∷ []) = s
join_and (s ∷ t ∷ ts) = s ++ (codes " AND " ++ join_and (t ∷ ts))

-- `(" WHERE " + " AND ".join(clauses)) if clauses else ""`
abbrev pub where_clause : List (List ℕ) → List ℕ
where_clause [] = []
where_clause (s ∷ ss) = codes " WHERE " ++ join_and (s ∷ ss)

-- The SELECT with its filters, newest first, up to a limit.
unfoldable pub select_filtered : String → List Filter → ℕ → ℤ → Query
unfolding add_filters clamp_limit
select_filtered select filters cap limit =
    let c = add_filters filters (record { clauses = []; arguments = [] }) in
    let arguments = c.arguments ++ (number_argument (clamp_limit cap limit) ∷ []) in
    record {
      sql =
          codes select
          ++ (where_clause c.clauses
              ++ (codes " ORDER BY created_at DESC LIMIT $" ++ show (length arguments)));
      arguments = arguments;
    }
