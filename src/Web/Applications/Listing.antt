-- ===== src/Web/Applications/Listing.antt =====
-- The listing of app/public_applications_services.py.
use mathlib.Core.List.{Perm, perm_middle}
use mathlib.Core.List.Perm
use df_local_foundation.Prelude.{
  Bool, true, false, ◌&&◌, if◌then◌else◌, Bool-cases, inl, inr, Option, ◌≡◌, refl, ap, String, none,
  some, List, [], ◌∷◌, ◌++◌, map, All,
}
use df_local_foundation.Contract.{Time}
use df_local_foundation.Runtime.{public_applications, ok, Level}
use df_local_foundation.Web.Value.{
  Value, Row, null, get, get_or_null, or_default, is_true, or_key_error, at, traverse, iso,
}
use df_local_foundation.Web.Sorting.Laws.{IsSortedBy, sort_by_lem, sort_by-All}
use df_local_foundation.Web.Sorting.Texts.{sort_by_texts}
use df_local_foundation.Web.Reader.{Connection}
use df_local_foundation.Web.Routes.Answers.{answer, route_lem}
use df_local_foundation.Web.Applications.{
  is_shown, shown_rows, entries, copied_columns, application_shape,
  compute_public_applications_response, fetch_public_application_rows, list_public_applications,
}

abbrev Has : Row → String → Type 0
Has row k = (v : Value) × (get k row ≡ some v)

-- A row with all columns of the query, whose name is a text.
pub record IsComplete (row : Row) : Type 0 where
  pub copied : All (Has row) copied_columns
  pub created_at : Has row "created_at"
  pub updated_at : Has row "updated_at"
  pub name : (s : String) × (get "application_name" row ≡ some (Value.text s))

-- A row whose columns `is_enabled` and `is_public` are there, and both `True`.
abbrev pub IsPublished : Row → Type 0
IsPublished row =
    (get "is_enabled" row ≡ some (Value.truth true))
    × (get "is_public" row ≡ some (Value.truth true))

is_true-cases :
    (o : Option Value) → is_true (or_default null o) ≡ true → o ≡ some (Value.truth true)
is_true-cases none h = cc
is_true-cases (some (Value.truth b)) h = ap (λ c. some (Value.truth c)) h
is_true-cases (some null) h = cc
is_true-cases (some (Value.number n)) h = cc
is_true-cases (some (Value.text t)) h = cc
is_true-cases (some (Value.time t)) h = cc
is_true-cases (some (Value.other n)) h = cc
is_true-cases (some (Value.list v)) h = cc
is_true-cases (some (Value.dict f)) h = cc

both_true : (a b : Bool) → a && b ≡ true → (a ≡ true) × (b ≡ true)
both_true true b h = (refl, h)
both_true false b h = cc

shown-IsPublished : (row : Row) → is_shown row ≡ true → IsPublished row
shown-IsPublished row h =
    let (enabled, public) =
      both_true (is_true (get_or_null "is_enabled" row)) (is_true (get_or_null "is_public" row))
        h in
    (is_true-cases (get "is_enabled" row) enabled, is_true-cases (get "is_public" row) public)

hidden-IsPublished : (row : Row) → is_shown row ≡ false → ¬ (IsPublished row)
hidden-IsPublished row h (enabled, public) = cc (rw (enabled, public) at h)

-- The rows that are left out.
abbrev hidden_rows : List Row → List Row
hidden_rows [] = []
hidden_rows (row ∷ rows) = let rest = hidden_rows rows in if is_shown row then rest else row ∷ rest

record IsSplit (rows shown hidden : List Row) : Type 0 where
  perm : Perm rows (shown ++ hidden)
  published : All IsPublished shown
  others : All (λ r. ¬ (IsPublished r)) hidden

shown_lem : (rows : List Row) → IsSplit rows (shown_rows rows) (hidden_rows rows)
unfolding shown_rows
shown_lem [] = record { perm = Perm.refl []; published = tt; others = tt }
shown_lem (r ∷ rs) =
    let rest = shown_lem rs in
    elim (Bool-cases (is_shown r)) [
      | inl kept ↦ rw kept (record {
        perm = Perm.cons r rest.perm;
        published = (shown-IsPublished r kept, rest.published);
        others = rest.others;
      })
      | inr left ↦ rw left (record {
        perm =
            Perm.trans (Perm.cons r rest.perm)
              (Perm.symm (perm_middle (shown_rows rs) (hidden_rows rs)));
        published = rest.published;
        others = (hidden-IsPublished r left, rest.others);
      })
    ]

shown-IsComplete :
    (rows : List Row)
    → All (λ r. IsPublished r → IsComplete r) rows
    → All IsComplete (shown_rows rows)
unfolding shown_rows
shown-IsComplete [] h = tt
shown-IsComplete (r ∷ rs) (h, hs) = elim (Bool-cases (is_shown r)) [
  | inl kept ↦ rw kept (h (shown-IsPublished r kept), shown-IsComplete rs hs)
  | inr left ↦ rw left (shown-IsComplete rs hs)
]

-- The dict of the row's own values of these columns, in this order.
abbrev pub copies : List String → Row → Row
copies columns row = map (λ k. (k, get_or_null k row)) columns

entries_lem :
    (columns : List String) (row : Row)
    → All (Has row) columns
    → entries columns row ≡ ok (copies columns row)
unfolding entries
entries_lem [] row h = refl
entries_lem (k ∷ ks) row ((v, e), hs) = rw (entries_lem ks row hs) (rw e refl)

module _ (isoformat : Time → String) where
  -- What is served of a row: eight columns as they are, and two times as text.
  abbrev pub application : Row → Row
  application row =
      copies copied_columns row
      ++ (("created_at", iso isoformat (get_or_null "created_at" row))
          ∷ ("updated_at", iso isoformat (get_or_null "updated_at" row))
          ∷ [])

  application_shape_lem :
      (row : Row) → IsComplete row → application_shape isoformat row ≡ ok (application row)
  unfolding application_shape
  application_shape_lem row h =
      let (created, c) = h.created_at in
      let (updated, u) = h.updated_at in
      rw (entries_lem copied_columns row h.copied) (rw (c, u) refl)

  shapes_lem :
      (rows : List Row)
      → All IsComplete rows
      → traverse (application_shape isoformat) rows ≡ ok (map application rows)
  shapes_lem [] h = refl
  shapes_lem (r ∷ rs) (h, hs) = rw (application_shape_lem r h, shapes_lem rs hs)

  name_at :
      (rows : List Row)
      → All IsComplete rows
      → All (λ r. (s : String) × (at "application_name" r ≡ ok (Value.text s))) rows
  name_at [] h = tt
  name_at (r ∷ rs) (h, hs) = ((h.name.0, ap or_key_error h.name.1), name_at rs hs)

  -- If each enabled and public row has all its columns, its name a text, the listing succeeds: the rows
  -- are, up to their order, the rows that it serves and others, where each row that it serves is
  -- enabled and public and none of the others is. It serves them in the order of their names, each
  -- with the ten keys of an application and the row's own values.
  pub applications_are_listed :
      (rows : List Row)
      → All (λ r. IsPublished r → IsComplete r) rows
      → (ordered : List Row) × (others : List Row) × (compute_public_applications_response isoformat
            rows
          ≡ ok (map application ordered))
        × Perm rows (ordered ++ others)
        × All IsPublished ordered
        × All (λ r. ¬ (IsPublished r)) others
        × IsSortedBy (at "application_name") ordered
  unfolding compute_public_applications_response
  applications_are_listed rows h =
      let shown = shown_rows rows in
      let all = shown_lem rows in
      let full = shown-IsComplete rows h in
      let (ordered, done) = sort_by_texts (at "application_name") shown (name_at shown full) in
      let (perm, sorted) = sort_by_lem (at "application_name") shown ordered done in
      let complete = sort_by-All IsComplete (at "application_name") shown ordered done full in
      (
        ordered,
        hidden_rows rows,
        rw done (shapes_lem ordered complete),
        Perm.trans all.perm (Perm.append perm (Perm.refl (hidden_rows rows))),
        sort_by-All IsPublished (at "application_name") shown ordered done all.published,
        all.others,
        sorted,
      )

  -- The answer to a request for the listing, from what the read gave: what is computed of the rows, and
  -- 503 where the read failed.
  list_public_applications_answers :
      {W : Type 0} (db : Connection W) (level : Level) (w : W)
      → (list_public_applications isoformat db level w).0
        ≡ answer public_applications "public_applications_read_failure" none
            (compute_public_applications_response isoformat)
            (fetch_public_application_rows isoformat db level w).0
  unfolding list_public_applications fetch_public_application_rows
  list_public_applications_answers db level w =
      route_lem db level public_applications "public_applications_read_failure" none (db.fetch _)
        (compute_public_applications_response isoformat) w
