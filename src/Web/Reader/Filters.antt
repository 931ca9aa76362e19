-- ===== src/Web/Reader/Filters.antt =====
-- The text of a filtered query and its arguments.
use df_local_foundation.Prelude.{
  ℕ, suc, ◌≤◌, String, none, some, List, [], ◌∷◌, arith, str_eq, if◌then◌else◌,
}
use df_local_foundation.Prelude.Int.{ℤ}
use df_local_foundation.Web.Reader.{Argument, text_argument, Filter, clause, clamp_limit}

-- The filters with a value that is given and is not empty, each with its column.
abbrev pub given : List Filter → List (String × String)
given [] = []
given ((column, none) ∷ fs) = given fs
given ((column, some value) ∷ fs) = if str_eq value "" then given fs else (column, value) ∷ given fs

-- The conditions that compare the columns with the arguments from number `n` on.
abbrev pub numbered : ℕ → List (String × String) → List (List ℕ)
numbered n [] = []
numbered n ((column, value) ∷ fs) = clause column n ∷ numbered (suc n) fs

abbrev pub values : List (String × String) → List Argument
values [] = []
values ((column, value) ∷ fs) = text_argument value ∷ values fs

-- The limit of a query is at least 1, and at most the cap if that is.
clamp_limit_bounds :
    (cap : ℕ) (limit : ℤ) → 1 ≤ cap → (1 ≤ clamp_limit cap limit) × (clamp_limit cap limit ≤ cap)
unfolding clamp_limit
clamp_limit_bounds cap limit h = omega arith
