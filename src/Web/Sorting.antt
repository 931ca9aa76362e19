-- ===== src/Web/Sorting.antt =====
-- `sorted(rows, key=...)`: an insertion sort that raises `TypeError` where two keys have no order.
pub mod Laws
pub mod Texts
use df_local_foundation.Prelude.{
  ℕ, ◌&&◌, Bool, true, false, Option, none, some, List, [], ◌∷◌, codes, map, ltb, leb, ◌==◌,
  if◌then◌else◌,
}
use df_local_foundation.Prelude.Int.{ℤ, pos, leb_ℤ}
use df_local_foundation.Runtime.{type_error, Outcome, ok, raised, diverged}
use df_local_foundation.Runtime.Pure.{◌>>=◌}
use df_local_foundation.Web.Value
use df_local_foundation.Web.Value.{Value, Row, traverse}

-- `s <= t` of two texts, by their code points.
unfoldable pub le_codes : List ℕ → List ℕ → Bool
le_codes [] t = true
le_codes (c ∷ s) [] = false
le_codes (c ∷ s) (d ∷ t) = if ltb c d then true else (c == d) && le_codes s t

-- A Boolean as the integer that it is.
abbrev as_int : Bool → ℤ
as_int b = pos (if b then 1 else 0)

-- The order of two keys, `none` where Python has none. Lists as keys are left out.
unfoldable pub le_value : Value → Value → Option Bool
unfolding le_codes
le_value (Value.number a) (Value.number b) = some (leb_ℤ a b)
le_value (Value.number a) (Value.truth b) = some (leb_ℤ a (as_int b))
le_value (Value.truth a) (Value.number b) = some (leb_ℤ (as_int a) b)
le_value (Value.truth a) (Value.truth b) = some (leb_ℤ (as_int a) (as_int b))
le_value (Value.text s) (Value.text t) = some (le_codes (codes s) (codes t))
le_value (Value.time a) (Value.time b) = some (leb a b)
le_value _ _ = none

abbrev pub Keyed : Type 0
Keyed = Value × Row

abbrev pub placed :
    Option Bool → Keyed → Keyed → List Keyed → Outcome (List Keyed) → Outcome (List Keyed)
placed none x y ys rest = raised type_error
placed (some true) x y ys rest = ok (x ∷ y ∷ ys)
placed (some false) x y ys rest = rest >>= λ zs. ok (y ∷ zs)

-- Before the first that is not less: equal keys keep their order.
unfoldable pub insert_keyed : Keyed → List Keyed → Outcome (List Keyed)
unfolding le_value
insert_keyed x [] = ok (x ∷ [])
insert_keyed x (y ∷ ys) = placed (le_value x.0 y.0) x y ys (insert_keyed x ys)

unfoldable pub sort_keyed : List Keyed → Outcome (List Keyed)
unfolding insert_keyed
sort_keyed [] = ok []
sort_keyed (x ∷ xs) = sort_keyed xs >>= insert_keyed x

abbrev pub rows_of : List Keyed → List Row
rows_of = map (λ (k : Keyed). k.1)

-- The keys are computed first, in the order of the rows.
unfoldable pub sort_by : (Row → Outcome Value) → List Row → Outcome (List Row)
unfolding sort_keyed
sort_by key rows = traverse (λ r. key r >>= λ k. ok (k, r)) rows >>= λ ks.
    sort_keyed ks >>= λ sorted. ok (rows_of sorted)
