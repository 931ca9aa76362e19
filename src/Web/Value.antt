-- ===== src/Web/Value.antt =====
-- The values in the rows of asyncpg and in JSON, and what the services under app/ do with them.
pub mod Rows
use df_local_foundation.Prelude.{
  Bool, true, false, not, String, Option, none, some, List, [], ◌∷◌, ◌≡◌, refl, arith, str_eq,
  eq_iff, if◌then◌else◌,
}
use df_local_foundation.Prelude.Int.{ℤ, pos, eqb_ℤ}
use df_local_foundation.Contract.{Time}
use df_local_foundation.Runtime.{key_error, attribute_error, Outcome, ok, raised, diverged}
use df_local_foundation.Runtime.Pure.{◌>>=◌}
use df_local_foundation.Prelude.{ℕ}

-- `other` is a value that is only passed on, such as a `UUID`. A naive `datetime` is that of UTC.
mutual
  pub data Value : Type 0 where
    null : Value
    truth : Bool → Value
    number : ℤ → Value
    text : String → Value
    time : Time → Value
    other : ℕ → Value
    list : Values → Value
    dict : Fields → Value

  pub data Values : Type 0 where
    nil : Values
    item : Value → Values → Values

  pub data Fields : Type 0 where
    empty : Fields
    field : String → Value → Fields → Fields

-- A row, or the dict of a response.
abbrev pub Row : Type 0
Row = List (String × Value)

abbrev to_fields : Row → Fields
to_fields [] = empty
to_fields ((k, v) ∷ r) = field k v (to_fields r)

-- A nested dict, and a list of dicts.
abbrev pub object : Row → Value
object r = dict (to_fields r)

abbrev pub to_values : List Row → Values
to_values [] = nil
to_values (r ∷ rs) = item (object r) (to_values rs)

abbrev pub of_list : List Value → Values
of_list [] = nil
of_list (v ∷ vs) = item v (of_list vs)

abbrev pub get : String → Row → Option Value
get k [] = none
get k ((j, v) ∷ r) = if str_eq k j then some v else get k r

abbrev pub or_default : Value → Option Value → Value
or_default d none = d
or_default d (some v) = v

-- `row.get(k)`, `row.get(k, d)`
abbrev pub get_or_null : String → Row → Value
get_or_null k r = or_default null (get k r)

abbrev pub get_or : String → Value → Row → Value
get_or k d r = or_default d (get k r)

abbrev pub or_key_error : Option Value → Outcome Value
or_key_error none = raised key_error
or_key_error (some v) = ok v

-- `row[k]`
abbrev pub at : String → Row → Outcome Value
at k r = or_key_error (get k r)

abbrev pub get_field : String → Fields → Option Value
get_field k empty = none
get_field k (field j v fs) = if str_eq k j then some v else get_field k fs

-- `payload.get(k, d)` of a decoded payload, which has `get` only if it is a dict.
abbrev pub payload_get : String → Value → Value → Outcome Value
payload_get k d (dict fs) = ok (or_default d (get_field k fs))
payload_get k d _ = raised attribute_error

-- `value == s` for a text `s`
abbrev pub is_text : String → Value → Bool
is_text s (text t) = str_eq t s
is_text s _ = false

-- `value is True`
abbrev pub is_true : Value → Bool
is_true (truth b) = b
is_true _ = false

-- `[f(row) for row in rows]`, where `f` may raise.
abbrev pub traverse {ℓ κ} : {A : Type ℓ} {B : Type κ} → (A → Outcome B) → List A → Outcome (List B)
traverse f [] = ok []
traverse f (x ∷ xs) = f x >>= λ y. traverse f xs >>= λ ys. ok (y ∷ ys)

-- `loads` is `json.loads`, with `none` for a `JSONDecodeError`; `isoformat` that of `datetime`.
module _ (loads : String → Option Value) where
  -- `_json_value`
  unfoldable pub json_value : Value → Value → Value
  json_value null fallback = fallback
  json_value (text s) fallback = or_default fallback (loads s)
  json_value v fallback = v

module _ (isoformat : Time → String) where
  -- `_iso`
  unfoldable pub iso : Value → Value
  iso (time t) = text (isoformat t)
  iso v = v

-- Whether a value counts as true. An `other` does.
unfoldable pub is_truthy : Value → Bool
is_truthy null = false
is_truthy (truth b) = b
is_truthy (number n) = not (eqb_ℤ n (pos 0))
is_truthy (text s) = not (str_eq s "")
is_truthy (list nil) = false
is_truthy (list (item v vs)) = true
is_truthy (dict empty) = false
is_truthy (dict (field k v fs)) = true
is_truthy (time t) = true
is_truthy (other n) = true

-- `v or ""`
abbrev pub or_empty : Value → Value
or_empty v = if is_truthy v then v else text ""

-- `d[k] = v`: a key that is there keeps its place.
unfoldable pub set_field : String → Value → Fields → Fields
set_field k v empty = field k v empty
set_field k v (field j w fs) =
    let rest = set_field k v fs in if str_eq k j then field k v fs else field j w rest

-- `{**d, k1: v1, …}`
unfoldable pub set_fields : Row → Fields → Fields
unfolding set_field
set_fields [] fs = fs
set_fields ((k, v) ∷ r) fs = set_fields r (set_field k v fs)

pub get_field-set_field :
    (k j : String) (v : Value) (fs : Fields)
    → get_field k (set_field j v fs) ≡ (if str_eq k j then some v else get_field k fs)
unfolding set_field
get_field-set_field k j v empty = refl
get_field-set_field k j v (field i w fs) =
    ground (arith, get_field-set_field k j v fs, eq_iff k j, eq_iff k i, eq_iff j i)
