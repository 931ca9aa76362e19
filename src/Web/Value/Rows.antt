-- ===== src/Web/Value/Rows.antt =====
-- What the comprehensions over rows give, and the keys of the dicts of a response.
use df_local_foundation.Prelude.{
  String, Option, none, some, List, [], ◌∷◌, ◌≡◌, ◌∙◌, refl, ap, sym, map, length, suc, All,
}
use df_local_foundation.Runtime.{Outcome, ok}
use df_local_foundation.Runtime.Pure.{bound}
use df_local_foundation.Web.Value.{Value, Row, get, at, or_key_error, traverse}

-- The lists are equally long, and their items correspond one by one.
abbrev pub Pointwise : {A B : Type 0} → (A → B → Type 0) → List A → List B → Type 0
Pointwise R [] [] = Unit
Pointwise R [] (y ∷ ys) = ⊥
Pointwise R (x ∷ xs) [] = ⊥
Pointwise R (x ∷ xs) (y ∷ ys) = R x y × Pointwise R xs ys

-- A comprehension that succeeds has one item for each row, in their order.
pub traverse-Pointwise :
    {A B : Type 0} (f : A → Outcome B) (R : A → B → Type 0)
    → ((x : A) (y : B) → f x ≡ ok y → R x y)
    → (xs : List A) (ys : List B) → traverse f xs ≡ ok ys
    → Pointwise R xs ys
traverse-Pointwise f R each [] [] e = tt
traverse-Pointwise f R each [] (y ∷ ys) e = cc
traverse-Pointwise {B = B} f R each (x ∷ xs) ys e =
    let (z, first, later) = bound (f x) _ ys e in
    let (zs, rest, all) = bound (traverse f xs) (λ zs. ok (z ∷ zs)) ys later in
    by_list ys zs z first rest all (traverse-Pointwise f R each xs)
  where
    by_list :
        (ys zs : List B) (z : B)
        → f x ≡ ok z
        → traverse f xs ≡ ok zs
        → ok (z ∷ zs) ≡ ok ys
        → ((ws : List B) → traverse f xs ≡ ok ws → Pointwise R xs ws)
        → Pointwise R (x ∷ xs) ys
    by_list [] zs z first rest all ih = cc
    by_list (y ∷ ys) zs z first rest all ih = (each x y (cc (first, all)), ih ys (cc (rest, all)))

pub Pointwise-length :
    {A B : Type 0} (R : A → B → Type 0) (xs : List A) (ys : List B)
    → Pointwise R xs ys
    → length ys ≡ length xs
Pointwise-length R [] [] h = refl
Pointwise-length R [] (y ∷ ys) h = elim h [ ]
Pointwise-length R (x ∷ xs) [] h = elim h [ ]
Pointwise-length R (x ∷ xs) (y ∷ ys) h = ap suc (Pointwise-length R xs ys h.1)

abbrev pub keys : Row → List String
keys = map (λ (f : String × Value). f.0)

pub at-ok : (k : String) (row : Row) (v : Value) → at k row ≡ ok v → get k row ≡ some v
at-ok k row v h = by_value (get k row) h
  where
    by_value : (o : Option Value) → or_key_error o ≡ ok v → o ≡ some v
    by_value none h = cc
    by_value (some w) h = cc

-- The dict has the row's own value of the column, and the row has one.
abbrev IsCopied : Row → Row → String → Type 0
IsCopied row d k = (get k d ≡ get k row) × (v : Value) × (get k row ≡ some v)

abbrev pub Copies : List String → Row → Row → Type 0
Copies columns row d = All (IsCopied row d) columns

pub at-IsCopied :
    (k : String) (row d : Row) (v : Value) → at k row ≡ ok v → get k d ≡ some v → IsCopied row d k
at-IsCopied k row d v h e = (e ∙ sym (at-ok k row v h), v, at-ok k row v h)

-- What a dict has under a key, and its keys, where it was computed.
abbrev pub under : String → Outcome Row → Option Value
under k (ok d) = get k d
under k _ = none

abbrev pub keys_under : Outcome Row → List String
keys_under (ok d) = keys d
keys_under _ = []
