-- ===== src/Web/Sorting/Laws.antt =====
-- The results of `sorted` on rows: their order and their rows.
use mathlib.Core.Path.{subst}
use mathlib.Core.List.{Perm}
use mathlib.Core.List.Perm
use df_local_foundation.Prelude.{
  ℕ, Bool, true, false, Option, none, some, List, [], ◌∷◌, ◌≡◌, refl, ap, sym, arith, codes, All,
}
use df_local_foundation.Runtime.{Outcome, ok}
use df_local_foundation.Runtime.Pure.{◌>>=◌, bound}
use df_local_foundation.Web.Value.{Value, Row, traverse}
use df_local_foundation.Web.Sorting.{
  le_codes, le_value, Keyed, placed, insert_keyed, sort_keyed, rows_of, sort_by,
}

abbrev IsLe : Value → Value → Type 0
IsLe a b = le_value a b ≡ some true

-- Each key is at most the next.
abbrev IsAscending : List Keyed → Type 0
IsAscending [] = Unit
IsAscending (x ∷ []) = Unit
IsAscending (x ∷ y ∷ ys) = IsLe x.0 y.0 × IsAscending (y ∷ ys)

le_codes_total : (s t : List ℕ) → le_codes s t ≡ false → le_codes t s ≡ true
unfolding le_codes
le_codes_total [] t h = cc
le_codes_total (c ∷ s) [] h = refl
le_codes_total (c ∷ s) (d ∷ t) h = ground (arith, le_codes_total s t)

-- Of two keys that have an order, one is at most the other.
le_value_total : (a b : Value) → le_value a b ≡ some false → IsLe b a
unfolding le_value
le_value_total (Value.number a) (Value.number b) h = ground arith
le_value_total (Value.number a) (Value.truth b) h = ground arith
le_value_total (Value.truth a) (Value.number b) h = ground arith
le_value_total (Value.truth a) (Value.truth b) h = ground arith
le_value_total (Value.text s) (Value.text t) h = ground (arith, le_codes_total (codes s) (codes t))
le_value_total (Value.time a) (Value.time b) h = ground arith
le_value_total _ _ h = cc

-- The head of a list is not below `k`.
abbrev IsHeadAbove : Value → List Keyed → Type 0
IsHeadAbove k [] = Unit
IsHeadAbove k (x ∷ xs) = IsLe k x.0

IsAscending-cons :
    (x : Keyed) (xs : List Keyed) → IsHeadAbove x.0 xs → IsAscending xs → IsAscending (x ∷ xs)
IsAscending-cons x [] h k = tt
IsAscending-cons x (y ∷ ys) h k = (h, k)

IsAscending-tail :
    (x : Keyed) (xs : List Keyed) → IsAscending (x ∷ xs) → IsHeadAbove x.0 xs × IsAscending xs
IsAscending-tail x [] h = (tt, tt)
IsAscending-tail x (y ∷ ys) h = (h.0, h.1)

module _ (P : Keyed → Type 0) where
  -- What an insertion gives: a rearrangement, in order, whose head is one of the two heads.
  record IsInserted (x : Keyed) (ys zs : List Keyed) : Type 0 where
    perm : Perm (x ∷ ys) zs
    ascending : IsAscending zs
    above : (k : Value) → IsLe k x.0 → IsHeadAbove k ys → IsHeadAbove k zs
    all : P x → All P ys → All P zs

  by_order :
      (x y : Keyed) (ys zs : List Keyed) (o : Option Bool) (q : Outcome (List Keyed))
      → IsAscending (y ∷ ys)
      → le_value x.0 y.0 ≡ o
      → ((ws : List Keyed) → q ≡ ok ws → IsInserted x ys ws)
      → placed o x y ys q ≡ ok zs
      → IsInserted x (y ∷ ys) zs
  by_order x y ys zs none q h le ih e = cc
  by_order x y ys zs (some true) q h le ih e =
      let same : x ∷ y ∷ ys ≡ zs = cc e in
      subst (IsInserted x (y ∷ ys)) same
        (record { perm = Perm.rfl; ascending = (le, h); above = λ k a b. a; all = λ p ps. (p, ps) })
  by_order x y ys zs (some false) q h le ih e =
      let (ws, done, whole) = bound q (λ ws. ok (y ∷ ws)) zs e in
      let same : y ∷ ws ≡ zs = cc whole in
      let rest = ih ws done in
      let tail = IsAscending-tail y ys h in
      subst (IsInserted x (y ∷ ys)) same (record {
        perm = Perm.trans (Perm.swap y x ys) (Perm.cons y rest.perm);
        ascending =
            IsAscending-cons y ws (rest.above y.0 (le_value_total x.0 y.0 le) tail.0)
              rest.ascending;
        above = λ k a b. b;
        all = λ p ps. (ps.0, rest.all p ps.1);
      })

  insert_keyed_lem :
      (x : Keyed) (ys zs : List Keyed)
      → IsAscending ys
      → insert_keyed x ys ≡ ok zs
      → IsInserted x ys zs
  unfolding insert_keyed
  insert_keyed_lem x [] zs h e =
      let same : x ∷ [] ≡ zs = cc e in
      subst (IsInserted x []) same
        (record { perm = Perm.rfl; ascending = tt; above = λ k a b. a; all = λ p ps. (p, tt) })
  insert_keyed_lem x (y ∷ ys) zs h e =
      by_order x y ys zs (le_value x.0 y.0) (insert_keyed x ys) h refl
        (λ ws. insert_keyed_lem x ys ws (IsAscending-tail y ys h).1) e

  sort_keyed_lem :
      (ks out : List Keyed)
      → sort_keyed ks ≡ ok out
      → Perm ks out × IsAscending out × (All P ks → All P out)
  unfolding sort_keyed
  sort_keyed_lem [] out e =
      let same : [] ≡ out = cc e in
      subst (λ (o : List Keyed). Perm [] o × IsAscending o × (All P [] → All P o)) same
        (Perm.rfl, tt, λ h. h)
  sort_keyed_lem (x ∷ xs) out e =
      let (ws, done, last) = bound (sort_keyed xs) (insert_keyed x) out e in
      let rest = sort_keyed_lem xs ws done in
      let put = insert_keyed_lem x ws out rest.1 last in
      (Perm.trans (Perm.cons x rest.0) put.perm, put.ascending, λ ps. put.all ps.0 (rest.2 ps.1))

-- The list holds rows with their keys.
abbrev HasKeys : (Row → Outcome Value) → List Keyed → Type 0
HasKeys key = All (λ k. key k.1 ≡ ok k.0)

keyed_rows :
    (key : Row → Outcome Value) (rows : List Row) (ks : List Keyed)
    → traverse (λ r. key r >>= λ k. ok (k, r)) rows ≡ ok ks
    → (rows_of ks ≡ rows) × HasKeys key ks
keyed_rows key [] ks e =
    let same : [] ≡ ks = cc e in
    subst (λ (o : List Keyed). (rows_of o ≡ []) × HasKeys key o) same (refl, tt)
keyed_rows key (r ∷ rs) ks e =
    let (k, first, more) =
      bound (key r >>= λ k. ok (k, r))
        (λ y. traverse (λ r. key r >>= λ k. ok (k, r)) rs >>= λ ys. ok (y ∷ ys)) ks e in
    let (a, known, pair) = bound (key r) (λ k. ok (k, r)) k first in
    let (ys, done, whole) =
      bound (traverse (λ r. key r >>= λ k. ok (k, r)) rs) (λ ys. ok (k ∷ ys)) ks more in
    let rest = keyed_rows key rs ys done in
    let same : (a, r) ∷ ys ≡ ks = cc (pair, whole) in
    subst (λ (o : List Keyed). (rows_of o ≡ r ∷ rs) × HasKeys key o) same
      (ap (◌∷◌ r) rest.0, (known, rest.1))

-- The rows in the order of their keys.
abbrev pub IsSortedBy : (Row → Outcome Value) → List Row → Type 0
IsSortedBy key out = (ks : List Keyed) × (rows_of ks ≡ out) × HasKeys key ks × IsAscending ks

-- A sort that succeeds gives the same rows, in the order of their keys.
pub sort_by_lem :
    (key : Row → Outcome Value) (rows out : List Row)
    → sort_by key rows ≡ ok out
    → Perm rows out × IsSortedBy key out
unfolding sort_by
sort_by_lem key rows out e =
    let (ks, keyed, more) =
      bound (traverse (λ r. key r >>= λ k. ok (k, r)) rows)
        (λ ks. sort_keyed ks >>= λ sorted. ok (rows_of sorted)) out e in
    let (sorted, done, last) = bound (sort_keyed ks) (λ sorted. ok (rows_of sorted)) out more in
    let named = keyed_rows key rows ks keyed in
    let order = sort_keyed_lem (λ k. key k.1 ≡ ok k.0) ks sorted done in
    let same : rows_of sorted ≡ out = cc last in
    (
      subst (λ (o : List Row). Perm rows o) same
          (subst (λ (i : List Row). Perm i (rows_of sorted)) named.0
            (Perm.map (λ (k : Keyed). k.1) order.0)),
      (sorted, same, order.2 named.1, order.1),
    )

rows_All :
    (Q : Row → Type 0) (ks : List Keyed)
    → (All (λ (k : Keyed). Q k.1) ks → All Q (rows_of ks))
      × (All Q (rows_of ks) → All (λ (k : Keyed). Q k.1) ks)
rows_All Q [] = (λ h. h, λ h. h)
rows_All Q (k ∷ ks) = (λ h. (h.0, (rows_All Q ks).0 h.1), λ h. (h.0, (rows_All Q ks).1 h.1))

-- What holds of all rows holds of all sorted rows.
pub sort_by-All :
    (Q : Row → Type 0) (key : Row → Outcome Value) (rows out : List Row)
    → sort_by key rows ≡ ok out
    → All Q rows
    → All Q out
unfolding sort_by
sort_by-All Q key rows out e h =
    let (ks, keyed, more) =
      bound (traverse (λ r. key r >>= λ k. ok (k, r)) rows)
        (λ ks. sort_keyed ks >>= λ sorted. ok (rows_of sorted)) out e in
    let (sorted, done, last) = bound (sort_keyed ks) (λ sorted. ok (rows_of sorted)) out more in
    let named = keyed_rows key rows ks keyed in
    let order = sort_keyed_lem (λ (k : Keyed). Q k.1) ks sorted done in
    let same : rows_of sorted ≡ out = cc last in
    subst (All Q) same
      ((rows_All Q sorted).0 (order.2 ((rows_All Q ks).1 (subst (All Q) (sym named.0) h))))
