-- ===== src/Web/Sorting/Texts.antt =====
-- `sorted` on rows whose keys are texts.
use df_local_foundation.Prelude.{
  String, Bool, true, false, some, List, [], ◌∷◌, ◌≡◌, refl, codes, All,
}
use df_local_foundation.Runtime.{Outcome, ok}
use df_local_foundation.Runtime.Pure.{◌>>=◌}
use df_local_foundation.Web.Value.{Value, Row, traverse}
use df_local_foundation.Web.Sorting.{
  le_codes, le_value, Keyed, insert_keyed, sort_keyed, rows_of, sort_by,
}

-- A key that is a text: two of these have an order.
abbrev IsText : Value → Type 0
IsText v = (s : String) × (v ≡ Value.text s)

le_value_texts : (a b : Value) → IsText a → IsText b → (r : Bool) × (le_value a b ≡ some r)
unfolding le_value
le_value_texts a b (s, e) (t, f) = (le_codes (codes s) (codes t), rw (e, f))

abbrev TextKeys : List Keyed → Type 0
TextKeys = All (λ k. IsText k.0)

insert_texts :
    (x : Keyed) (ys : List Keyed)
    → IsText x.0
    → TextKeys ys
    → (zs : List Keyed) × (insert_keyed x ys ≡ ok zs) × TextKeys zs
unfolding insert_keyed
insert_texts x [] h k = (x ∷ [], refl, (h, tt))
insert_texts x (y ∷ ys) h (k, ks) =
    let (zs, done, texts) = insert_texts x ys h ks in
    let (r, order) = le_value_texts x.0 y.0 h k in by_order r order zs done texts
  where
    by_order :
        (r : Bool)
        → le_value x.0 y.0 ≡ some r
        → (zs : List Keyed) → insert_keyed x ys ≡ ok zs
        → TextKeys zs
        → (ws : List Keyed) × (insert_keyed x (y ∷ ys) ≡ ok ws) × TextKeys ws
    by_order true order zs done texts = (x ∷ y ∷ ys, rw order, (h, (k, ks)))
    by_order false order zs done texts = (y ∷ zs, rw (order, done), (k, texts))

sort_texts :
    (ks : List Keyed) → TextKeys ks → (out : List Keyed) × (sort_keyed ks ≡ ok out) × TextKeys out
unfolding sort_keyed
sort_texts [] h = ([], refl, tt)
sort_texts (x ∷ xs) (h, hs) =
    let (ys, done, texts) = sort_texts xs hs in
    let (zs, put, all) = insert_texts x ys h texts in (zs, rw (done, put), all)

keyed_texts :
    (key : Row → Outcome Value) (rows : List Row)
    → All (λ r. (s : String) × (key r ≡ ok (Value.text s))) rows
    → (ks : List Keyed) × (traverse (λ r. key r >>= λ k. ok (k, r)) rows ≡ ok ks) × TextKeys ks
keyed_texts key [] h = ([], refl, tt)
keyed_texts key (r ∷ rs) ((s, e), hs) =
    let (ks, done, texts) = keyed_texts key rs hs in
    ((Value.text s, r) ∷ ks, rw (e, done), ((s, refl), texts))

-- A sort by texts does not fail.
pub sort_by_texts :
    (key : Row → Outcome Value) (rows : List Row)
    → All (λ r. (s : String) × (key r ≡ ok (Value.text s))) rows
    → (out : List Row) × (sort_by key rows ≡ ok out)
unfolding sort_by
sort_by_texts key rows h =
    let (ks, keyed, texts) = keyed_texts key rows h in
    let (sorted, done, same) = sort_texts ks texts in (rows_of sorted, rw (keyed, done))
