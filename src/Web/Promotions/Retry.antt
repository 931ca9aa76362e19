-- ===== src/Web/Promotions/Retry.antt =====
-- `retry_allowed` in the details of an entry of the promotion queue.
use mathlib.Core.Path.{subst}
use df_local_foundation.Prelude.{
  ℕ, not, ◌≡◌, ◌≢◌, ◌↔◌, refl, ap, sym, ◌∙◌, Bool, true, false, String, Option, none, some, List,
  [], ◌∷◌, ◌++◌, codes, arith, str_eq, eq_iff, if◌then◌else◌,
}
use df_local_foundation.Runtime.{Outcome, attribute_error, ok, raised}
use df_local_foundation.Runtime.Pure.{◌>>=◌, bound}
use df_local_foundation.Web.Value.{
  Value, dict, null, Row, get_field, get_or_null, is_text, is_truthy, or_empty,
}
use df_local_foundation.Web.Promotions.Detail.{
  starts_with, retry_allowed, is_under_ceiling, block_of, rejection_block,
}

-- The text begins so.
abbrev Begins : List ℕ → List ℕ → Type 0
Begins p s = (r : List ℕ) × (s ≡ p ++ r)

starts_with_iff : (p s : List ℕ) → (starts_with p s ≡ true) ↔ Begins p s
unfolding starts_with
starts_with_iff [] s = (λ h. (s, refl), λ h. refl)
starts_with_iff (c ∷ p) [] = (λ h. cc, λ (r, e). cc e)
starts_with_iff (c ∷ p) (d ∷ s) = (
  λ h.
      let (r, e) = (starts_with_iff p s).0 (ground arith) in
      let same : c ≡ d = ground arith in (r, cc (same, e)),
  λ (r, e).
      let head : c ≡ d = cc e in
      let tail : s ≡ p ++ r = cc e in
      let rest : starts_with p s ≡ true = (starts_with_iff p s).1 (r, tail) in ground arith,
)

-- The reason is no text that begins with the words for a reached ceiling.
abbrev pub IsUnderCeiling : Value → Type 0
IsUnderCeiling v = (s : String) → v ≡ Value.text s → ¬ Begins (codes "Retry ceiling") (codes s)

abbrev ceiling : List ℕ
ceiling = codes "Retry ceiling"

text_ceiling :
    (s : String) (b : Bool)
    → not (starts_with ceiling (codes s)) ≡ b
    → (b ≡ true) ↔ IsUnderCeiling (Value.text s)
text_ceiling s b h = (
  λ k t e begins.
      let same : s ≡ t = cc e in
      let holds : starts_with ceiling (codes s) ≡ true =
        (starts_with_iff ceiling (codes s)).1
          (subst (λ (u : String). Begins ceiling (codes u)) (sym same) begins) in
      let flips : not true ≡ true = ap not (sym holds) ∙ (h ∙ k) in cc flips,
  λ k. by_test (starts_with ceiling (codes s)) refl h k,
)
  where
    by_test :
        (t : Bool)
        → starts_with ceiling (codes s) ≡ t
        → not (starts_with ceiling (codes s)) ≡ b
        → IsUnderCeiling (Value.text s)
        → b ≡ true
    by_test true e h k = elim (k s refl ((starts_with_iff ceiling (codes s)).0 e)) [ ]
    by_test false e h k = sym h ∙ ap not e

or_empty_text : (s : String) → or_empty (Value.text s) ≡ Value.text s
unfolding is_truthy
or_empty_text s = by_test (str_eq s "") refl
  where
    by_test : (t : Bool) → str_eq s "" ≡ t → or_empty (Value.text s) ≡ Value.text s
    by_test true e = rw e (ap Value.text (sym ((eq_iff s "").0 e)))
    by_test false e = rw e

-- What is no text raises or counts as the empty text.
no_text :
    (v : Value) (t b : Bool)
    → is_under_ceiling v ≡ raised attribute_error
    → ((s : String) → v ≢ Value.text s)
    → is_under_ceiling (if t then v else Value.text "") ≡ ok b
    → (b ≡ true) ↔ IsUnderCeiling v
unfolding starts_with
no_text v true b bad other h = cc
no_text v false b bad other h = (λ k s e g. other s e, λ k. cc h)

ceiling_lem :
    (v : Value) (b : Bool) → is_under_ceiling (or_empty v) ≡ ok b → (b ≡ true) ↔ IsUnderCeiling v
ceiling_lem (Value.text s) b h =
    let read : is_under_ceiling (Value.text s) ≡ ok b =
      ap is_under_ceiling (sym (or_empty_text s)) ∙ h in
    text_ceiling s b (cc read)
ceiling_lem v b h = no_text v (is_truthy v) b refl (λ s e. cc) h

abbrev pub in_block : String → Value → Option Value
in_block k (dict fs) = get_field k fs
in_block k _ = none

is_text_iff : (s : String) (v : Value) → (is_text s v ≡ true) ↔ (v ≡ Value.text s)
is_text_iff s (Value.text t) = (λ h. ap Value.text ((eq_iff t s).0 h), λ h. (eq_iff t s).1 (cc h))
is_text_iff s v = (λ h. cc, λ h. cc)

abbrev allowed_under : Outcome Value → Option Value
allowed_under (ok block) = in_block "retry_allowed" block
allowed_under _ = none

pub block_allows :
    (status : Value) (staging : Row) (block : Value)
    → rejection_block status staging ≡ ok block
    → (in_block "retry_allowed" block ≡ some (Value.truth true)) ↔ (
        (status ≡ Value.text "dead_lettered")
        × IsUnderCeiling (get_or_null "dead_letter_reason" staging))
unfolding rejection_block retry_allowed
block_allows status staging block e =
    by_status (is_text "rejected" status) (is_text "dead_lettered" status) refl refl
  where
    reason : Value
    reason = get_or_null "dead_letter_reason" staging

    on_dead :
        (rejection_block status staging ≡ (
          is_under_ceiling (or_empty reason) >>= λ allowed. ok (block_of status staging allowed)))
        → is_text "dead_lettered" status ≡ true
        → (in_block "retry_allowed" block ≡ some (Value.truth true))
          ↔ ((status ≡ Value.text "dead_lettered") × IsUnderCeiling reason)
    on_dead same fd =
        let (allowed, h, whole) =
          bound (is_under_ceiling (or_empty reason))
            (λ allowed. ok (block_of status staging allowed)) block (sym same ∙ e) in
        let shown : in_block "retry_allowed" block ≡ some (Value.truth allowed) =
          ap allowed_under (sym whole) in
        let decides = ceiling_lem reason allowed h in
        (
          λ k.
              let holds : allowed ≡ true = cc (k, shown) in
              ((is_text_iff "dead_lettered" status).0 fd, decides.0 holds),
          λ k. let holds : allowed ≡ true = decides.1 k.1 in cc (shown, holds),
        )

    on_none :
        (in_block "retry_allowed" block ≢ some (Value.truth true))
        → is_text "dead_lettered" status ≡ false
        → (in_block "retry_allowed" block ≡ some (Value.truth true))
          ↔ ((status ≡ Value.text "dead_lettered") × IsUnderCeiling reason)
    on_none denied fd = (
      λ k. elim (denied k) [ ],
      λ k.
          let holds = (is_text_iff "dead_lettered" status).1 k.0 in
          let clash : true ≡ false = sym holds ∙ fd in cc clash,
    )

    by_status :
        (r d : Bool)
        → is_text "rejected" status ≡ r
        → is_text "dead_lettered" status ≡ d
        → (in_block "retry_allowed" block ≡ some (Value.truth true))
          ↔ ((status ≡ Value.text "dead_lettered") × IsUnderCeiling reason)
    by_status true true fr fd = on_dead (rw (fr, fd)) fd
    by_status false true fr fd = on_dead (rw (fr, fd)) fd
    by_status true false fr fd =
        on_none
          (λ k.
            let same : rejection_block status staging ≡ ok (block_of status staging false) =
              rw (fr, fd) in
            let shown : in_block "retry_allowed" block ≡ some (Value.truth false) =
              ap allowed_under (sym e ∙ same) in
            cc (k, shown))
          fd
    by_status false false fr fd =
        on_none
          (λ k.
            let same : rejection_block status staging ≡ ok null = rw (fr, fd) in
            let shown : in_block "retry_allowed" block ≡ none = ap allowed_under (sym e ∙ same) in
            cc (k, shown))
          fd
