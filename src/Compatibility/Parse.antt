-- ===== src/Compatibility/Parse.antt =====
-- `_parse_version` of core/lifecycle/compatibility.py, on the texts of versions and on any text.
use df_local_foundation.Prelude.{
  ℕ, ◌≡◌, refl, ap, ◌∙◌, false, some, List, [], ◌∷◌, ◌++◌, All, arith, contains,
}
use df_local_foundation.Prelude.Int.{ℤ, pos, ◌≤ℤ◌}
use df_local_foundation.Runtime.{ok}
use df_local_foundation.Text.{before, split, strip}
use df_local_foundation.Text.Number.{show, is_digit, signed_numeral}
use df_local_foundation.Text.Digits.{signed_numeral-show, show-digits}
use df_local_foundation.Text.Split.{
  before-absent, before-append, contains-before, split-absent, split-append, split-contains,
  contains-digits, strip-contains, strip-digits,
}
use df_local_foundation.Compatibility.{Version, int, parse_parts, parse_codes}

-- `f"{a}.{b}.{c}"`
abbrev pub render : ℕ → ℕ → ℕ → List ℕ
render a b c = show a ++ (b'.' ∷ (show b ++ (b'.' ∷ show c)))

show_lacks : (c n : ℕ) → is_digit c ≡ false → contains c (show n) ≡ false
show_lacks c n h = contains-digits c (show n) h (show-digits n)

contains-append :
    (c : ℕ) (s t : List ℕ)
    → contains c s ≡ false
    → contains c t ≡ false
    → contains c (s ++ t) ≡ false
contains-append c [] t h k = k
contains-append c (d ∷ s) t h k = ground (arith, contains-append c s t)

dash_no_digit : is_digit b'-' ≡ false
unfolding is_digit
dash_no_digit = refl

dot_no_digit : is_digit b'.' ≡ false
unfolding is_digit
dot_no_digit = refl

render_lacks_dash : (a b c : ℕ) → contains b'-' (render a b c) ≡ false
render_lacks_dash a b c =
    let digits = λ (n : ℕ). show_lacks b'-' n dash_no_digit in
    contains-append b'-' (show a) (b'.' ∷ (show b ++ (b'.' ∷ show c))) (digits a)
      (contains-append b'-' (show b) (b'.' ∷ show c) (digits b) (digits c))

split-render : (a b c : ℕ) → split b'.' (render a b c) ≡ show a ∷ show b ∷ show c ∷ []
split-render a b c =
    let dots = λ (n : ℕ). show_lacks b'.' n dot_no_digit in
    split-append b'.' (show a) (show b ++ (b'.' ∷ show c)) (dots a)
    ∙ (ap (λ l. show a ∷ l) (split-append b'.' (show b) (show c) (dots b))
        ∙ ap (λ l. show a ∷ show b ∷ l) (split-absent b'.' (show c) (dots c)))

int-show : (n : ℕ) → int (show n) ≡ ok (pos n)
unfolding int
int-show n = ground (arith, strip-digits (show n) (show-digits n), signed_numeral-show n)

parse_parts-show :
    (a b c : ℕ) → parse_parts (show a ∷ show b ∷ show c ∷ []) ≡ ok (pos a, pos b, pos c)
unfolding parse_parts
parse_parts-show a b c = rw (int-show a, int-show b, int-show c)

-- Parsing the text of three numbers, joined by dots, gives the three numbers, and so it does if a
-- dash and any other text stand behind them: a pre-release suffix is ignored.
pub parse_codes-render :
    (a b c : ℕ)
    → (parse_codes (render a b c) ≡ ok (pos a, pos b, pos c))
      × ((suffix : List ℕ)
          → parse_codes (render a b c ++ (b'-' ∷ suffix)) ≡ ok (pos a, pos b, pos c))
unfolding parse_codes
parse_codes-render a b c =
    (of_base, λ suffix. rw (before-append b'-' (render a b c) suffix) of_base)
  where
    of_base : parse_parts (split b'.' (before b'-' (render a b c))) ≡ ok (pos a, pos b, pos c)
    of_base =
        rw (before-absent b'-' (render a b c) (render_lacks_dash a b c), split-render a b c)
          (parse_parts-show a b c)

abbrev pub IsNonneg : Version → Type 0
IsNonneg (a, b, c) = (pos 0 ≤ℤ a) × (pos 0 ≤ℤ b) × (pos 0 ≤ℤ c)

signed_numeral-nonneg :
    (s : List ℕ) (n : ℤ) → contains b'-' s ≡ false → signed_numeral s ≡ some n → pos 0 ≤ℤ n
unfolding signed_numeral
signed_numeral-nonneg [] n h e = cc
signed_numeral-nonneg (c ∷ s) n h e = ground arith

int-nonneg : (s : List ℕ) (n : ℤ) → contains b'-' s ≡ false → int s ≡ ok n → pos 0 ≤ℤ n
unfolding int
int-nonneg s n h e = ground (arith, signed_numeral-nonneg (strip s) n (strip-contains b'-' s h))

parse_parts-IsNonneg :
    (ps : List (List ℕ)) (v : Version)
    → All (λ p. contains b'-' p ≡ false) ps
    → parse_parts ps ≡ ok v
    → IsNonneg v
unfolding parse_parts
parse_parts-IsNonneg [] v h e = ground arith
parse_parts-IsNonneg (a ∷ []) v h e = ground arith
parse_parts-IsNonneg (a ∷ b ∷ []) v h e = ground arith
parse_parts-IsNonneg (a ∷ b ∷ c ∷ []) v h e =
    ground (arith, int-nonneg a v.0 h.0, int-nonneg b v.1 h.1.0, int-nonneg c v.2 h.1.1.0)
parse_parts-IsNonneg (a ∷ b ∷ c ∷ d ∷ ps) v h e = ground arith

-- Whatever the text, a version that is read has no negative part.
pub parse_codes-IsNonneg : (s : List ℕ) (v : Version) → parse_codes s ≡ ok v → IsNonneg v
unfolding parse_codes
parse_codes-IsNonneg s v e =
    parse_parts-IsNonneg (split b'.' (before b'-' s)) v
      (split-contains b'-' b'.' (before b'-' s) (contains-before b'-' s)) e
