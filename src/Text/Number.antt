-- ===== src/Text/Number.antt =====
-- Python's `int(text)` and `str(number)` in base ten, over ASCII digits.
use df_local_foundation.Prelude.{
  ℕ, zero, suc, ◌+◌, ◌-◌, ◌*◌, ◌/◌, ◌%◌, Bool, ◌&&◌, Option, none, some, List, [], ◌∷◌, leb, ltb,
  ◌==◌, if◌then◌else◌,
}
use df_local_foundation.Prelude.Int.{ℤ, pos, neg}

unfoldable pub is_digit : ℕ → Bool
is_digit c = leb 48 c && leb c 57

-- The digits behind a first one: a single `_` may stand between two digits.
unfoldable pub more_digits : ℕ → List ℕ → Option ℕ
unfolding is_digit
more_digits acc [] = some acc
more_digits acc (c ∷ []) = if is_digit c then some (acc * 10 + (c - 48)) else none
more_digits acc (c ∷ d ∷ s) =
    let plain = more_digits (acc * 10 + (c - 48)) (d ∷ s) in
    let skipped = more_digits (acc * 10 + (d - 48)) s in
    if is_digit c then plain else if c == b'_' && is_digit d then skipped else none

-- An unsigned numeral.
unfoldable pub numeral : List ℕ → Option ℕ
unfolding more_digits is_digit
numeral [] = none
numeral (c ∷ s) = if is_digit c then more_digits (c - 48) s else none

abbrev pub signed : (ℕ → ℤ) → Option ℕ → Option ℤ
signed f none = none
signed f (some n) = some (f n)

-- A numeral with an optional sign.
unfoldable pub signed_numeral : List ℕ → Option ℤ
unfolding numeral
signed_numeral [] = none
signed_numeral (c ∷ s) =
    if c == b'-'
    then signed (λ n. neg (pos n)) (numeral s)
    else if c == b'+'
    then signed pos (numeral s)
    else signed pos (numeral (c ∷ s))

-- The digits of `n`, the least significant last, before those of `rest`; on fuel.
unfoldable pub show_onto : ℕ → ℕ → List ℕ → List ℕ
show_onto zero n rest = rest
show_onto (suc f) n rest =
    let more = show_onto f (n / 10) ((48 + n % 10) ∷ rest) in
    if ltb n 10 then (48 + n) ∷ rest else more

-- `str(n)`; a number has no more digits than its value plus one.
unfoldable pub show : ℕ → List ℕ
unfolding show_onto
show n = show_onto (suc n) n []
