-- ===== src/Text/Digits.antt =====
-- The digits that `str` writes of a number, and `int` reads.
use df_local_foundation.Prelude.{
  ℕ, zero, suc, ◌+◌, ◌-◌, ◌*◌, ◌/◌, ◌%◌, ◌<◌, ◌≡◌, ap, ◌∙◌, true, inl, inr, some, List, [], ◌∷◌,
  All, arith, Bool-cases, ltb,
}
use df_local_foundation.Prelude.Int.{pos}
use df_local_foundation.Text.Number.{
  is_digit, more_digits, numeral, signed_numeral, show_onto, show,
}

abbrev pub IsDigit : ℕ → Type 0
IsDigit c = is_digit c ≡ true

IsDigit-of : (d : ℕ) → d < 10 → IsDigit (48 + d)
unfolding is_digit
IsDigit-of d h = ground arith

more_digits-digit :
    (acc c : ℕ) (s : List ℕ)
    → IsDigit c
    → more_digits acc (c ∷ s) ≡ more_digits (acc * 10 + (c - 48)) s
unfolding more_digits
more_digits-digit acc c [] h = ground arith
more_digits-digit acc c (d ∷ s) h = rw h

numeral-digit : (c : ℕ) (s : List ℕ) → IsDigit c → numeral (c ∷ s) ≡ more_digits (c - 48) s
unfolding numeral
numeral-digit c s h = rw h

numeral-show_onto :
    (f n : ℕ) (rest : List ℕ) → n < f → numeral (show_onto f n rest) ≡ more_digits n rest
unfolding show_onto
numeral-show_onto zero n rest h = elim h [ ]
numeral-show_onto (suc f) n rest h = elim (Bool-cases (ltb n 10)) [
  | inl small ↦ rw small (
      numeral-digit (48 + n) rest (IsDigit-of n (ground arith))
      ∙ ap (λ k. more_digits k rest) (omega arith))
  | inr large ↦ rw large (
      numeral-show_onto f (n / 10) ((48 + n % 10) ∷ rest) (ground arith)
      ∙ (more_digits-digit (n / 10) (48 + n % 10) rest (IsDigit-of (n % 10) (omega arith))
          ∙ ap (λ k. more_digits k rest) (omega arith)))
]

-- Reading back what `str` wrote gives the number.
pub numeral-show : (n : ℕ) → numeral (show n) ≡ some n
unfolding show more_digits
numeral-show n = numeral-show_onto (suc n) n [] (omega arith)

signed_numeral-numeral : (s : List ℕ) (n : ℕ) → numeral s ≡ some n → signed_numeral s ≡ some (pos n)
unfolding signed_numeral numeral is_digit
signed_numeral-numeral [] n h = cc
signed_numeral-numeral (c ∷ s) n h = ground arith

pub signed_numeral-show : (n : ℕ) → signed_numeral (show n) ≡ some (pos n)
signed_numeral-show n = signed_numeral-numeral (show n) n (numeral-show n)

show_onto-digits :
    (f n : ℕ) (rest : List ℕ) → n < f → All IsDigit rest → All IsDigit (show_onto f n rest)
unfolding show_onto
show_onto-digits zero n rest h k = k
show_onto-digits (suc f) n rest h k = elim (Bool-cases (ltb n 10)) [
  | inl small ↦ rw small (IsDigit-of n (ground arith), k)
  | inr large ↦ rw large (
      show_onto-digits f (n / 10) ((48 + n % 10) ∷ rest) (ground arith)
        (IsDigit-of (n % 10) (omega arith), k))
]

pub show-digits : (n : ℕ) → All IsDigit (show n)
unfolding show
show-digits n = show_onto-digits (suc n) n [] (omega arith) tt
