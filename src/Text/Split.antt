-- ===== src/Text/Split.antt =====
-- Laws of `split`, `strip` and `split(…)[0]`.
use df_local_foundation.Prelude.{
  ℕ, ◌≡◌, refl, false, inl, inr, List, [], ◌∷◌, ◌++◌, All, arith, Bool-cases, contains, ◌==◌,
}
use df_local_foundation.Text.{before, split, join_first, is_space, lstrip, rstrip, keep_head, strip}
use df_local_foundation.Text.Number.{is_digit}
use df_local_foundation.Text.Digits.{IsDigit}

-- What stands behind the separator does not matter.
pub before-append : (sep : ℕ) (s r : List ℕ) → before sep (s ++ sep ∷ r) ≡ before sep s
unfolding before
before-append sep [] r = ground arith
before-append sep (c ∷ s) r = ground (arith, before-append sep s r)

pub before-absent : (sep : ℕ) (s : List ℕ) → contains sep s ≡ false → before sep s ≡ s
unfolding before
before-absent sep [] h = refl
before-absent sep (c ∷ s) h = ground (arith, before-absent sep s)

-- The first part holds no separator.
pub contains-before : (sep : ℕ) (s : List ℕ) → contains sep (before sep s) ≡ false
unfolding before
contains-before sep [] = refl
contains-before sep (c ∷ s) = ground (arith, contains-before sep s)

pub split-absent : (sep : ℕ) (s : List ℕ) → contains sep s ≡ false → split sep s ≡ s ∷ []
unfolding split
split-absent sep [] h = refl
split-absent sep (c ∷ s) h = ground (arith, split-absent sep s)

pub split-append :
    (sep : ℕ) (s r : List ℕ) → contains sep s ≡ false → split sep (s ++ sep ∷ r) ≡ s ∷ split sep r
unfolding split
split-append sep [] r h = ground arith
split-append sep (c ∷ s) r h = ground (arith, split-append sep s r)

-- A text that holds no `c` splits into texts that hold none.
pub split-contains :
    (c sep : ℕ) (s : List ℕ) → contains c s ≡ false → All (λ p. contains c p ≡ false) (split sep s)
unfolding split
split-contains c sep [] h = (refl, tt)
split-contains c sep (d ∷ s) h = elim (Bool-cases (d == sep)) [
  | inl at ↦ rw at (refl, split-contains c sep s (ground arith))
  | inr off ↦ rw off (joined (split sep s) (split-contains c sep s (ground arith)) (ground arith))
]
  where
    joined :
        (ps : List (List ℕ))
        → All (λ p. contains c p ≡ false) ps
        → (c == d) ≡ false
        → All (λ p. contains c p ≡ false) (join_first d ps)
    joined [] k e = (ground arith, tt)
    joined (p ∷ ps) k e = (ground (arith, k.0), k.1)

pub contains-digits :
    (c : ℕ) (s : List ℕ) → is_digit c ≡ false → All IsDigit s → contains c s ≡ false
unfolding is_digit
contains-digits c [] h k = refl
contains-digits c (d ∷ s) h k = ground (arith, contains-digits c s h k.1)

lstrip-contains : (c : ℕ) (s : List ℕ) → contains c s ≡ false → contains c (lstrip s) ≡ false
unfolding lstrip
lstrip-contains c [] h = refl
lstrip-contains c (d ∷ s) h = ground (arith, lstrip-contains c s)

keep_head-contains :
    (c d : ℕ) (s : List ℕ)
    → (c == d) ≡ false
    → contains c s ≡ false
    → contains c (keep_head d s) ≡ false
keep_head-contains c d [] e h = ground arith
keep_head-contains c d (x ∷ s) e h = ground arith

rstrip-contains : (c : ℕ) (s : List ℕ) → contains c s ≡ false → contains c (rstrip s) ≡ false
unfolding rstrip
rstrip-contains c [] h = refl
rstrip-contains c (d ∷ s) h =
    keep_head-contains c d (rstrip s) (ground arith) (rstrip-contains c s (ground arith))

pub strip-contains : (c : ℕ) (s : List ℕ) → contains c s ≡ false → contains c (strip s) ≡ false
unfolding strip
strip-contains c s h = lstrip-contains c (rstrip s) (rstrip-contains c s h)

digit_no_space : (c : ℕ) → IsDigit c → is_space c ≡ false
unfolding is_digit is_space
digit_no_space c h = ground arith

rstrip-digits : (s : List ℕ) → All IsDigit s → rstrip s ≡ s
unfolding rstrip
rstrip-digits [] h = refl
rstrip-digits (c ∷ []) h = rw (digit_no_space c h.0)
rstrip-digits (c ∷ d ∷ s) h = rw (rstrip-digits (d ∷ s) h.1)

lstrip-digits : (s : List ℕ) → All IsDigit s → lstrip s ≡ s
unfolding lstrip
lstrip-digits [] h = refl
lstrip-digits (c ∷ s) h = ground (arith, digit_no_space c h.0)

pub strip-digits : (s : List ℕ) → All IsDigit s → strip s ≡ s
unfolding strip
strip-digits s h = rw (rstrip-digits s h) (lstrip-digits s h)
