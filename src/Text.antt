-- ===== src/Text.antt =====
-- The methods of `str` that the program calls, on texts as lists of code points.
pub mod Number
pub mod Digits
pub mod Split
pub mod Words
use df_local_foundation.Prelude.{
  ℕ, ◌+◌, Bool, true, false, ◌&&◌, ◌||◌, List, [], ◌∷◌, ◌++◌, leb, ◌==◌, if◌then◌else◌,
}

-- `str.lower` of one code point. Of all that is not ASCII only U+212A, the Kelvin sign, and
-- U+0130, the dotted capital I, have a lower case that holds an ASCII letter; the others are left
-- as they are, so a comparison of the result with an ASCII word is that of the full method.
unfoldable pub lower_code : ℕ → List ℕ
lower_code c =
    if leb b'A' c && leb c b'Z'
    then (c + 32) ∷ []
    else if c == 0x212A
    then b'k' ∷ []
    else if c == 0x130
    then b'i' ∷ 0x307 ∷ []
    else c ∷ []

-- `s.lower()`
unfoldable pub lower : List ℕ → List ℕ
lower [] = []
lower (c ∷ s) = lower_code c ++ lower s

-- `s.split(sep)[0]` for a separator of one character.
unfoldable pub before : ℕ → List ℕ → List ℕ
before sep [] = []
before sep (c ∷ s) = elim (c == sep) [ true ↦ [] | false ↦ c ∷ before sep s ]

-- A character joins the first part of what the rest splits into.
abbrev pub join_first : ℕ → List (List ℕ) → List (List ℕ)
join_first c [] = (c ∷ []) ∷ []
join_first c (p ∷ ps) = (c ∷ p) ∷ ps

-- `s.split(sep)` for a separator of one character.
unfoldable pub split : ℕ → List ℕ → List (List ℕ)
split sep [] = [] ∷ []
split sep (c ∷ s) = if c == sep then [] ∷ split sep s else join_first c (split sep s)

-- The ASCII characters that `str.strip` and `str.split` take for white space.
unfoldable pub is_space : ℕ → Bool
is_space c = c == 32 || (leb 9 c && leb c 13) || (leb 28 c && leb c 31)

-- `s.lstrip()`
unfoldable pub lstrip : List ℕ → List ℕ
lstrip [] = []
lstrip (c ∷ s) = elim (is_space c) [ true ↦ lstrip s | false ↦ c ∷ s ]

abbrev pub keep_head : ℕ → List ℕ → List ℕ
keep_head c [] = if is_space c then [] else c ∷ []
keep_head c (d ∷ r) = c ∷ d ∷ r

-- `s.rstrip()`: a trailing space goes when nothing is left behind it.
unfoldable pub rstrip : List ℕ → List ℕ
rstrip [] = []
rstrip (c ∷ s) = keep_head c (rstrip s)

-- `s.strip()`
unfoldable pub strip : List ℕ → List ℕ
strip s = lstrip (rstrip s)
