-- ===== src/Text/Words.antt =====
-- Python's `s.split()`, on white space, and the last word of it.
use df_local_foundation.Prelude.{
  ℕ, ◌≡◌, ◌∙◌, Bool, true, false, not, Option, none, some, List, [], ◌∷◌, All, arith, if◌then◌else◌,
}
use df_local_foundation.Text.{is_space}
use df_local_foundation.Text.Number.{is_digit}
use df_local_foundation.Text.Digits.{IsDigit}

-- Whether a text begins with a word.
abbrev pub starts_word : List ℕ → Bool
starts_word [] = false
starts_word (c ∷ s) = not (is_space c)

-- A character joins the word that follows it, or is one.
abbrev pub join_word : ℕ → Bool → List (List ℕ) → List (List ℕ)
join_word c true (w ∷ ws) = (c ∷ w) ∷ ws
join_word c _ ws = (c ∷ []) ∷ ws

-- `s.split()`
unfoldable pub words : List ℕ → List (List ℕ)
words [] = []
words (c ∷ s) = let rest = words s in if is_space c then rest else join_word c (starts_word s) rest

-- `ws[-1]`, where `none` is the `IndexError`.
abbrev pub last : List (List ℕ) → Option (List ℕ)
last [] = none
last (w ∷ []) = some w
last (_ ∷ v ∷ ws) = last (v ∷ ws)

digit_no_space : (c : ℕ) → IsDigit c → is_space c ≡ false
unfolding is_digit is_space
digit_no_space c h = ground arith

words_step :
    (c : ℕ) (s : List ℕ)
    → is_space c ≡ false
    → words (c ∷ s) ≡ join_word c (starts_word s) (words s)
unfolding words
words_step c s h = rw h

-- Digits are one word.
pub words-digits : (c : ℕ) (s : List ℕ) → All IsDigit (c ∷ s) → words (c ∷ s) ≡ (c ∷ s) ∷ []
unfolding words
words-digits c [] h = words_step c [] (digit_no_space c h.0)
words-digits c (d ∷ s) h =
    words_step c (d ∷ s) (digit_no_space c h.0) ∙ rw (words-digits d s h.1, digit_no_space d h.1.0)
