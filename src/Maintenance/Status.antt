-- ===== src/Maintenance/Status.antt =====
-- The count that a DELETE reports, and the result of a prune.
use df_local_foundation.Prelude.{ℕ, ◌≡◌, some, List, [], ◌∷◌, ◌++◌, All, codes}
use df_local_foundation.Prelude.Int.{pos}
use df_local_foundation.Text.{is_space}
use df_local_foundation.Text.Number.{signed_numeral, show}
use df_local_foundation.Text.Digits.{IsDigit, show-digits, signed_numeral-show}
use df_local_foundation.Text.Words.{words, last, words-digits}
use df_local_foundation.Maintenance.{count_of, parse_delete_count}

last_word :
    (s : List ℕ) (n : ℕ)
    → All IsDigit s
    → signed_numeral s ≡ some (pos n)
    → count_of (last (words (codes "DELETE " ++ s))) ≡ pos n
unfolding words is_space signed_numeral
last_word [] n h e = cc
last_word (c ∷ s) n h e = rw (words-digits c s h, e)

-- The count is read back from the status string of a DELETE.
pub parse_delete_count-show : (n : ℕ) → parse_delete_count (codes "DELETE " ++ show n) ≡ pos n
unfolding parse_delete_count
parse_delete_count-show n = last_word (show n) n (show-digits n) (signed_numeral-show n)
