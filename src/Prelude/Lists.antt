-- ===== src/Prelude/Lists.antt =====
-- Lists measured by native numbers, predicates on lists, and texts as lists of code points.
use Prim.Native.Nat.{ℕ, suc, ◌+◌}
use Prim.Native.Char.{code}
use Prim.Native.String.{String}
use mathlib.Core.Path.{◌≡◌, refl}
use mathlib.Core.Logic.{◌↔◌}
use mathlib.Core.Bool.{Bool, true, false, ◌&&◌, ◌||◌}
use mathlib.Core.List.{List, [], ◌∷◌, ◌++◌}
use native.Mathlib.Omega.{arith}
use df_local_foundation.Prelude.Tests.{◌==◌}

module _ {ℓ} {A : Type ℓ} where
  abbrev pub length : List A → ℕ
  length [] = 0
  length (x ∷ xs) = suc (length xs)

  pub length-append : (xs ys : List A) → length (xs ++ ys) ≡ length xs + length ys
  length-append [] ys = omega arith
  length-append (x ∷ xs) ys = omega (arith, length-append xs ys)

-- Every element has the property; it computes to a tuple.
abbrev pub All {ℓ κ} : {A : Type ℓ} → (A → Type κ) → List A → Type κ
All P [] = Unit
All P (x ∷ xs) = P x × All P xs

-- A text as its code points.
abbrev pub codes : String → List ℕ
codes String.[] = []
codes (String.◌∷◌ c s) = code c ∷ codes s

-- Equality of texts, point by point.
abbrev pub eqb_codes : List ℕ → List ℕ → Bool
eqb_codes [] [] = true
eqb_codes [] (d ∷ t) = false
eqb_codes (c ∷ s) [] = false
eqb_codes (c ∷ s) (d ∷ t) = c == d && eqb_codes s t

-- `c in s` for a code point.
abbrev pub contains : ℕ → List ℕ → Bool
contains c [] = false
contains c (d ∷ s) = c == d || contains c s

pub eqb_codes_iff : (s t : List ℕ) → (eqb_codes s t ≡ true) ↔ (s ≡ t)
eqb_codes_iff [] [] = (λ _. refl, λ _. refl)
eqb_codes_iff [] (d ∷ t) = (λ h. cc, λ h. cc)
eqb_codes_iff (c ∷ s) [] = (λ h. cc, λ h. cc)
eqb_codes_iff (c ∷ s) (d ∷ t) = ground (arith, eqb_codes_iff s t)
