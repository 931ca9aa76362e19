-- ===== src/Storage/Paths.antt =====
-- The paths of a file and of its sidecar, over the `pathlib` of core/backup/manager.py.
use df_local_foundation.Prelude.{
  ℕ, zero, suc, ◌+◌, ◌-◌, ◌<◌, ◌≡◌, refl, sym, ap, ◌∙◌, ◌≢◌, ◌↔◌, true, false, ◌&&◌, Option, none,
  some, List, [], ◌∷◌, ◌++◌, arith, inl, inr, codes, length, length-append, ltb, eq_iff,
  eqb_codes_iff, Bool-cases, Option-cases,
}
use df_local_foundation.Storage.{FilePath, path_eq, rfind, take, stem, sidecar}

pub path_eq_iff : (p q : FilePath) → (path_eq p q ≡ true) ↔ (p ≡ q)
path_eq_iff p q = ground (arith, eq_iff p.parent q.parent, eqb_codes_iff p.name q.name)

pub path_eq_refl : (p : FilePath) → path_eq p p ≡ true
path_eq_refl p = (path_eq_iff p p).1 refl

pub path_eq-false : (p q : FilePath) → p ≢ q → path_eq p q ≡ false
path_eq-false p q h = ground (arith, path_eq_iff p q)

rfind-append : (p s : List ℕ) (k : ℕ) → rfind s ≡ some k → rfind (p ++ s) ≡ some (length p + k)
unfolding rfind
rfind-append [] s k h = h ∙ ap some (omega arith)
rfind-append (c ∷ p) s k h = rw (rfind-append p s k h) (ap some (omega arith))

length-take : (n : ℕ) (s : List ℕ) → n < length s → length (take n s) ≡ n
length-take zero s h = refl
length-take (suc n) [] h = absurd (omega arith)
length-take (suc n) (c ∷ s) h = omega (arith, length-take n s)

suffix_dot : rfind (codes ".envelope.json") ≡ some 9
unfolding rfind
suffix_dot = refl

stem_kept : (name : List ℕ) → name ++ codes ".envelope.json" ≢ name
stem_kept name e = omega (arith, ap length e, length-append name (codes ".envelope.json"))

-- Behind a part that is cut off at a dot, the suffix has a later dot.
stem_cut :
    (name : List ℕ) (i : ℕ)
    → rfind name ≡ some i
    → i < length name
    → take i name ++ codes ".envelope.json" ≢ name
stem_cut name i r short e = omega (
  arith,
  length-take i name short,
  ap (λ (o : Option ℕ). position o)
      (sym r
        ∙ (sym (ap rfind e) ∙ rfind-append (take i name) (codes ".envelope.json") 9 suffix_dot)),
)
  where
    position : Option ℕ → ℕ
    position none = 0
    position (some k) = k

-- The sidecar's name is never that of the file itself.
stem-ne : (name : List ℕ) → stem name ++ codes ".envelope.json" ≢ name
unfolding stem
stem-ne name = elim (Option-cases (rfind name)) [
  | inl r ↦ rw (r, stem) (stem_kept name)
  | inr (i, r) ↦ elim (Bool-cases (ltb 0 i && ltb i (length name - 1))) [
    | inr h ↦ rw (r, stem, h) (stem_kept name)
    | inl h ↦ rw (r, stem, h) (stem_cut name i r (ground arith))
  ]
]

pub sidecar-ne : (p : FilePath) → p ≢ sidecar p
unfolding sidecar
sidecar-ne p e = stem-ne p.name (sym (ap (λ (q : FilePath). q.name) e))
