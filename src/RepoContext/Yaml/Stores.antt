-- ===== src/RepoContext/Yaml/Stores.antt =====
-- The order of the containers in the parser's store.
use mathlib.Core.Path.{subst}
use df_local_foundation.Prelude.{
  ℕ, suc, ◌+◌, ◌≤◌, ◌<◌, ◌≡◌, refl, ap, some, List, [], ◌∷◌, ◌++◌, length, All, eqb_codes,
  Bool-cases, inl, inr, arith,
}
use df_local_foundation.RepoContext.Yaml.{
  Text, Cell, scalar, container, Container, mapping, sequence, Store, set_entry, nth, update,
}

-- A cell of container `i` holds a text, or a container of a greater number that the store has.
abbrev pub IsBelow : ℕ → ℕ → Cell → Type 0
IsBelow size i (scalar s) = Unit
IsBelow size i (container n) = (i < n) × (n < size)

abbrev pub AreBelow : ℕ → ℕ → Container → Type 0
AreBelow size i (mapping es) = All (λ (e : Text × Cell). IsBelow size i e.1) es
AreBelow size i (sequence ss) = Unit

-- So do all cells of the containers from number `i` on.
abbrev pub Descends : ℕ → ℕ → Store → Type 0
Descends size i [] = Unit
Descends size i (c ∷ cs) = AreBelow size i c × Descends size (suc i) cs

abbrev pub HasRoot : Store → Type 0
HasRoot store = (es : List (Text × Cell)) × (nth 0 store ≡ some (mapping es))

IsBelow-mono : (m n i : ℕ) (c : Cell) → m ≤ n → IsBelow m i c → IsBelow n i c
IsBelow-mono m n i (scalar s) h k = tt
IsBelow-mono m n i (container j) h k = (k.0, omega arith)

pub All-IsBelow-mono :
    (m n i : ℕ) (es : List (Text × Cell))
    → m ≤ n
    → All (λ (e : Text × Cell). IsBelow m i e.1) es
    → All (λ (e : Text × Cell). IsBelow n i e.1) es
All-IsBelow-mono m n i [] h k = tt
All-IsBelow-mono m n i ((t, c) ∷ es) h (k, ks) =
    (IsBelow-mono m n i c h k, All-IsBelow-mono m n i es h ks)

AreBelow-mono : (m n i : ℕ) (c : Container) → m ≤ n → AreBelow m i c → AreBelow n i c
AreBelow-mono m n i (mapping es) h k = All-IsBelow-mono m n i es h k
AreBelow-mono m n i (sequence ss) h k = tt

pub Descends-mono : (m n i : ℕ) (cs : Store) → m ≤ n → Descends m i cs → Descends n i cs
Descends-mono m n i [] h k = tt
Descends-mono m n i (c ∷ cs) h (k, ks) =
    (AreBelow-mono m n i c h k, Descends-mono m n (suc i) cs h ks)

Descends-nth :
    (size i n : ℕ) (cs : Store) (c : Container)
    → Descends size i cs
    → nth n cs ≡ some c
    → AreBelow size (i + n) c
Descends-nth size i n [] c h e = cc
Descends-nth size i ℕ.zero (d ∷ ds) c h e =
    let same : d ≡ c = cc e in
    let here : i + 0 ≡ i = omega arith in rw here (subst (AreBelow size i) same h.0)
Descends-nth size i (suc n) (d ∷ ds) c h e =
    let there : i + suc n ≡ suc i + n = omega arith in
    rw there (Descends-nth size (suc i) n ds c h.1 e)

Descends-update :
    (size i n : ℕ) (cs : Store) (c : Container)
    → Descends size i cs
    → AreBelow size (i + n) c
    → Descends size i (update n c cs)
Descends-update size i n [] c h k = tt
Descends-update size i ℕ.zero (d ∷ ds) c h k =
    let here : i + 0 ≡ i = omega arith in (subst (λ j. AreBelow size j c) here k, h.1)
Descends-update size i (suc n) (d ∷ ds) c h k =
    let there : i + suc n ≡ suc i + n = omega arith in
    (h.0, Descends-update size (suc i) n ds c h.1 (subst (λ j. AreBelow size j c) there k))

pub Descends-append :
    (size i : ℕ) (cs : Store) (c : Container)
    → Descends size i cs
    → ((j : ℕ) → AreBelow size j c)
    → Descends size i (cs ++ (c ∷ []))
Descends-append size i [] c h k = (k i, tt)
Descends-append size i (d ∷ ds) c h k = (h.0, Descends-append size (suc i) ds c h.1 k)

pub set_entry-All :
    (size i : ℕ) (key : Text) (cell : Cell) (es : List (Text × Cell))
    → IsBelow size i cell
    → All (λ (e : Text × Cell). IsBelow size i e.1) es
    → All (λ (e : Text × Cell). IsBelow size i e.1) (set_entry key cell es)
unfolding set_entry
set_entry-All size i key cell [] h k = (h, tt)
set_entry-All size i key cell ((t, c) ∷ es) h (k, ks) = elim (Bool-cases (eqb_codes key t)) [
  | inl same ↦ rw same (h, ks)
  | inr other ↦ rw other (k, set_entry-All size i key cell es h ks)
]

pub length-update : (n : ℕ) (c : Container) (cs : Store) → length (update n c cs) ≡ length cs
length-update n c [] = refl
length-update ℕ.zero c (d ∷ ds) = refl
length-update (suc n) c (d ∷ ds) = ap suc (length-update n c ds)

pub nth-below : (n : ℕ) (cs : Store) → n < length cs → (c : Container) × (nth n cs ≡ some c)
nth-below n [] h = absurd (omega arith)
nth-below ℕ.zero (c ∷ cs) h = (c, refl)
nth-below (suc n) (c ∷ cs) h = nth-below n cs (omega arith)

pub HasRoot-mapping :
    (n : ℕ) (cs : Store) (es : List (Text × Cell)) → HasRoot cs → HasRoot (update n (mapping es) cs)
HasRoot-mapping n [] es h = h
HasRoot-mapping ℕ.zero (c ∷ cs) es h = (es, refl)
HasRoot-mapping (suc n) (c ∷ cs) es h = h

-- The root is no sequence.
pub HasRoot-sequence :
    (n : ℕ) (cs : Store) (old ss : List Text)
    → nth n cs ≡ some (sequence old)
    → HasRoot cs
    → HasRoot (update n (sequence ss) cs)
HasRoot-sequence n [] old ss e h = h
HasRoot-sequence ℕ.zero (c ∷ cs) old ss e (es, h) = cc
HasRoot-sequence (suc n) (c ∷ cs) old ss e h = h

pub HasRoot-append : (cs : Store) (c : Container) → HasRoot cs → HasRoot (cs ++ (c ∷ []))
HasRoot-append [] c (es, h) = cc
HasRoot-append (d ∷ ds) c h = h

-- The same of a whole store.
pub below_at :
    (size n : ℕ) (cs : Store) (c : Container)
    → Descends size 0 cs
    → nth n cs ≡ some c
    → AreBelow size n c
below_at size n cs c h e =
    let start : 0 + n ≡ n = omega arith in
    subst (λ j. AreBelow size j c) start (Descends-nth size 0 n cs c h e)

pub Descends-put :
    (size n : ℕ) (cs : Store) (c : Container)
    → Descends size 0 cs
    → AreBelow size n c
    → Descends size 0 (update n c cs)
Descends-put size n cs c h k =
    let start : n ≡ 0 + n = omega arith in
    Descends-update size 0 n cs c h (subst (λ j. AreBelow size j c) start k)
