-- ===== src/RepoContext/Yaml/Holders.antt =====
-- How many keys of the parser's store hold a container, by its number.
use df_local_foundation.Prelude.{
  ℕ, suc, ◌+◌, ◌≤◌, ◌≡◌, refl, Bool, true, false, some, List, [], ◌∷◌, ◌++◌, length, eqb_codes,
  ◌==◌, if◌then◌else◌, Bool-cases, inl, inr, arith,
}
use df_local_foundation.RepoContext.Yaml.{
  Text, Cell, scalar, container, Container, mapping, sequence, Store, set_entry, nth, update,
}
use df_local_foundation.RepoContext.Yaml.Stores.{AreBelow, Descends}

abbrev holds : ℕ → Cell → ℕ
holds n (scalar s) = 0
holds n (container m) = if n == m then 1 else 0

abbrev held_by_entries : ℕ → List (Text × Cell) → ℕ
held_by_entries n [] = 0
held_by_entries n ((k, c) ∷ es) = holds n c + held_by_entries n es

abbrev pub held_by : ℕ → Container → ℕ
held_by n (mapping es) = held_by_entries n es
held_by n (sequence ss) = 0

-- The keys of all containers that hold container `n`.
abbrev pub holders : ℕ → Store → ℕ
holders n [] = 0
holders n (c ∷ cs) = held_by n c + holders n cs

-- No container is held by two keys.
abbrev pub IsUnshared : Store → Type 0
IsUnshared store = (n : ℕ) → holders n store ≤ 1

held_by-set_entry :
    (n : ℕ) (key : Text) (cell : Cell) (es : List (Text × Cell))
    → held_by_entries n (set_entry key cell es) ≤ held_by_entries n es + holds n cell
unfolding set_entry
held_by-set_entry n key cell [] = omega arith
held_by-set_entry n key cell ((k, c) ∷ es) = elim (Bool-cases (eqb_codes key k)) [
  | inl same ↦ rw same (omega arith)
  | inr other ↦ rw other (omega (arith, held_by-set_entry n key cell es))
]

-- A container that is put in another's place changes the count by what it holds.
holders-update :
    (n i : ℕ) (cs : Store) (old new : Container) (k : ℕ)
    → nth i cs ≡ some old
    → held_by n new ≤ held_by n old + k
    → holders n (update i new cs) ≤ holders n cs + k
holders-update n i [] old new k e h = cc
holders-update n ℕ.zero (c ∷ cs) old new k e h =
    let same : held_by n c ≡ held_by n old = cc e in omega arith
holders-update n (suc i) (c ∷ cs) old new k e h = omega (arith, holders-update n i cs old new k e h)

holders-append :
    (n : ℕ) (cs : Store) (c : Container) → holders n (cs ++ (c ∷ [])) ≡ holders n cs + held_by n c
holders-append n [] c = omega arith
holders-append n (d ∷ ds) c = omega (arith, holders-append n ds c)

entries_free :
    (size i : ℕ) (es : List (Text × Cell))
    → AreBelow size i (mapping es)
    → held_by_entries size es ≡ 0
entries_free size i [] h = refl
entries_free size i ((k, scalar s) ∷ es) (h, hs) = omega (arith, entries_free size i es hs)
entries_free size i ((k, container m) ∷ es) (h, hs) = ground (arith, entries_free size i es hs)

-- No key holds a number that the store does not have yet.
holders_free : (size i : ℕ) (cs : Store) → Descends size i cs → holders size cs ≡ 0
holders_free size i [] h = refl
holders_free size i (mapping es ∷ cs) (h, hs) =
    omega (arith, entries_free size i es h, holders_free size (suc i) cs hs)
holders_free size i (sequence ss ∷ cs) (h, hs) = omega (arith, holders_free size (suc i) cs hs)

-- A text of a key or an item of a list adds no holder.
pub IsUnshared-text :
    (i : ℕ) (store : Store) (key s : Text) (es : List (Text × Cell))
    → nth i store ≡ some (mapping es)
    → IsUnshared store
    → IsUnshared (update i (mapping (set_entry key (scalar s) es)) store)
IsUnshared-text i store key s es e h n = omega (
  arith,
  h n,
  holders-update n i store (mapping es) (mapping (set_entry key (scalar s) es)) 0 e
      (held_by-set_entry n key (scalar s) es),
)

pub IsUnshared-items :
    (i : ℕ) (store : Store) (old ss : List Text)
    → nth i store ≡ some (sequence old)
    → IsUnshared store
    → IsUnshared (update i (sequence ss) store)
IsUnshared-items i store old ss e h n =
    omega (arith, h n, holders-update n i store (sequence old) (sequence ss) 0 e (omega arith))

-- A new container, at the end of the store, has one holder.
pub IsUnshared-child :
    (i : ℕ) (store : Store) (key : Text) (es : List (Text × Cell)) (child : Container)
    → nth i store ≡ some (mapping es)
    → Descends (length store) 0 store
    → ((n : ℕ) → held_by n child ≡ 0)
    → IsUnshared store
    → IsUnshared
        (update i (mapping (set_entry key (container (length store)) es)) store ++ (child ∷ []))
IsUnshared-child i store key es child e below empty h n = by_number (n == length store) refl
  where
    put : Store
    put = update i (mapping (set_entry key (container (length store)) es)) store

    grown : holders n put ≤ holders n store + holds n (container (length store))
    grown =
        holders-update n i store (mapping es) _ (holds n (container (length store))) e
          (held_by-set_entry n key (container (length store)) es)

    by_number : (b : Bool) → (n == length store) ≡ b → holders n (put ++ (child ∷ [])) ≤ 1
    by_number true q =
        let new : n ≡ length store = ground arith in
        let free : holders n store ≡ 0 = rw new (holders_free (length store) 0 store below) in
        omega (arith, holders-append n put child, empty n, rw q at grown, free)
    by_number false q = omega (arith, holders-append n put child, empty n, rw q at grown, h n)
