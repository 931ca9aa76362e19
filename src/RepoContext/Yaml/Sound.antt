-- ===== src/RepoContext/Yaml/Sound.antt =====
-- The state between two lines of `parse_yaml_subset`: its stack and its store.
use df_local_foundation.Prelude.{
  ℕ, suc, ◌≤◌, ◌<◌, ◌≡◌, refl, Bool, true, false, some, List, [], ◌∷◌, ◌++◌, length, length-append,
  All, leb, Bool-cases, inl, inr, arith,
}
use df_local_foundation.RepoContext.Yaml.{
  Text, Cell, container, Container, mapping, Store, Level, set_entry, nth, update, unwind,
  open_child, empty_child,
}
use df_local_foundation.RepoContext.Yaml.Holders.{IsUnshared, held_by, IsUnshared-child}
use df_local_foundation.RepoContext.Yaml.Stores.{
  IsBelow, AreBelow, Descends, HasRoot, All-IsBelow-mono, Descends-mono, below_at, Descends-put,
  Descends-append, set_entry-All, length-update, HasRoot-mapping, HasRoot-append,
}

-- The root lies at the bottom of the stack.
abbrev pub IsRooted : List Level → Type 0
IsRooted [] = ⊥
IsRooted (l ∷ []) = l.level ≡ 0
IsRooted (l ∷ m ∷ ms) = IsRooted (m ∷ ms)

-- The store has the containers of the stack.
abbrev pub AreStored : ℕ → List Level → Type 0
AreStored size = All (λ (l : Level). l.number < size)

pub record IsSound (store : Store) (stack : List Level) : Type 0 where
  pub rooted : IsRooted stack
  pub stored : AreStored (length store) stack
  pub root : HasRoot store
  pub descends : Descends (length store) 0 store
  pub unshared : IsUnshared store

pub unwind-IsRooted : (indent : ℕ) (ls : List Level) → IsRooted ls → IsRooted (unwind indent ls)
unfolding unwind
unwind-IsRooted indent [] h = h
unwind-IsRooted indent (l ∷ []) h = elim (Bool-cases (leb (suc indent) l.level)) [
  | inl deep ↦ absurd (above deep)
  | inr shallow ↦ rw shallow h
]
  where
    above : leb (suc indent) l.level ≡ true → ⊥
    above deep = ground arith
unwind-IsRooted indent (l ∷ m ∷ ms) h = elim (Bool-cases (leb (suc indent) l.level)) [
  | inl deep ↦ rw deep (unwind-IsRooted indent (m ∷ ms) h)
  | inr shallow ↦ rw shallow h
]

pub unwind-AreStored :
    (size indent : ℕ) (ls : List Level) → AreStored size ls → AreStored size (unwind indent ls)
unfolding unwind
unwind-AreStored size indent [] h = tt
unwind-AreStored size indent (l ∷ ls) h = elim (Bool-cases (leb (suc indent) l.level)) [
  | inl deep ↦ rw deep (unwind-AreStored size indent ls h.1)
  | inr shallow ↦ rw shallow h
]

AreStored-mono : (m n : ℕ) (ls : List Level) → m ≤ n → AreStored m ls → AreStored n ls
AreStored-mono m n [] h k = tt
AreStored-mono m n (l ∷ ls) h (k, ks) = (omega arith, AreStored-mono m n ls h ks)

-- Another content of a container that is in the store.
pub update-IsSound :
    (parent : ℕ) (c : Container) (store : Store) (stack : List Level)
    → IsSound store stack
    → AreBelow (length store) parent c
    → HasRoot (update parent c store)
    → IsUnshared (update parent c store)
    → IsSound (update parent c store) stack
update-IsSound parent c store stack h below root unshared = record {
  rooted = h.rooted;
  stored = rw (length-update parent c store) h.stored;
  root = root;
  descends =
      rw (length-update parent c store)
        (Descends-put (length store) parent store c h.descends below);
  unshared = unshared;
}

pub entries-IsBelow :
    (parent : ℕ) (store : Store) (entries : List (Text × Cell))
    → Descends (length store) 0 store
    → nth parent store ≡ some (mapping entries)
    → All (λ (e : Text × Cell). IsBelow (length store) parent e.1) entries
entries-IsBelow parent store entries h e =
    below_at (length store) parent store (mapping entries) h e

pub open_child-IsSound :
    (child : Container) (key : Text) (indent parent : ℕ) (entries : List (Text × Cell))
    (store : Store) (stack : List Level)
    → IsSound store stack
    → parent < length store
    → nth parent store ≡ some (mapping entries)
    → ((size j : ℕ) → AreBelow size j child)
    → ((n : ℕ) → held_by n child ≡ 0)
    → let st = open_child child key indent parent entries store stack in IsSound st.store st.stack
open_child-IsSound child key indent parent entries store stack h inside e empty holds_none =
    record {
      rooted = rooted_under stack h.rooted;
      stored = (
        omega (arith, size),
        AreStored-mono (length store) (length (put ++ (child ∷ []))) stack (omega (arith, size))
            h.stored,
      );
      root = HasRoot-append put child (HasRoot-mapping parent store changed h.root);
      descends = rw size (
          Descends-append (suc (length store)) 0 put child
            (Descends-put (suc (length store)) parent store (mapping changed)
              (Descends-mono (length store) (suc (length store)) 0 store (omega arith) h.descends)
              (set_entry-All (suc (length store)) parent key (container (length store)) entries
                (inside, omega arith)
                (All-IsBelow-mono (length store) (suc (length store)) parent entries (omega arith)
                  (entries-IsBelow parent store entries h.descends e))))
            (empty (suc (length store))));
      unshared = IsUnshared-child parent store key entries child e h.descends holds_none h.unshared;
    }
  where
    changed : List (Text × Cell)
    changed = set_entry key (container (length store)) entries

    put : Store
    put = update parent (mapping changed) store

    size : length (put ++ (child ∷ [])) ≡ suc (length store)
    size =
        omega (arith, length-append put (child ∷ []), length-update parent (mapping changed) store)

    rooted_under :
        (ls : List Level)
        → IsRooted ls
        → IsRooted (record { level = suc indent; number = length store } ∷ ls)
    rooted_under [] k = elim k [ ]
    rooted_under (l ∷ ls) k = k

pub empty_child-AreBelow : (b : Bool) (size j : ℕ) → AreBelow size j (empty_child b)
empty_child-AreBelow true size j = tt
empty_child-AreBelow false size j = tt

pub empty_child-held_by : (b : Bool) (n : ℕ) → held_by n (empty_child b) ≡ 0
empty_child-held_by true n = refl
empty_child-held_by false n = refl
