-- ===== src/RepoContext/Yaml/Safety.antt =====
-- What `parse_yaml_subset` of scripts/repo_context_tools.py makes of a text.
use df_local_foundation.Prelude.{
  ℕ, ◌<◌, ◌≡◌, refl, Bool, true, false, Option, none, some, List, [], ◌∷◌, ◌++◌, length, arith,
}
use df_local_foundation.Runtime.{value_error, Outcome, ok, raised, diverged}
use df_local_foundation.Runtime.Pure.{◌>>=◌}
use df_local_foundation.Text.{strip, split}
use df_local_foundation.RepoContext.Yaml.{
  Text, Cell, scalar, Container, mapping, sequence, Store, Line, State, Level, replace_crlf,
  lines_of, item_of, parse_scalar, next_child_is_list, set_entry, nth, unwind, split_colon,
  is_empty, empty_child, add_pair, add_line, on_top, parse_lines, root_state, store_of,
  parse_yaml_subset,
}
use df_local_foundation.RepoContext.Yaml.Holders.{IsUnshared, IsUnshared-text, IsUnshared-items}
use df_local_foundation.RepoContext.Yaml.Stores.{
  Descends, HasRoot, set_entry-All, nth-below, HasRoot-mapping, HasRoot-sequence,
}
use df_local_foundation.RepoContext.Yaml.Sound.{
  IsSound, unwind-IsRooted, unwind-AreStored, entries-IsBelow, update-IsSound, open_child-IsSound,
  empty_child-AreBelow, empty_child-held_by,
}

-- A step of the parser ends in a sound state, or raises `ValueError`.
abbrev IsStep : Outcome State → Type 0
IsStep (ok st) = IsSound st.store st.stack
IsStep (raised e) = e ≡ value_error
IsStep diverged = ⊥

add_pair-IsStep :
    (indent : ℕ) (rest : List Line) (parent : ℕ) (entries : List (Text × Cell)) (store : Store)
    (stack : List Level) (parts : Option (Text × Text))
    → IsSound store stack
    → parent < length store
    → nth parent store ≡ some (mapping entries)
    → IsStep (add_pair indent rest parent entries store stack parts)
add_pair-IsStep indent rest parent entries store stack none h inside e = refl
add_pair-IsStep indent rest parent entries store stack (some (raw_key, raw_value)) h inside e =
    by_tests (is_empty (strip raw_key)) (is_empty (strip raw_value)) refl refl
  where
    by_tests :
        (a b : Bool)
        → is_empty (strip raw_key) ≡ a
        → is_empty (strip raw_value) ≡ b
        → IsStep (add_pair indent rest parent entries store stack (some (raw_key, raw_value)))
    by_tests true b f g = rw f refl
    by_tests false true f g =
        rw (f, g)
          (open_child-IsSound (empty_child (next_child_is_list rest indent)) (strip raw_key) indent
            parent entries store stack h inside e
            (empty_child-AreBelow (next_child_is_list rest indent))
            (empty_child-held_by (next_child_is_list rest indent)))
    by_tests false false f g =
        rw (f, g)
          (update-IsSound parent
            (mapping (set_entry (strip raw_key) (scalar (parse_scalar (strip raw_value))) entries))
            store stack h
            (set_entry-All (length store) parent (strip raw_key)
              (scalar (parse_scalar (strip raw_value))) entries tt
              (entries-IsBelow parent store entries h.descends e))
            (HasRoot-mapping parent store
              (set_entry (strip raw_key) (scalar (parse_scalar (strip raw_value))) entries) h.root)
            (IsUnshared-text parent store (strip raw_key) (parse_scalar (strip raw_value)) entries e
              h.unshared))

add_line-IsStep :
    (l : Line) (rest : List Line) (parent : ℕ) (store : Store) (stack : List Level)
    (item : Option Text) (c : Container)
    → IsSound store stack
    → parent < length store
    → nth parent store ≡ some c
    → IsStep (add_line l rest parent store stack item (some c))
add_line-IsStep l rest parent store stack (some item) (sequence items) h inside e =
    update-IsSound parent (sequence (items ++ (parse_scalar item ∷ []))) store stack h tt
      (HasRoot-sequence parent store items (items ++ (parse_scalar item ∷ [])) e h.root)
      (IsUnshared-items parent store items (items ++ (parse_scalar item ∷ [])) e h.unshared)
add_line-IsStep l rest parent store stack (some item) (mapping entries) h inside e = refl
add_line-IsStep l rest parent store stack none (sequence items) h inside e = refl
add_line-IsStep l rest parent store stack none (mapping entries) h inside e =
    add_pair-IsStep l.indent rest parent entries store stack (split_colon l.content) h inside e

on_top-IsStep :
    (l : Line) (rest : List Line) (store : Store) (stack : List Level)
    → IsSound store stack
    → IsStep (on_top l rest store stack)
on_top-IsStep l rest store [] h = absurd h.rooted
on_top-IsStep l rest store (t ∷ ts) h =
    let (c, e) = nth-below t.number store h.stored.0 in
    rw e (add_line-IsStep l rest t.number store (t ∷ ts) (item_of l.content) c h h.stored.0 e)

parse_lines-IsStep :
    (ls : List Line) (st : State) → IsSound st.store st.stack → IsStep (parse_lines ls st)
unfolding parse_lines
parse_lines-IsStep [] st h = h
parse_lines-IsStep (l ∷ ls) st h =
    by_step (on_top l ls st.store (unwind l.indent st.stack))
      (λ next k. parse_lines-IsStep ls next k)
      (on_top-IsStep l ls st.store (unwind l.indent st.stack) (record {
        rooted = unwind-IsRooted l.indent st.stack h.rooted;
        stored = unwind-AreStored (length st.store) l.indent st.stack h.stored;
        root = h.root;
        descends = h.descends;
        unshared = h.unshared;
      }))
  where
    by_step :
        (o : Outcome State)
        → ((next : State) → IsSound next.store next.stack → IsStep (parse_lines ls next))
        → IsStep o
        → IsStep (o >>= λ next. parse_lines ls next)
    by_step (ok next) more k = more next k
    by_step (raised x) more k = k
    by_step diverged more k = k

-- Containers that form a forest, whose first tree has a mapping for its root: what a container holds
-- are texts and containers of greater numbers, all of them there, and at most one key of all
-- containers holds a container. One whose key was set again is held by none.
abbrev IsForest : Store → Type 0
IsForest store = HasRoot store × Descends (length store) 0 store × IsUnshared store

abbrev pub IsParsed : Outcome Store → Type 0
IsParsed (ok store) = IsForest store
IsParsed (raised e) = e ≡ value_error
IsParsed diverged = ⊥

-- Whatever the text, the parser of manifests either raises `ValueError`, or returns containers of which
-- the first is a mapping: each holds texts and containers of greater numbers that are there, so that
-- none holds itself, and no container is held by two keys. It raises nothing else.
pub parse_yaml_subset-IsParsed : (text : Text) → IsParsed (parse_yaml_subset text)
unfolding parse_yaml_subset
parse_yaml_subset-IsParsed text =
    by_lines (parse_lines (lines_of (split 10 (replace_crlf text))) root_state) (
      parse_lines-IsStep (lines_of (split 10 (replace_crlf text))) root_state (record {
        rooted = refl;
        stored = (omega arith, tt);
        root = ([], refl);
        descends = (tt, tt);
        unshared = λ n. omega arith;
      }))
  where
    by_lines : (o : Outcome State) → IsStep o → IsParsed (store_of o)
    by_lines (ok st) h = (h.root, h.descends, h.unshared)
    by_lines (raised e) h = h
    by_lines diverged h = h
