-- ===== src/RepoContext/Yaml.antt =====
-- scripts/repo_context_tools.py: `parse_yaml_subset`. The containers that the parser fills are shared
-- between their parents and its stack, so they stand in a store, by number.
pub mod Stores
pub mod Holders
pub mod Sound
pub mod Safety
use df_local_foundation.Prelude.{
  ℕ, suc, ◌&&◌, ◌||◌, not, Bool, true, false, Option, none, some, List, [], ◌∷◌, ◌++◌, length,
  contains, eqb_codes, leb, ◌==◌, if◌then◌else◌,
}
use df_local_foundation.Runtime.{value_error, key_error, Outcome, ok, raised}
use df_local_foundation.Runtime.Pure.{◌>>=◌}
use df_local_foundation.Text.{strip, split}

abbrev pub Text : Type 0
Text = List ℕ

-- What a key of a mapping holds: a text, or a container by its number.
pub data Cell : Type 0 where
  scalar : Text → Cell
  container : ℕ → Cell

pub data Container : Type 0 where
  mapping : List (Text × Cell) → Container
  sequence : List Text → Container

abbrev pub Store : Type 0
Store = List Container

-- A line that is neither blank nor a comment: its indentation, and its text.
pub record Line : Type 0 where
  pub indent : ℕ
  pub content : Text

-- Whether a text begins with a character.
abbrev pub begins : ℕ → Text → Bool
begins q [] = false
begins q (c ∷ s) = c == q

-- `text.replace("\r\n", "\n")`: a carriage return goes if a line feed is next.
unfoldable pub replace_crlf : Text → Text
replace_crlf [] = []
replace_crlf (c ∷ s) =
    let rest = replace_crlf s in if c == 13 && begins 10 s then rest else c ∷ rest

-- `len(raw) - len(raw.lstrip(" "))`
unfoldable pub indent_of : Text → ℕ
indent_of [] = 0
indent_of (c ∷ s) = let rest = indent_of s in if c == 32 then suc rest else 0

abbrev is_comment : Text → Bool
is_comment [] = true
is_comment (c ∷ s) = c == b'#'

-- The loop over the source lines.
unfoldable pub lines_of : List Text → List Line
unfolding indent_of
lines_of [] = []
lines_of (raw ∷ raws) =
    let rest = lines_of raws in
    if is_comment (strip raw)
    then rest
    else record { indent = indent_of raw; content = strip raw } ∷ rest

-- `content[2:]` of a content that begins with "- ".
abbrev pub item_of : Text → Option Text
item_of (c ∷ d ∷ s) = if (c == b'-') && (d == 32) then some s else none
item_of _ = none

abbrev is_item : Text → Bool
is_item s = elim (item_of s) [ none ↦ false | some r ↦ true ]

-- Whether it ends with one.
abbrev pub ends : ℕ → Text → Bool
ends q [] = false
ends q (c ∷ []) = c == q
ends q (c ∷ d ∷ s) = ends q (d ∷ s)

abbrev without_last : Text → Text
without_last [] = []
without_last (c ∷ []) = []
without_last (c ∷ d ∷ s) = c ∷ without_last (d ∷ s)

-- `value[1:-1]`
abbrev pub inner : Text → Text
inner [] = []
inner (c ∷ s) = without_last s

unfoldable pub parse_scalar : Text → Text
parse_scalar raw =
    let value = strip raw in
    if (begins b'"' value && ends b'"' value) || (begins 39 value && ends 39 value)
    then inner value
    else value

-- `next_child_is_list`, of the lines behind the current one.
unfoldable pub next_child_is_list : List Line → ℕ → Bool
next_child_is_list [] indent = false
next_child_is_list (l ∷ ls) indent = if leb l.indent indent then false else is_item l.content

-- `mapping[key] = cell`: a key that is there keeps its place.
unfoldable pub set_entry : Text → Cell → List (Text × Cell) → List (Text × Cell)
set_entry key cell [] = (key, cell) ∷ []
set_entry key cell ((k, c) ∷ es) =
    let rest = set_entry key cell es in if eqb_codes key k then (k, cell) ∷ es else (k, c) ∷ rest

abbrev pub nth : ℕ → Store → Option Container
nth n [] = none
nth ℕ.zero (c ∷ cs) = some c
nth (suc n) (c ∷ cs) = nth n cs

abbrev pub update : ℕ → Container → Store → Store
update n c [] = []
update ℕ.zero c (d ∷ ds) = c ∷ ds
update (suc n) c (d ∷ ds) = d ∷ update n c ds

-- A level of the stack is one more than its indentation, so that the root, at -1, has level 0.
pub record Level : Type 0 where
  pub level : ℕ
  pub number : ℕ

pub record State : Type 0 where
  pub store : Store
  pub stack : List Level

-- `while indent <= stack[-1][0]: stack.pop()`
unfoldable pub unwind : ℕ → List Level → List Level
unwind indent [] = []
unwind indent (l ∷ ls) =
    let rest = unwind indent ls in if leb (suc indent) l.level then rest else l ∷ ls

-- `key, raw_value = content.split(":", 1)`: what stands before the first colon, and what behind it.
abbrev on_colon : ℕ → Option (Text × Text) → Option (Text × Text)
on_colon c none = none
on_colon c (some (k, v)) = some (c ∷ k, v)

unfoldable pub split_colon : Text → Option (Text × Text)
split_colon [] = none
split_colon (c ∷ s) =
    let rest = split_colon s in if c == b':' then some ([], s) else on_colon c rest

abbrev is_empty : Text → Bool
is_empty [] = true
is_empty (c ∷ s) = false

-- A key whose value is on the lines below: a new container, which the stack holds too.
abbrev pub open_child : Container → Text → ℕ → ℕ → List (Text × Cell) → Store → List Level → State
open_child child key indent parent entries store stack =
    let number = length store in
    record {
      store =
          update parent (mapping (set_entry key (container number) entries)) store ++ (child ∷ []);
      stack = record { level = suc indent; number = number } ∷ stack;
    }

abbrev pub empty_child : Bool → Container
empty_child true = sequence []
empty_child false = mapping []

-- A line with a key, in the mapping `entries`, which is container `parent`.
abbrev pub add_pair :
    ℕ
    → List Line
    → ℕ
    → List (Text × Cell)
    → Store
    → List Level
    → Option (Text × Text)
    → Outcome State
add_pair indent rest parent entries store stack none = raised value_error
add_pair indent rest parent entries store stack (some (raw_key, raw_value)) =
    let key = strip raw_key in
    let value = strip raw_value in
    if is_empty key
    then raised value_error
    else if is_empty value
    then ok (
        open_child (empty_child (next_child_is_list rest indent)) key indent parent entries store
          stack)
    else ok (record {
      store = update parent (mapping (set_entry key (scalar (parse_scalar value)) entries)) store;
      stack = stack;
    })

-- A line, where the container on the top of the stack is known.
abbrev pub add_line :
    Line → List Line → ℕ → Store → List Level → Option Text → Option Container → Outcome State
add_line l rest parent store stack item none = raised key_error
add_line l rest parent store stack (some item) (some (sequence items)) = ok (record {
  store = update parent (sequence (items ++ (parse_scalar item ∷ []))) store;
  stack = stack;
})
add_line l rest parent store stack (some item) (some (mapping entries)) = raised value_error
add_line l rest parent store stack none (some (sequence items)) = raised value_error
add_line l rest parent store stack none (some (mapping entries)) =
    add_pair l.indent rest parent entries store stack (split_colon l.content)

-- `parent = stack[-1][1]`, of a stack without levels above the line.
abbrev pub on_top : Line → List Line → Store → List Level → Outcome State
on_top l rest store [] = raised key_error
on_top l rest store (t ∷ ts) =
    add_line l rest t.number store (t ∷ ts) (item_of l.content) (nth t.number store)

-- The loop over the lines.
unfoldable pub parse_lines : List Line → State → Outcome State
parse_lines [] st = ok st
parse_lines (l ∷ ls) st =
    on_top l ls st.store (unwind l.indent st.stack) >>= λ next. parse_lines ls next

abbrev pub root_state : State
root_state = record { store = mapping [] ∷ []; stack = record { level = 0; number = 0 } ∷ [] }

abbrev store_of : Outcome State → Outcome Store
store_of r = r >>= λ st. ok st.store

-- `parse_yaml_subset`: the containers; the root is the first.
unfoldable pub parse_yaml_subset : Text → Outcome Store
parse_yaml_subset text = store_of (parse_lines (lines_of (split 10 (replace_crlf text))) root_state)
