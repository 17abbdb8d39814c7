-- ===== src/Config/Constexpr.antt =====
-- lib/inc/config/compileTime: the parser that runs in the compiler, with loops in place of the
-- library's calls and a fixed array for the entries. The functions of its StringUtils.hpp that repeat
-- the run-time ones word by word (the tests on a byte, the trims, ParseInt, ParseLong, Unquote) are
-- those of Config/Text.antt and Config/Number.antt.
use highp_mmorpg.Prelude.{
  ℕ, zero, suc, ◌+◌, ◌-◌, ◌==◌, ltb, if◌then◌else◌, Bool, true, false, not, ◌&&◌, ◌||◌, Option,
  none, some, List, [], ◌∷◌, length, take, drop, get_or, set, replicate,
}
use highp_mmorpg.Config.Text.{Text, codes, is_empty, starts, trim, unquote}
use highp_mmorpg.Config.Number.{ℤ, Parsed, absent, parse_int, parse_long}
use highp_mmorpg.Config.Entry.{TomlEntry, TomlValueType, string, integer, boolean}
use highp_mmorpg.Config.Parser.{starts_number, split_lines, drop_return}
use highp_mmorpg.Config.Access.{number_or, flag_or}

-- The loop of Equals, StartsWith and Matches: `n` places from `i` on.
unfoldable pub same_from : ℕ → ℕ → Text → Text → Bool
same_from zero i a b = true
same_from (suc n) i a b = if get_or a i 0 == get_or b i 0 then same_from n (i + 1) a b else false

unfoldable pub equals : Text → Text → Bool
unfolding same_from
equals a b = if length a == length b then same_from (length a) 0 a b else false

unfoldable pub starts_with : Text → Text → Bool
unfolding same_from
starts_with s front =
    if ltb (length s) (length front) then false else same_from (length front) 0 s front

-- The loop of Find and of MatchesFullKey: `n` places from `i` on.
unfoldable pub find_from : ℕ → ℕ → Text → ℕ → Option ℕ
find_from zero i s c = none
find_from (suc n) i s c =
    let rest = find_from n (i + 1) s c in if get_or s i 0 == c then some i else rest

unfoldable pub find : Text → ℕ → Option ℕ
unfolding find_from
find s c = find_from (length s) 0 s c

unfoldable pub parse_bool : Text → Option Bool
unfolding trim equals
parse_bool s =
    let t = trim s in
    if equals t (codes "true")
    then some true
    else if equals t (codes "false")
    then some false
    else none

unfoldable pub is_match : TomlEntry → Text → Text → Bool
unfolding same_from
is_match e sec k =
    if not (length e.section == length sec) || not (length e.key == length k)
    then false
    else if same_from (length e.section) 0 e.section sec
    then same_from (length e.key) 0 e.key k
    else false

unfoldable pub is_full_key_match : TomlEntry → Text → Bool
unfolding is_match find
is_full_key_match e full_key = elim (find full_key b'.') [
  | none ↦ is_empty e.section && is_match e [] full_key
  | some dot ↦ is_match e (take dot full_key) (drop (dot + 1) full_key)
]

-- The array, and the number of its places that are in use.
pub record Table : Type 0 where
  pub entries : List TomlEntry
  pub count : ℕ

abbrev pub no_entry : TomlEntry
no_entry = record { section = []; key = []; value = []; io_type = string }

abbrev pub empty_table : ℕ → Table
empty_table max_entries = record { entries = replicate max_entries no_entry; count = 0 }

-- An entry that finds the array full is dropped.
unfoldable pub add : ℕ → Table → TomlEntry → Table × Bool
add max_entries t e =
    if ltb t.count max_entries
    then (record { entries = set t.entries t.count e; count = t.count + 1 }, true)
    else (t, false)

-- The loop of the four lookups, over `n` places of the array.
unfoldable pub find_value : ℕ → List TomlEntry → Text → Option Text
find_value zero es full_key = none
find_value (suc n) [] full_key = none
find_value (suc n) (e ∷ es) full_key =
    if is_full_key_match e full_key then some e.value else find_value n es full_key

unfoldable pub find_string : Table → Text → Option Text
find_string t full_key = elim (find_value t.count t.entries full_key) [
  | none ↦ none
  | some v ↦ some (unquote v)
]

unfoldable pub find_int : Table → Text → Parsed
find_int t full_key = elim (find_value t.count t.entries full_key) [
  | none ↦ absent
  | some v ↦ parse_int v
]

unfoldable pub find_long : Table → Text → Parsed
find_long t full_key = elim (find_value t.count t.entries full_key) [
  | none ↦ absent
  | some v ↦ parse_long v
]

unfoldable pub find_bool : Table → Text → Option Bool
find_bool t full_key = elim (find_value t.count t.entries full_key) [
  | none ↦ none
  | some v ↦ parse_bool v
]

unfoldable pub parse_section : Text → Text
unfolding trim find
parse_section line =
    if ltb (length line) 3
    then []
    else if not (starts b'[' line)
    then []
    else elim (find line b']') [ none ↦ [] | some close ↦ trim (take (close - 1) (drop 1 line)) ]

unfoldable pub strip_comment : Text → Text
unfolding trim find
strip_comment value = elim (find value b'#') [ none ↦ value | some at ↦ trim (take at value) ]

unfoldable pub value_type : Text → TomlValueType
unfolding starts_number equals
value_type value =
    if equals value (codes "true") || equals value (codes "false")
    then boolean
    else if starts_number value
    then integer
    else string

unfoldable pub parse_key_value : Text → Text → Option TomlEntry
unfolding trim find strip_comment value_type
parse_key_value line current_section = elim (find line b'=') [
  | none ↦ none
  | some eq ↦
      let value = strip_comment (trim (drop (eq + 1) line)) in
      some (record {
        section = current_section;
        key = trim (take eq line);
        value = value;
        io_type = value_type value;
      })
]

pub record Progress : Type 0 where
  pub current_section : Text
  pub table : Table

unfoldable pub read_trimmed : ℕ → Text → Progress → Progress
read_trimmed max_entries line p =
    if is_empty line || starts b'#' line
    then p
    else if starts b'[' line
    then record p { current_section = parse_section line }
    else elim (parse_key_value line p.current_section) [
      | none ↦ p
      | some e ↦ record p { table = (add max_entries p.table e).0 }
    ]

unfoldable pub read_line : ℕ → Text → Progress → Progress
read_line max_entries raw p = read_trimmed max_entries (trim (drop_return raw)) p

unfoldable pub read_lines : ℕ → List Text → Progress → Progress
read_lines max_entries [] p = p
read_lines max_entries (l ∷ ls) p = read_lines max_entries ls (read_line max_entries l p)

unfoldable pub parse : ℕ → Text → Table
parse max_entries content =
    (read_lines max_entries (split_lines content)
      (record { current_section = []; table = empty_table max_entries })).table

-- CompileTimeConfig: the accessors, which know no environment.
module _ (t : Table) where
  unfoldable pub str : Text → Text → Text
  str key default = elim (find_string t key) [ none ↦ default | some v ↦ v ]

  unfoldable pub int : Text → ℤ → Parsed
  unfolding number_or
  int key default = number_or (find_int t key) default

  unfoldable pub long : Text → ℤ → Parsed
  unfolding number_or
  long key default = number_or (find_long t key) default

  unfoldable pub bool : Text → Bool → Bool
  unfolding flag_or
  bool key default = flag_or (find_bool t key) default
