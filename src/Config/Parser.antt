-- ===== src/Config/Parser.antt =====
-- lib/inc/config/runTime/TomlParser.hpp.
use highp_mmorpg.Prelude.{
  ℕ, ◌+◌, ◌-◌, ◌==◌, ltb, if◌then◌else◌, Bool, false, not, ◌||◌, Option, none, some, List, [], ◌∷◌,
  length, take, drop,
}
use highp_mmorpg.Config.Text.{Text, codes, text_eq, is_empty, starts, ends, is_digit, trim, find}
use highp_mmorpg.Config.Entry.{TomlEntry, TomlValueType, string, integer, boolean, add}

unfoldable pub parse_section : Text → Text
unfolding trim find
parse_section line =
    if ltb (length line) 3 || not (starts b'[' line)
    then []
    else elim (find line b']') [ none ↦ [] | some close ↦ trim (take (close - 1) (drop 1 line)) ]

-- A `#` begins a comment.
unfoldable pub strip_comment : Text → Text
unfolding trim find
strip_comment value = elim (find value b'#') [ none ↦ value | some at ↦ trim (take at value) ]

unfoldable pub starts_number : Text → Bool
unfolding is_digit
starts_number [] = false
starts_number (c ∷ s) = is_digit c || (c == b'-' || c == b'+')

unfoldable pub value_type : Text → TomlValueType
unfolding starts_number text_eq
value_type value =
    if text_eq value (codes "true") || text_eq value (codes "false")
    then boolean
    else if starts_number value
    then integer
    else string

unfoldable pub parse_key_value : Text → Text → Option TomlEntry
unfolding trim find strip_comment value_type
parse_key_value line current_section = elim (find line b'=') [
  | none ↦ none
  | some eq ↦
      let value = strip_comment (trim (drop (eq + 1) line)) in
      some (record {
        section = current_section;
        key = trim (take eq line);
        value = value;
        io_type = value_type value;
      })
]

-- `currentSection` and the entries of `res`.
pub record Progress : Type 0 where
  pub current_section : Text
  pub entries : List TomlEntry

-- One byte more in front of the first of the lines.
unfoldable pub widen_first : ℕ → List Text → List Text
widen_first c [] = (c ∷ []) ∷ []
widen_first c (l ∷ ls) = (c ∷ l) ∷ ls

-- The bytes from `lineStart` to `lineEnd` of each round; the last line need not end with a newline.
unfoldable pub split_lines : Text → List Text
unfolding widen_first
split_lines [] = []
split_lines (c ∷ s) = if c == b'\n' then [] ∷ split_lines s else widen_first c (split_lines s)

-- A carriage return at the end of a line is no part of it.
unfoldable pub drop_return : Text → Text
drop_return line = if ends b'\r' line then take (length line - 1) line else line

-- The body of the loop, behind the trim.
unfoldable pub read_trimmed : Text → Progress → Progress
read_trimmed line p =
    if is_empty line || starts b'#' line
    then p
    else if starts b'[' line
    then record p { current_section = parse_section line }
    else elim (parse_key_value line p.current_section) [
      | none ↦ p
      | some e ↦ record p { entries = add p.entries e }
    ]

unfoldable pub read_line : Text → Progress → Progress
read_line raw p = read_trimmed (trim (drop_return raw)) p

unfoldable pub read_lines : List Text → Progress → Progress
read_lines [] p = p
read_lines (l ∷ ls) p = read_lines ls (read_line l p)

unfoldable pub parse : Text → List TomlEntry
parse content =
    (read_lines (split_lines content) (record { current_section = []; entries = [] })).entries
