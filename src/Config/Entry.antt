-- ===== src/Config/Entry.antt =====
-- lib/inc/config/runTime/TomlEntry.hpp, and TomlParseResult of lib/inc/config/runTime/TomlParser.hpp.
use highp_mmorpg.Prelude.{
  ℕ, ◌+◌, if◌then◌else◌, Bool, ◌&&◌, Option, none, some, List, [], ◌∷◌, ◌++◌, length, take, drop,
}
use highp_mmorpg.Config.Text.{Text, text_eq, is_empty, find, unquote}
use highp_mmorpg.Config.Number.{Parsed, absent, parse_int, parse_long, parse_bool}

pub data TomlValueType : Type 0 where
  string : TomlValueType
  integer : TomlValueType
  boolean : TomlValueType

pub record TomlEntry : Type 0 where
  pub section : Text
  pub key : Text
  pub value : Text
  pub io_type : TomlValueType

unfoldable pub is_match : TomlEntry → Text → Text → Bool
is_match e sec k = text_eq e.section sec && text_eq e.key k

unfoldable pub is_full_key_match : TomlEntry → Text → Bool
unfolding is_match
is_full_key_match e full_key = elim (find full_key b'.') [
  | none ↦ is_empty e.section && text_eq e.key full_key
  | some dot ↦ is_match e (take dot full_key) (drop (dot + 1) full_key)
]

-- `entries` of the result, in the order in which they were added.
unfoldable pub add : List TomlEntry → TomlEntry → List TomlEntry
add entries e = entries ++ e ∷ []

-- The loop of the four lookups: the value of the first entry that matches.
unfoldable pub find_value : List TomlEntry → Text → Option Text
find_value [] full_key = none
find_value (e ∷ es) full_key =
    if is_full_key_match e full_key then some e.value else find_value es full_key

unfoldable pub find_string : List TomlEntry → Text → Option Text
find_string entries full_key = elim (find_value entries full_key) [
  | none ↦ none
  | some v ↦ some (unquote v)
]

unfoldable pub find_int : List TomlEntry → Text → Parsed
find_int entries full_key = elim (find_value entries full_key) [
  | none ↦ absent
  | some v ↦ parse_int v
]

unfoldable pub find_long : List TomlEntry → Text → Parsed
find_long entries full_key = elim (find_value entries full_key) [
  | none ↦ absent
  | some v ↦ parse_long v
]

unfoldable pub find_bool : List TomlEntry → Text → Option Bool
find_bool entries full_key = elim (find_value entries full_key) [
  | none ↦ none
  | some v ↦ parse_bool v
]

unfoldable pub count : List TomlEntry → ℕ
count entries = length entries
