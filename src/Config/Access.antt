-- ===== src/Config/Access.antt =====
-- lib/inc/config/runTime/Config.hpp. The environment is a function from the names of its variables,
-- and the file system one from the paths to the content of the files that can be opened.
use highp_mmorpg.Prelude.{ℕ, ltb, if◌then◌else◌, Bool, true, false, Option, none, some, List, []}
use highp_mmorpg.Config.Text.{Text, is_empty}
use highp_mmorpg.Config.Number.{
  ℤ, Parsed, absent, parsed, overflow, parse_int, parse_long, parse_bool,
}
use highp_mmorpg.Config.Entry.{TomlEntry, find_string, find_int, find_long, find_bool, count}
use highp_mmorpg.Config.Parser.{parse}

pub record Config : Type 0 where
  pub result : List TomlEntry

unfoldable pub from_string : Text → Config
from_string content = record { result = parse content }

unfoldable pub from_file : (Text → Option Text) → Text → Option Config
unfolding from_string
from_file files path = elim (files path) [ none ↦ none | some content ↦ some (from_string content) ]

-- A file that cannot be opened leaves the configuration as it is.
unfoldable pub reload : (Text → Option Text) → Text → Config → Config × Bool
unfolding from_file
reload files path c = elim (from_file files path) [ none ↦ (c, false) | some new ↦ (new, true) ]

-- `envVar` is no pointer, or the name of a variable; one that is not set reads as empty.
unfoldable pub get_env : (Text → Option Text) → Option Text → Text
get_env env none = []
get_env env (some name) = elim (env name) [ none ↦ [] | some v ↦ v ]

unfoldable pub number_or : Parsed → ℤ → Parsed
number_or absent d = parsed d
number_or (parsed n) d = parsed n
number_or overflow d = overflow

unfoldable pub flag_or : Option Bool → Bool → Bool
flag_or none d = d
flag_or (some b) d = b

module _ (env : Text → Option Text) (c : Config) where
  unfoldable pub str : Text → Text → Option Text → Text
  unfolding get_env
  str key default env_var =
      let v = get_env env env_var in
      if is_empty v then elim (find_string c.result key) [ none ↦ default | some t ↦ t ] else v

  -- A variable that holds no number does not count.
  unfoldable pub int : Text → ℤ → Option Text → Parsed
  unfolding get_env number_or
  int key default env_var =
      let v = get_env env env_var in
      let from_entries = number_or (find_int c.result key) default in
      if is_empty v
      then from_entries
      else elim (parse_int v) [ absent ↦ from_entries | parsed n ↦ parsed n | overflow ↦ overflow ]

  unfoldable pub long : Text → ℤ → Option Text → Parsed
  unfolding get_env number_or
  long key default env_var =
      let v = get_env env env_var in
      let from_entries = number_or (find_long c.result key) default in
      if is_empty v
      then from_entries
      else elim (parse_long v) [ absent ↦ from_entries | parsed n ↦ parsed n | overflow ↦ overflow ]

  unfoldable pub bool : Text → Bool → Option Text → Bool
  unfolding get_env flag_or
  bool key default env_var =
      let v = get_env env env_var in
      let from_entries = flag_or (find_bool c.result key) default in
      if is_empty v then from_entries else elim (parse_bool v) [ none ↦ from_entries | some b ↦ b ]

unfoldable pub entry_count : Config → ℕ
entry_count c = count c.result

unfoldable pub is_loaded : Config → Bool
unfolding count
is_loaded c = ltb 0 (count c.result)
