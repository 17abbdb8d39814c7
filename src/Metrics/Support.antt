-- ===== src/Metrics/Support.antt =====
-- lib/src/metrics/server/ServerMetricsSupport.cpp: what the metrics writers read from the environment and
-- how they write text. Bytes are classified as in the C locale.
pub mod Json
use highp_mmorpg.Prelude.{
  ℕ, zero, suc, ◌+◌, ◌-◌, ◌*◌, ◌/◌, ◌%◌, ◌^◌, ◌==◌, ltb, leb, if◌then◌else◌, Bool, true, false, not,
  ◌&&◌, ◌||◌, Option, none, some, List, [], ◌∷◌, ◌++◌, map,
}
use highp_mmorpg.Config.Text.{Text, codes, text_eq, is_empty, is_digit}

unfoldable pub is_space : ℕ → Bool
is_space c = c == b' ' || (leb 9 c && leb c 13)

unfoldable pub trim_front : Text → Text
unfolding is_space
trim_front [] = []
trim_front (c ∷ s) = if is_space c then trim_front s else c ∷ s

unfoldable pub keep_front : ℕ → Text → Text
unfolding is_space
keep_front c [] = if is_space c then [] else c ∷ []
keep_front c (d ∷ s) = c ∷ (d ∷ s)

unfoldable pub trim_back : Text → Text
unfolding keep_front
trim_back [] = []
trim_back (c ∷ s) = keep_front c (trim_back s)

unfoldable pub trim : Text → Text
unfolding trim_front trim_back
trim value = trim_back (trim_front value)

unfoldable pub lower : ℕ → ℕ
lower c = if leb b'A' c && leb c b'Z' then c + 32 else c

unfoldable pub to_lower : Text → Text
unfolding lower
to_lower value = map lower value

unfoldable pub parse_bool : Text → Bool → Bool
unfolding to_lower trim text_eq
parse_bool text fallback =
    let value = to_lower (trim text) in
    if is_empty value
    then fallback
    else if text_eq value (codes "1")
        || (text_eq value (codes "true")
            || (text_eq value (codes "yes") || text_eq value (codes "on")))
    then true
    else if text_eq value (codes "0")
        || (text_eq value (codes "false")
            || (text_eq value (codes "no") || text_eq value (codes "off")))
    then false
    else fallback

-- `from_chars` on the whole text: none where a byte is no digit, or the number does not fit 64 bits.
unfoldable pub from_chars : ℕ → Text → Option ℕ
unfolding is_digit
from_chars parsed [] = some parsed
from_chars parsed (c ∷ s) =
    let next = parsed * 10 + (c - b'0') in
    let rest = from_chars next s in if is_digit c && ltb next (2 ^ 64) then rest else none

unfoldable pub parse_unsigned : Text → ℕ → ℕ
unfolding trim from_chars
parse_unsigned text fallback =
    let value = trim text in
    if is_empty value then fallback else elim (from_chars 0 value) [ none ↦ fallback | some n ↦ n ]

-- `env` is what the environment holds under the name.
unfoldable pub read_env : Option Text → Option Text
unfolding trim
read_env none = none
read_env (some raw) = let value = trim raw in if is_empty value then none else some value

unfoldable pub is_invalid : ℕ → Bool
unfolding is_space
is_invalid c =
    ltb c 32
    || (c == b'<'
        || (c == b'>'
            || (c == b':'
                || (c == b'"'
                    || (c == b'/'
                        || (c == b'\\'
                            || (c == b'|' || (c == b'?' || (c == b'*' || is_space c)))))))))

unfoldable pub sanitize_path_component : Text → Text
unfolding is_invalid
sanitize_path_component value = map (λ c. if is_invalid c then b'_' else c) value

unfoldable pub file_time_to_uint64 : ℕ → ℕ → ℕ
file_time_to_uint64 low high = high * 2 ^ 32 + low

unfoldable pub hex_digit : ℕ → ℕ
hex_digit d = if ltb d 10 then b'0' + d else b'a' + (d - 10)

-- The letter that stands behind a backslash for a byte that has a short escape.
unfoldable pub short_escape : ℕ → Option ℕ
short_escape c =
    if c == b'\\'
    then some b'\\'
    else if c == b'"'
    then some b'"'
    else if c == 8
    then some b'b'
    else if c == 12
    then some b'f'
    else if c == 10
    then some b'n'
    else if c == 13
    then some b'r'
    else if c == 9
    then some b't'
    else none

-- The text that JsonEscape writes for one byte.
unfoldable pub escape_byte : ℕ → Text
unfolding short_escape hex_digit
escape_byte c = elim (short_escape c) [
  | some letter ↦ b'\\' ∷ (letter ∷ [])
  | none ↦
      if ltb c 32
      then b'\\' ∷ (b'u' ∷ (b'0' ∷ (b'0' ∷ (hex_digit (c / 16) ∷ (hex_digit (c % 16) ∷ [])))))
      else c ∷ []
]

unfoldable pub json_escape : Text → Text
unfolding escape_byte
json_escape [] = []
json_escape (c ∷ s) = escape_byte c ++ json_escape s

-- How far a counter has moved since the sample before: ComputeRate divides it by the time.
unfoldable pub counter_delta : ℕ → ℕ → ℕ
counter_delta current prior = if leb prior current then current - prior else 0
