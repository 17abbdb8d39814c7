-- ===== src/Config/Text.antt =====
-- lib/inc/config/runTime/StringUtils.hpp, the functions on text. A text is the list of its bytes.
use highp_mmorpg.Prelude.{
  ℕ, suc, ◌-◌, ◌==◌, leb, if◌then◌else◌, Bool, true, false, ◌&&◌, ◌||◌, Option, none, some, List,
  [], ◌∷◌, length, take, drop,
}
use mathlib.Core.Option
use Prim.Native.Char.{code}
use Prim.Native.String.{String}

abbrev pub Text : Type 0
Text = List ℕ

-- The bytes of a literal.
abbrev pub codes : String → Text
codes String.[] = []
codes (String.◌∷◌ c s) = code c ∷ codes s

-- `==` of two views.
unfoldable pub text_eq : Text → Text → Bool
text_eq [] [] = true
text_eq [] (d ∷ t) = false
text_eq (c ∷ s) [] = false
text_eq (c ∷ s) (d ∷ t) = c == d && text_eq s t

abbrev pub is_empty : Text → Bool
is_empty [] = true
is_empty (c ∷ s) = false

-- The first and the last byte of a text that has one.
abbrev pub starts : ℕ → Text → Bool
starts d [] = false
starts d (c ∷ s) = c == d

abbrev pub ends : ℕ → Text → Bool
ends d [] = false
ends d (c ∷ []) = c == d
ends d (c ∷ (e ∷ s)) = ends d (e ∷ s)

unfoldable pub is_whitespace : ℕ → Bool
is_whitespace c = c == b' ' || (c == b'\t' || (c == b'\r' || c == b'\n'))

unfoldable pub is_digit : ℕ → Bool
is_digit c = leb b'0' c && leb c b'9'

unfoldable pub trim_left : Text → Text
trim_left [] = []
trim_left (c ∷ s) = if is_whitespace c then trim_left s else c ∷ s

-- One byte more in front of a text whose end is trimmed.
unfoldable pub keep_front : ℕ → Text → Text
keep_front c [] = if is_whitespace c then [] else c ∷ []
keep_front c (d ∷ s) = c ∷ (d ∷ s)

unfoldable pub trim_right : Text → Text
unfolding keep_front
trim_right [] = []
trim_right (c ∷ s) = keep_front c (trim_right s)

unfoldable pub trim : Text → Text
trim s = trim_right (trim_left s)

-- The position of the first `c`.
unfoldable pub find : Text → ℕ → Option ℕ
find [] c = none
find (d ∷ s) c = if d == c then some 0 else Option.map suc (find s c)

unfoldable pub starts_with : Text → Text → Bool
starts_with s front =
    if leb (length front) (length s) then text_eq (take (length front) s) front else false

-- Quotes of one kind at both ends are taken off.
unfoldable pub unquote : Text → Text
unfolding trim
unquote s =
    let t = trim s in
    if leb 2 (length t) && ((starts b'"' t && ends b'"' t) || (starts b'\'' t && ends b'\'' t))
    then take (length t - 2) (drop 1 t)
    else t
