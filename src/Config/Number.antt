-- ===== src/Config/Number.antt =====
-- lib/inc/config/runTime/StringUtils.hpp: ParseInt, ParseLong and ParseBool. An `int`, and a `long` of
-- the Windows compilers, has 32 bits. The source does not test for overflow, which is undefined
-- behaviour in C++, and so is a result of its own here.
use highp_mmorpg.Prelude.{
  ℕ, zero, suc, ◌+◌, ◌-◌, ◌*◌, ◌==◌, leb, if◌then◌else◌, Bool, true, false, Option, none, some, [],
  ◌∷◌,
}
use highp_mmorpg.Config.Text.{Text, codes, text_eq, is_digit, trim}

-- `negsuc n` is -(n + 1).
pub data ℤ : Type 0 where
  pos : ℕ → ℤ
  negsuc : ℕ → ℤ

abbrev pub negate : ℕ → ℤ
negate zero = pos 0
negate (suc n) = negsuc n

pub data Parsed : Type 0 where
  absent : Parsed
  parsed : ℤ → Parsed
  overflow : Parsed

abbrev pub int_max : ℕ
int_max = 2147483647

abbrev pub long_max : ℕ
long_max = 2147483647

-- The loop over the digits, behind the sign.
unfoldable pub digits : ℕ → Bool → ℕ → Text → Parsed
unfolding is_digit
digits maximum negative result [] = parsed (if negative then negate result else pos result)
digits maximum negative result (c ∷ s) =
    let next = result * 10 + (c - b'0') in
    let rest = digits maximum negative next s in
    if is_digit c then (if leb next maximum then rest else overflow) else absent

unfoldable pub digits_behind : ℕ → Bool → Text → Parsed
unfolding digits
digits_behind maximum negative [] = absent
digits_behind maximum negative (c ∷ s) = digits maximum negative 0 (c ∷ s)

unfoldable pub signed : ℕ → Text → Parsed
unfolding digits_behind
signed maximum [] = absent
signed maximum (c ∷ s) =
    if c == b'-'
    then digits_behind maximum true s
    else if c == b'+'
    then digits_behind maximum false s
    else digits_behind maximum false (c ∷ s)

unfoldable pub parse_int : Text → Parsed
unfolding trim signed
parse_int s = signed int_max (trim s)

unfoldable pub parse_long : Text → Parsed
unfolding trim signed
parse_long s = signed long_max (trim s)

unfoldable pub parse_bool : Text → Option Bool
unfolding trim text_eq
parse_bool s =
    let t = trim s in
    if text_eq t (codes "true")
    then some true
    else if text_eq t (codes "false")
    then some false
    else none
