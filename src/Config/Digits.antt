-- ===== src/Config/Digits.antt =====
-- The numbers that are read: Config/Number.antt.
use highp_mmorpg.Prelude.{
  ℕ, zero, suc, ◌+◌, ◌-◌, ◌*◌, ◌≤◌, ◌≡◌, refl, ap, ◌∙◌, ◌==◌, leb, if◌then◌else◌, Bool, true, false,
  [], ◌∷◌, ◌++◌, length, All, arith,
}
use highp_mmorpg.Config.Text.{Text, is_whitespace, is_digit}
use highp_mmorpg.Config.Number.{
  ℤ, pos, negate, parsed, overflow, int_max, digits, signed, parse_int,
}
use highp_mmorpg.Config.Trimming.{IsSolid, solid_last, trim_solid}

-- What the last of `n + 1` digits' first place is worth.
place : ℕ → ℕ
place zero = 1
place (suc n) = 10 * place n

-- The number that digits stand for: each is worth its place.
pub decimal : Text → ℕ
decimal [] = 0
decimal (c ∷ s) = (c - b'0') * place (length s) + decimal s

abbrev pub IsDigits : Text → Type 0
IsDigits s = All (λ (c : ℕ). is_digit c ≡ true) s

pub with_sign : Bool → ℕ → ℤ
with_sign negative n = if negative then negate n else pos n

place_pos : (n : ℕ) → 1 ≤ place n
unfolding place
place_pos zero = omega arith
place_pos (suc n) = omega (arith, place_pos n)

shift : (r d p q : ℕ) → (r * 10 + d) * p + q ≡ r * (10 * p) + (d * p + q)
shift r d p q = grind arith

le-times : (n p q : ℕ) → 1 ≤ p → n ≤ n * p + q
le-times n p q h = grind arith

zero_times : (p n : ℕ) → 0 * p + n ≡ n
zero_times p n = omega arith

times_one : (r : ℕ) → r * 1 + 0 ≡ r
times_one r = omega arith

digits_lem :
    (maximum : ℕ) (negative : Bool) (r : ℕ) (s : Text)
    → IsDigits s
    → r ≤ maximum
    → digits maximum negative r s ≡ (
        if leb (r * place (length s) + decimal s) maximum
        then parsed (with_sign negative (r * place (length s) + decimal s))
        else overflow)
unfolding digits decimal place with_sign
digits_lem maximum negative r [] h fits = rw (times_one r) (ground arith)
digits_lem maximum negative r (c ∷ s) h fits =
    rw (← shift r (c - b'0') (place (length s)) (decimal s)) (
      ground (
        arith,
        digits_lem maximum negative (r * 10 + (c - b'0')) s h.1,
        le-times (r * 10 + (c - b'0')) (place (length s)) (decimal s) (place_pos (length s)),
      ))

pub data Sign : Type 0 where
  bare : Sign
  plus : Sign
  minus : Sign

pub sign_text : Sign → Text
sign_text bare = []
sign_text plus = b'+' ∷ []
sign_text minus = b'-' ∷ []

pub is_minus : Sign → Bool
is_minus bare = false
is_minus plus = false
is_minus minus = true

digit_solid : (c : ℕ) → is_digit c ≡ true → is_whitespace c ≡ false
unfolding is_digit is_whitespace
digit_solid c h = ground arith

digits_solid : (c : ℕ) (s : Text) → IsDigits (c ∷ s) → solid_last (c ∷ s) ≡ true
digits_solid c [] h = rw (digit_solid c h.0)
digits_solid c (d ∷ s) h = digits_solid d s h.1

-- A digit is no sign.
digit_sign : (c : ℕ) → is_digit c ≡ true → ((c == b'-') ≡ false) × ((c == b'+') ≡ false)
unfolding is_digit
digit_sign c h = ground arith

signed-sign_text :
    (maximum : ℕ) (sign : Sign) (c : ℕ) (s : Text)
    → IsDigits (c ∷ s)
    → signed maximum (sign_text sign ++ c ∷ s) ≡ digits maximum (is_minus sign) 0 (c ∷ s)
unfolding signed sign_text is_minus
signed-sign_text maximum bare c s h = ground (arith, digit_sign c h.0)
signed-sign_text maximum plus c s h = refl
signed-sign_text maximum minus c s h = refl

sign_text-IsSolid :
    (sign : Sign) (c : ℕ) (s : Text) → IsDigits (c ∷ s) → IsSolid (sign_text sign ++ c ∷ s)
unfolding sign_text is_whitespace
sign_text-IsSolid bare c s h = (rw (digit_solid c h.0), digits_solid c s h)
sign_text-IsSolid plus c s h = (refl, digits_solid c s h)
sign_text-IsSolid minus c s h = (refl, digits_solid c s h)

-- Decimal digits behind a sign or none, one at least, are read as the number that they stand for, with
-- that sign, if the number is at most the largest `int`; for every larger one the code's signed
-- arithmetic overflows.
pub parse_int-decimal :
    (sign : Sign) (c : ℕ) (s : Text)
    → IsDigits (c ∷ s)
    → parse_int (sign_text sign ++ c ∷ s) ≡ (
        if leb (decimal (c ∷ s)) int_max
        then parsed (with_sign (is_minus sign) (decimal (c ∷ s)))
        else overflow)
unfolding parse_int
parse_int-decimal sign c s h =
    ap (signed int_max) (trim_solid (sign_text sign ++ c ∷ s) (sign_text-IsSolid sign c s h))
    ∙ (signed-sign_text int_max sign c s h
        ∙ (digits_lem int_max (is_minus sign) 0 (c ∷ s) h (omega arith)
            ∙ ap (λ n. if leb n int_max then parsed (with_sign (is_minus sign) n) else overflow)
                (zero_times (place (length (c ∷ s))) (decimal (c ∷ s)))))
