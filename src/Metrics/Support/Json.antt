-- ===== src/Metrics/Support/Json.antt =====
-- A reader of JSON strings, and that it reads what JsonEscape writes: Metrics/Support.antt.
use highp_mmorpg.Prelude.{
  ℕ, zero, suc, ◌+◌, ◌-◌, ◌*◌, ◌/◌, ◌%◌, ◌<◌, ◌≡◌, refl, ap, ◌∙◌, ◌==◌, ltb, leb, inl, inr,
  if◌then◌else◌, false, ◌&&◌, ◌||◌, Option, none, some, [], ◌∷◌, ◌++◌, All, arith, Bool-cases,
  Option-cases,
}
use mathlib.Core.Option
use highp_mmorpg.Config.Text.{Text}
use highp_mmorpg.Metrics.Support.{hex_digit, short_escape, escape_byte, json_escape}

-- Where the reader stands: between characters, behind a backslash, or with so many digits of a `\u` to
-- come and the number that those before it make.
pub data Place : Type 0 where
  plain : Place
  escaped : Place
  hex : ℕ → ℕ → Place

-- The character that one letter behind a backslash means.
meant : ℕ → Option ℕ
meant c =
    if c == b'\\' || (c == b'"' || c == b'/')
    then some c
    else if c == b'b'
    then some 8
    else if c == b'f'
    then some 12
    else if c == b'n'
    then some 10
    else if c == b'r'
    then some 13
    else if c == b't'
    then some 9
    else none

digit_value : ℕ → Option ℕ
digit_value c =
    if leb b'0' c && leb c b'9'
    then some (c - b'0')
    else if leb b'a' c && leb c b'f'
    then some (c - b'a' + 10)
    else none

cons : Option ℕ → Option Text → Option Text
cons none o = none
cons (some c) o = Option.map (◌∷◌ c) o

-- The text that the characters between the quotes of a JSON string mean. A quote, or a control character,
-- may not stand there as it is.
pub read : Place → Text → Option Text
unfolding meant digit_value cons
read plain [] = some []
read escaped [] = none
read (hex n v) [] = none
read plain (c ∷ s) =
    let behind = read escaped s in
    let rest = read plain s in
    if c == b'\\' then behind else if c == b'"' || ltb c 32 then none else cons (some c) rest
read escaped (c ∷ s) =
    let digits = read (hex 3 0) s in
    let rest = read plain s in if c == b'u' then digits else cons (meant c) rest
read (hex zero v) (c ∷ s) = elim (digit_value c) [
  | none ↦ none
  | some d ↦ cons (some (v * 16 + d)) (read plain s)
]
read (hex (suc n) v) (c ∷ s) = elim (digit_value c) [
  | none ↦ none
  | some d ↦ read (hex n (v * 16 + d)) s
]

digit_value-hex_digit : (d : ℕ) → d < 16 → digit_value (hex_digit d) ≡ some d
unfolding digit_value hex_digit
digit_value-hex_digit d h = ground arith

read_plain :
    (c : ℕ) (t : Text)
    → (c == b'\\') ≡ false
    → (c == b'"' || ltb c 32) ≡ false
    → read plain (c ∷ t) ≡ Option.map (◌∷◌ c) (read plain t)
unfolding read
read_plain c t h k = rw (h, k)

-- A backslash, and a letter that has a meaning.
read_letter :
    (c m : ℕ) (t : Text)
    → (c == b'u') ≡ false
    → meant c ≡ some m
    → read plain (b'\\' ∷ (c ∷ t)) ≡ Option.map (◌∷◌ m) (read plain t)
unfolding read cons
read_letter c m t h k = rw (h, k)

read_u : (t : Text) → read plain (b'\\' ∷ (b'u' ∷ t)) ≡ read (hex 3 0) t
unfolding read
read_u t = refl

read_digit :
    (n v c d : ℕ) (t : Text)
    → digit_value c ≡ some d
    → read (hex (suc n) v) (c ∷ t) ≡ read (hex n (v * 16 + d)) t
unfolding read
read_digit n v c d t h =
    ap (λ (o : Option ℕ). elim o [ none ↦ none | some d' ↦ read (hex n (v * 16 + d')) t ]) h

read_last_digit :
    (v c d : ℕ) (t : Text)
    → digit_value c ≡ some d
    → read (hex 0 v) (c ∷ t) ≡ Option.map (◌∷◌ (v * 16 + d)) (read plain t)
unfolding read cons
read_last_digit v c d t h =
    ap
      (λ (o : Option ℕ). elim o [
        | none ↦ none
        | some d' ↦ cons (some (v * 16 + d')) (read plain t)
      ])
      h

of_digits : (c : ℕ) → (0 * 16 + c / 16) * 16 + c % 16 ≡ c
of_digits c = omega arith

read_control :
    (c : ℕ) (t : Text)
    → c < 256
    → read plain
        (b'\\' ∷ (b'u' ∷ (b'0' ∷ (b'0' ∷ (hex_digit (c / 16) ∷ (hex_digit (c % 16) ∷ t))))))
      ≡ Option.map (◌∷◌ c) (read plain t)
unfolding digit_value
read_control c t h =
    read_u _
    ∙ (read_digit 2 0 b'0' 0 _ refl
        ∙ (read_digit 1 0 b'0' 0 _ refl
            ∙ (read_digit 0 0 (hex_digit (c / 16)) (c / 16) _
                  (digit_value-hex_digit (c / 16) (omega arith))
                ∙ (read_last_digit (0 * 16 + c / 16) (hex_digit (c % 16)) (c % 16) t
                      (digit_value-hex_digit (c % 16) (omega arith))
                    ∙ ap (λ n. Option.map (◌∷◌ n) (read plain t)) (of_digits c)))))

short_escape_lem :
    (c : ℕ) {letter : ℕ}
    → short_escape c ≡ some letter
    → (meant letter ≡ some c) × ((letter == b'u') ≡ false)
unfolding short_escape meant
short_escape_lem c h = ground arith

no_short_escape : (c : ℕ) → short_escape c ≡ none → ((c == b'\\') ≡ false) × ((c == b'"') ≡ false)
unfolding short_escape
no_short_escape c h = ground arith

read-escape_byte :
    (c : ℕ) (t : Text)
    → c < 256
    → read plain (escape_byte c ++ t) ≡ Option.map (◌∷◌ c) (read plain t)
unfolding escape_byte
read-escape_byte c t h = elim (Option-cases (short_escape c)) [
  | inl long ↦ elim (Bool-cases (ltb c 32)) [
    | inl control ↦ rw (long, control, escape_byte) (read_control c t h)
    | inr printed ↦
        let (backslash, quote) = no_short_escape c long in
        rw (long, printed, escape_byte) (read_plain c t backslash (rw (quote, printed)))
  ]
  | inr (letter, e) ↦
      let (means, apart) = short_escape_lem c e in
      rw (e, escape_byte) (read_letter letter c t apart means)
]

-- What JsonEscape writes for any bytes is read back as these bytes; so it contains neither a bare quote nor
-- a control character.
pub read-json_escape : (s : Text) → All (λ (c : ℕ). c < 256) s → read plain (json_escape s) ≡ some s
unfolding json_escape read
read-json_escape [] h = refl
read-json_escape (c ∷ s) h =
    read-escape_byte c (json_escape s) h.0 ∙ ap (Option.map (◌∷◌ c)) (read-json_escape s h.1)
