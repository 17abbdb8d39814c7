-- ===== src/Tests/Settings.antt =====
-- The configuration files, and the text of the metrics.
use highp_mmorpg.Prelude.{
  ◌≡◌, refl, true, List, [], ◌∷◌, ◌++◌, none, some, Option, arith, length, leb, All, if◌then◌else◌,
}
use highp_mmorpg.Config.Text.{Text, codes, is_whitespace, is_digit, trim_left, trim_right, trim}
use highp_mmorpg.Config.Number
use highp_mmorpg.Config.Entry.{add}
use highp_mmorpg.Config.Parser.{
  parse, read_lines, read_line, read_trimmed, split_lines, drop_return, parse_key_value,
}
use highp_mmorpg.Config.Access.{from_string}
use highp_mmorpg.Config.Constexpr
use highp_mmorpg.Config.Capacity.{AnswerAlike, accessors-AnswerAlike}
use highp_mmorpg.Config.Document.{
  Line, blank, comment, header, pair, noted, render, IsPrintable, meaning,
}
use highp_mmorpg.Config.RoundTrip.{parse-render}
use highp_mmorpg.Config.Digits.{decimal, with_sign, is_minus, sign_text, minus, parse_int-decimal}
use highp_mmorpg.Metrics.Support.{json_escape}
use highp_mmorpg.Metrics.Support.Json.{plain, read, read-json_escape}

-- [net]
-- port = 80 # tcp
abbrev lines : List Line
lines =
    comment (codes " a")
    ∷ blank
    ∷ header (codes "net")
    ∷ noted (codes "port") (codes "80") (codes " tcp")
    ∷ pair (codes "on") (codes "true")
    ∷ []

lines-IsPrintable : All IsPrintable lines
unfolding is_whitespace
lines-IsPrintable = ground arith

abbrev no_variables : Text → Option Text
no_variables name = none

one_entry : length (parse (codes "a = 1")) ≡ 1
unfolding parse read_lines read_line read_trimmed split_lines drop_return parse_key_value trim
    trim_left trim_right is_whitespace add
one_entry = refl

accessors-AnswerAlike_example :
    AnswerAlike no_variables (from_string (codes "a = 1")) (Constexpr.parse 64 (codes "a = 1"))
accessors-AnswerAlike_example =
    accessors-AnswerAlike no_variables 64 (codes "a = 1") (omega (arith, one_entry))

parse-render_example : parse (render true lines) ≡ meaning [] lines
parse-render_example = parse-render true lines lines-IsPrintable

parse_int-decimal_example : Number.parse_int (sign_text minus ++ codes "42") ≡ (
    if leb (decimal (codes "42")) Number.int_max
    then Number.parsed (with_sign (is_minus minus) (decimal (codes "42")))
    else Number.overflow)
unfolding is_digit
parse_int-decimal_example = parse_int-decimal minus b'4' (b'2' ∷ []) (refl, (refl, tt))

read-json_escape_example : read plain (json_escape (codes "a\"b\n")) ≡ some (codes "a\"b\n")
read-json_escape_example = read-json_escape (codes "a\"b\n") (omega arith)
