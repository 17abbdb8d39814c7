-- ===== src/Config/Document.antt =====
-- Configuration files as they are written by hand, and what they mean. Config/RoundTrip.antt shows that
-- the parser reads them so.
use highp_mmorpg.Prelude.{◌≡◌, Bool, true, false, List, [], ◌∷◌, ◌++◌}
use highp_mmorpg.Config.Text.{Text, starts}
use highp_mmorpg.Config.Entry.{TomlEntry}
use highp_mmorpg.Config.Parser.{value_type}
use highp_mmorpg.Config.Trimming.{IsSolid, Avoids, solid_last}

pub data Line : Type 0 where
  blank : Line
  comment : Text → Line
  header : Text → Line
  pair : Text → Text → Line
  noted : Text → Text → Text → Line

-- `key = value`, and the comment that may stand behind it.
abbrev pub pair_text : Text → Text → Text
pair_text k v = k ++ (b' ' ∷ (b'=' ∷ (b' ' ∷ v)))

abbrev pub with_note : Text → Text → Text
with_note v t = v ++ (b' ' ∷ (b'#' ∷ t))

unfoldable pub line_text : Line → Text
line_text blank = []
line_text (comment t) = b'#' ∷ t
line_text (header n) = b'[' ∷ (n ++ (b']' ∷ []))
line_text (pair k v) = pair_text k v
line_text (noted k v t) = pair_text k (with_note v t)

-- The end of a line, with a carriage return or without.
abbrev pub line_end : Bool → Text
line_end true = b'\r' ∷ (b'\n' ∷ [])
line_end false = b'\n' ∷ []

unfoldable pub render : Bool → List Line → Text
render crlf [] = []
render crlf (l ∷ ls) = line_text l ++ (line_end crlf ++ render crlf ls)

abbrev pub IsName : Text → Type 0
IsName n = IsSolid n × Avoids b'\n' n × Avoids b']' n

abbrev pub IsKey : Text → Type 0
IsKey k =
    IsSolid k × Avoids b'\n' k × Avoids b'=' k × (starts b'#' k ≡ false) × (starts b'[' k ≡ false)

abbrev pub IsValue : Text → Type 0
IsValue v = IsSolid v × Avoids b'\n' v × Avoids b'#' v

-- A comment: one line, with no blank at its end.
abbrev pub IsNote : Text → Type 0
IsNote t = (solid_last (b'#' ∷ t) ≡ true) × Avoids b'\n' t

abbrev pub IsPrintable : Line → Type 0
IsPrintable blank = Unit
IsPrintable (comment t) = IsNote t
IsPrintable (header n) = IsName n
IsPrintable (pair k v) = IsKey k × IsValue v
IsPrintable (noted k v t) = IsKey k × IsValue v × IsNote t

abbrev pub entry : Text → Text → Text → TomlEntry
entry sec k v = record { section = sec; key = k; value = v; io_type = value_type v }

-- The entries of the lines that stand behind a header of section `sec`.
unfoldable pub meaning : Text → List Line → List TomlEntry
meaning sec [] = []
meaning sec (blank ∷ ls) = meaning sec ls
meaning sec (comment t ∷ ls) = meaning sec ls
meaning sec (header n ∷ ls) = meaning n ls
meaning sec (pair k v ∷ ls) = entry sec k v ∷ meaning sec ls
meaning sec (noted k v t ∷ ls) = entry sec k v ∷ meaning sec ls
