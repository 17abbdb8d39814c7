-- ===== src/Config/Lookup.antt =====
-- What the configuration answers for a key: Config/Entry.antt.
use highp_mmorpg.Prelude.{
  ◌≡◌, refl, ap, ap₂, ◌∙◌, ◌↔◌, if◌then◌else◌, Bool, true, ◌&&◌, Option, none, some, List, [], ◌∷◌,
  ◌++◌, length, take-append_eq, All, arith,
}
use highp_mmorpg.Config.Text.{Text, text_eq, is_empty}
use highp_mmorpg.Config.Entry.{TomlEntry, is_match, is_full_key_match, find_value}
use highp_mmorpg.Config.Parser.{parse}
use highp_mmorpg.Config.Trimming.{Avoids, find-append, find-Avoids, drop-append-cons}
use highp_mmorpg.Config.Document.{
  Line, blank, comment, header, pair, noted, render, IsPrintable, meaning,
}
use highp_mmorpg.Config.RoundTrip.{parse-render}

pub text_eq_iff : (s t : Text) → (text_eq s t ≡ true) ↔ (s ≡ t)
unfolding text_eq
text_eq_iff [] [] = ground arith
text_eq_iff [] (d ∷ t) = ground arith
text_eq_iff (c ∷ s) [] = ground arith
text_eq_iff (c ∷ s) (d ∷ t) = ground (arith, text_eq_iff s t)

-- The value that a document gives a key of a section: that of the first line that sets it. The lines
-- stand behind the header of `current`.
pub value_of : Text → Text → Text → List Line → Option Text
value_of current sec key [] = none
value_of current sec key (blank ∷ ls) = value_of current sec key ls
value_of current sec key (comment t ∷ ls) = value_of current sec key ls
value_of current sec key (header n ∷ ls) = value_of n sec key ls
value_of current sec key (pair k v ∷ ls) =
    if text_eq current sec && text_eq k key then some v else value_of current sec key ls
value_of current sec key (noted k v t ∷ ls) =
    if text_eq current sec && text_eq k key then some v else value_of current sec key ls

full_key_dotted :
    (e : TomlEntry) (sec key : Text)
    → Avoids b'.' sec
    → is_full_key_match e (sec ++ b'.' ∷ key) ≡ (text_eq e.section sec && text_eq e.key key)
unfolding is_full_key_match is_match
full_key_dotted e sec key h =
    rw (find-append sec b'.' key h, is_full_key_match)
      (ap₂ (λ s k. text_eq e.section s && text_eq e.key k)
        (take-append_eq (length sec) sec (b'.' ∷ key) refl) (drop-append-cons sec b'.' key))

is_empty_eq : (s : Text) → is_empty s ≡ text_eq s []
unfolding text_eq
is_empty_eq [] = refl
is_empty_eq (c ∷ s) = refl

full_key_plain :
    (e : TomlEntry) (key : Text)
    → Avoids b'.' key
    → is_full_key_match e key ≡ (text_eq e.section [] && text_eq e.key key)
unfolding is_full_key_match
full_key_plain e key h =
    rw (find-Avoids key b'.' h, is_full_key_match)
      (ap (λ b. b && text_eq e.key key) (is_empty_eq e.section))

find_value-meaning :
    (full sec key current : Text) (ls : List Line)
    → ((e : TomlEntry) → is_full_key_match e full ≡ (text_eq e.section sec && text_eq e.key key))
    → find_value (meaning current ls) full ≡ value_of current sec key ls
unfolding find_value meaning value_of
find_value-meaning full sec key current [] h = refl
find_value-meaning full sec key current (blank ∷ ls) h =
    find_value-meaning full sec key current ls h
find_value-meaning full sec key current (comment t ∷ ls) h =
    find_value-meaning full sec key current ls h
find_value-meaning full sec key current (header n ∷ ls) h = find_value-meaning full sec key n ls h
find_value-meaning full sec key current (pair k v ∷ ls) h =
    rw (h _, find_value-meaning full sec key current ls h)
find_value-meaning full sec key current (noted k v t ∷ ls) h =
    rw (h _, find_value-meaning full sec key current ls h)

-- In a printable document, the name of a section that has no dot, a dot and a key find the value that
-- the document gives the key in that section; a key with no dot alone finds the value that it has in
-- front of the first header, or under an empty one.
find_value-render :
    (crlf : Bool) (ls : List Line) (sec key top : Text)
    → All IsPrintable ls
    → Avoids b'.' sec
    → Avoids b'.' top
    → (find_value (parse (render crlf ls)) (sec ++ b'.' ∷ key) ≡ value_of [] sec key ls)
      × (find_value (parse (render crlf ls)) top ≡ value_of [] [] top ls)
find_value-render crlf ls sec key top h plain no_dot = (
  ap (λ es. find_value es (sec ++ b'.' ∷ key)) (parse-render crlf ls h)
      ∙ find_value-meaning (sec ++ b'.' ∷ key) sec key [] ls (λ e. full_key_dotted e sec key plain),
  ap (λ es. find_value es top) (parse-render crlf ls h)
      ∙ find_value-meaning top [] top [] ls (λ e. full_key_plain e top no_dot),
)
