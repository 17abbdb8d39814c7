-- ===== src/Config/RoundTrip.antt =====
-- The parser reads what a document says: Config/Parser.antt.
use highp_mmorpg.Prelude.{
  ℕ, suc, ◌+◌, ◌≡◌, ◌≢◌, refl, sym, ap, ap₂, ◌∙◌, ◌⊎◌, ltb, inl, inr, Bool, true, false, some, List,
  [], ◌∷◌, ◌++◌, append_assoc, append-nil, length, length-append, drop, take-append_eq, All,
  All-append, arith,
}
use highp_mmorpg.Config.Text.{Text, is_whitespace, trim_left, trim_right, trim, find}
use highp_mmorpg.Config.Entry.{TomlEntry, add}
use highp_mmorpg.Config.Parser.{
  parse_section, strip_comment, parse_key_value, Progress, widen_first, split_lines, drop_return,
  read_trimmed, read_line, read_lines, parse,
}
use highp_mmorpg.Config.Trimming.{
  IsSolid, Avoids, IsSolid-append, solid_last-append, drop-append-cons, trim_solid,
  trim-append_blank, trim-cons_blank, find-append, find-Avoids, drop_return_solid,
  drop_return-append,
}
use highp_mmorpg.Config.Document.{
  Line, blank, comment, header, pair, noted, pair_text, with_note, line_text, render, IsName, IsKey,
  IsNote, IsPrintable, entry, meaning,
}

split_lines-append :
    (l rest : Text) → Avoids b'\n' l → split_lines (l ++ (b'\n' ∷ rest)) ≡ l ∷ split_lines rest
unfolding split_lines widen_first
split_lines-append [] rest h = refl
split_lines-append (c ∷ l) rest h = ground (arith, split_lines-append l rest h.1)

Avoids-append_blank : (c : ℕ) (s : Text) → b' ' ≢ c → Avoids c s → Avoids c (s ++ b' ' ∷ [])
Avoids-append_blank c s h k = All-append (λ d. d ≢ c) s (b' ' ∷ []) k (h, tt)

parse_section_header : (n : Text) → IsName n → parse_section (b'[' ∷ (n ++ (b']' ∷ []))) ≡ n
unfolding parse_section
parse_section_header [] h = cc
parse_section_header (c ∷ n) h =
    let at : find (b'[' ∷ ((c ∷ n) ++ (b']' ∷ []))) b']' ≡ some (suc (suc (length n))) =
      find-append (b'[' ∷ (c ∷ n)) b']' [] (omega arith, h.2) in
    let long : ltb (length (b'[' ∷ ((c ∷ n) ++ (b']' ∷ [])))) 3 ≡ false =
      ground (arith, length-append n (b']' ∷ [])) in
    rw (long, at, parse_section)
      (ap trim (take-append_eq _ (c ∷ n) (b']' ∷ []) (omega arith)) ∙ trim_solid (c ∷ n) h.0)

strip_comment_plain : (v : Text) → Avoids b'#' v → strip_comment v ≡ v
unfolding strip_comment
strip_comment_plain v h = rw (find-Avoids v b'#' h, strip_comment)

strip_comment_at : (s t : Text) → Avoids b'#' s → strip_comment (s ++ b'#' ∷ t) ≡ trim s
unfolding strip_comment
strip_comment_at s t h =
    rw (find-append s b'#' t h, strip_comment)
      (ap trim (take-append_eq (length s) s (b'#' ∷ t) refl))

strip_comment_noted : (v t : Text) → IsSolid v → Avoids b'#' v → strip_comment (with_note v t) ≡ v
unfolding is_whitespace
strip_comment_noted v t h k =
    ap strip_comment (sym (append_assoc v (b' ' ∷ []) (b'#' ∷ t)))
    ∙ (strip_comment_at (v ++ b' ' ∷ []) t (Avoids-append_blank b'#' v (omega arith) k)
        ∙ trim-append_blank v b' ' h refl)

parse_key_value_at :
    (sec front rest : Text)
    → Avoids b'=' front
    → parse_key_value (front ++ b'=' ∷ rest) sec
      ≡ some (entry sec (trim front) (strip_comment (trim rest)))
unfolding parse_key_value
parse_key_value_at sec front rest h =
    rw (find-append front b'=' rest h, parse_key_value)
      (ap
          (λ l. some (
            entry sec (trim l)
              (strip_comment (trim (drop (length front + 1) (front ++ b'=' ∷ rest))))))
          (take-append_eq (length front) front (b'=' ∷ rest) refl)
        ∙ ap (λ r. some (entry sec (trim front) (strip_comment (trim r))))
            (drop-append-cons front b'=' rest))

parse_key_value-pair :
    (sec k v : Text)
    → IsKey k
    → IsSolid v
    → parse_key_value (pair_text k v) sec ≡ some (entry sec k (strip_comment v))
unfolding is_whitespace
parse_key_value-pair sec k v h g =
    ap (λ l. parse_key_value l sec) (sym (append_assoc k (b' ' ∷ []) (b'=' ∷ (b' ' ∷ v))))
    ∙ (parse_key_value_at sec (k ++ b' ' ∷ []) (b' ' ∷ v)
          (Avoids-append_blank b'=' k (omega arith) h.2)
        ∙ ap₂ (λ name value. some (entry sec name (strip_comment value)))
            (trim-append_blank k b' ' h.0 refl) (trim-cons_blank v b' ' g refl))

-- What one line does to the reader's progress.
read_as : Line → Progress → Progress
read_as blank p = p
read_as (comment t) p = p
read_as (header n) p = record p { current_section = n }
read_as (pair k v) p = record p { entries = add p.entries (entry p.current_section k v) }
read_as (noted k v t) p = record p { entries = add p.entries (entry p.current_section k v) }

note_IsSolid : (v t : Text) → IsSolid v → IsNote t → IsSolid (with_note v t)
note_IsSolid v t h k = IsSolid-append v (b' ' ∷ (b'#' ∷ t)) h.0 k.0

read_trimmed_pair :
    (k v : Text) (e : TomlEntry) (p : Progress)
    → IsKey k
    → parse_key_value (pair_text k v) p.current_section ≡ some e
    → read_trimmed (pair_text k v) p ≡ record p { entries = add p.entries e }
unfolding read_trimmed
read_trimmed_pair [] v e p h found = cc
read_trimmed_pair (c ∷ k) v e p h found = ground arith

read_trimmed-line_text :
    (l : Line) (p : Progress) → IsPrintable l → read_trimmed (line_text l) p ≡ read_as l p
unfolding line_text read_as read_trimmed
read_trimmed-line_text blank p h = refl
read_trimmed-line_text (comment t) p h = refl
read_trimmed-line_text (header n) p h =
    ap (λ n'. record p { current_section = n' }) (parse_section_header n h)
read_trimmed-line_text (pair k v) p (key, value) = read_trimmed_pair k v _ p key (
    parse_key_value-pair p.current_section k v key value.0
    ∙ ap (λ w. some (entry p.current_section k w)) (strip_comment_plain v value.2))
read_trimmed-line_text (noted k v t) p (key, value, note) =
    read_trimmed_pair k (with_note v t) _ p key (
      parse_key_value-pair p.current_section k (with_note v t) key (note_IsSolid v t value.0 note)
      ∙ ap (λ w. some (entry p.current_section k w)) (strip_comment_noted v t value.0 value.2))

-- A line ends as it began: with white space at no end, or empty.
IsTight : Text → Type 0
IsTight s = (s ≡ []) ⊎ IsSolid s

pair_text-IsSolid : (k v : Text) → IsSolid k → IsSolid v → IsSolid (pair_text k v)
pair_text-IsSolid k v h g =
    IsSolid-append k (b' ' ∷ (b'=' ∷ (b' ' ∷ v))) h.0
      (solid_last-append (b' ' ∷ (b'=' ∷ (b' ' ∷ []))) v g.1)

line_text-IsTight : (l : Line) → IsPrintable l → IsTight (line_text l)
unfolding line_text IsTight is_whitespace
line_text-IsTight blank h = inl refl
line_text-IsTight (comment t) h = inr (refl, h.0)
line_text-IsTight (header n) h = inr (refl, solid_last-append (b'[' ∷ n) (b']' ∷ []) refl)
line_text-IsTight (pair k v) (key, value) = inr (pair_text-IsSolid k v key.0 value.0)
line_text-IsTight (noted k v t) (key, value, note) =
    inr (pair_text-IsSolid k (with_note v t) key.0 (note_IsSolid v t value.0 note))

-- No line contains a newline.
pair_text-Avoids : (k v : Text) → Avoids b'\n' k → Avoids b'\n' v → Avoids b'\n' (pair_text k v)
pair_text-Avoids k v h g =
    All-append (λ d. d ≢ b'\n') k (b' ' ∷ (b'=' ∷ (b' ' ∷ v))) h
      (omega arith, (omega arith, (omega arith, g)))

with_note-Avoids : (v t : Text) → Avoids b'\n' v → Avoids b'\n' t → Avoids b'\n' (with_note v t)
with_note-Avoids v t h g =
    All-append (λ d. d ≢ b'\n') v (b' ' ∷ (b'#' ∷ t)) h (omega arith, (omega arith, g))

line_text-Avoids : (l : Line) → IsPrintable l → Avoids b'\n' (line_text l)
unfolding line_text
line_text-Avoids blank h = tt
line_text-Avoids (comment t) h = (omega arith, h.1)
line_text-Avoids (header n) h =
    (omega arith, All-append (λ d. d ≢ b'\n') n (b']' ∷ []) h.1 (omega arith, tt))
line_text-Avoids (pair k v) (key, value) = pair_text-Avoids k v key.1 value.1
line_text-Avoids (noted k v t) (key, value, note) =
    pair_text-Avoids k (with_note v t) key.1 (with_note-Avoids v t value.1 note.1)

-- The text of a line as the reader cuts it out: behind it stands a carriage return, or nothing.
abbrev return_of : Bool → Text
return_of true = b'\r' ∷ []
return_of false = []

tight_trim : (s : Text) → IsTight s → trim s ≡ s
unfolding IsTight trim trim_left trim_right
tight_trim s (inl e) = rw e
tight_trim s (inr h) = trim_solid s h

tight_drop_return : (s : Text) → IsTight s → drop_return s ≡ s
unfolding IsTight drop_return
tight_drop_return s (inl e) = rw e
tight_drop_return s (inr h) = drop_return_solid s h.1

trim_tight : (crlf : Bool) (s : Text) → IsTight s → trim (drop_return (s ++ return_of crlf)) ≡ s
trim_tight true s h = ap trim (drop_return-append s) ∙ tight_trim s h
trim_tight false s h =
    ap (λ r. trim (drop_return r)) (append-nil s)
    ∙ (ap trim (tight_drop_return s h) ∙ tight_trim s h)

split_lines-render :
    (crlf : Bool) (l : Line) (ls : List Line)
    → IsPrintable l
    → split_lines (render crlf (l ∷ ls))
      ≡ (line_text l ++ return_of crlf) ∷ split_lines (render crlf ls)
unfolding render
split_lines-render true l ls h =
    ap split_lines (sym (append_assoc (line_text l) (b'\r' ∷ []) (b'\n' ∷ render true ls)))
    ∙ split_lines-append (line_text l ++ b'\r' ∷ []) (render true ls) (
        All-append (λ d. d ≢ b'\n') (line_text l) (b'\r' ∷ []) (line_text-Avoids l h)
          (omega arith, tt))
split_lines-render false l ls h =
    split_lines-append (line_text l) (render false ls) (line_text-Avoids l h)
    ∙ ap (λ r. r ∷ split_lines (render false ls)) (sym (append-nil (line_text l)))

meaning-read_as :
    (l : Line) (ls : List Line) (p : Progress)
    → (read_as l p).entries ++ meaning (read_as l p).current_section ls
      ≡ p.entries ++ meaning p.current_section (l ∷ ls)
unfolding read_as meaning add
meaning-read_as blank ls p = refl
meaning-read_as (comment t) ls p = refl
meaning-read_as (header n) ls p = refl
meaning-read_as (pair k v) ls p = append_assoc p.entries _ _
meaning-read_as (noted k v t) ls p = append_assoc p.entries _ _

entries-read_lines :
    (crlf : Bool) (ls : List Line) (p : Progress)
    → All IsPrintable ls
    → (read_lines (split_lines (render crlf ls)) p).entries
      ≡ p.entries ++ meaning p.current_section ls
unfolding read_lines read_line meaning
entries-read_lines crlf [] p h = unfold render split_lines in sym (append-nil p.entries)
entries-read_lines crlf (l ∷ ls) p h =
    ap (λ raws. (read_lines raws p).entries) (split_lines-render crlf l ls h.0)
    ∙ (ap (λ t. (read_lines (split_lines (render crlf ls)) t).entries)
          (ap (λ t. read_trimmed t p) (trim_tight crlf (line_text l) (line_text-IsTight l h.0))
            ∙ read_trimmed-line_text l p h.0)
        ∙ (entries-read_lines crlf ls (read_as l p) h.1 ∙ meaning-read_as l ls p))

-- A document of printable lines, with blank lines and comments anywhere, under either kind of line
-- end, is parsed to the entries that it says, in its order and each under the header before it.
pub parse-render :
    (crlf : Bool) (ls : List Line) → All IsPrintable ls → parse (render crlf ls) ≡ meaning [] ls
unfolding parse
parse-render crlf ls h =
    entries-read_lines crlf ls (record { current_section = []; entries = [] }) h
