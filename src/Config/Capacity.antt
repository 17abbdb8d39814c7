-- ===== src/Config/Capacity.antt =====
-- The compile-time parser's array holds the first entries that the run-time parser finds.
use highp_mmorpg.Prelude.{
  ℕ, zero, suc, ◌+◌, ◌≤◌, ◌<◌, min, ◌≡◌, refl, sym, ap, ◌∙◌, inl, inr, Bool, false, ltb, ltb→lt,
  ◌||◌, Option, none, List, [], ◌∷◌, ◌++◌, length, length-append, length-set, length-replicate,
  take, take-append_le, take-nil, set, arith, Bool-cases, Option-cases,
}
use highp_mmorpg.Config.Text
use highp_mmorpg.Config.Text.{Text}
use highp_mmorpg.Config.Number.{ℤ}
use highp_mmorpg.Config.Entry
use highp_mmorpg.Config.Entry.{TomlEntry}
use highp_mmorpg.Config.Parser
use highp_mmorpg.Config.Access
use highp_mmorpg.Config.Constexpr
use highp_mmorpg.Config.Constexpr.{Table}
use highp_mmorpg.Config.Agreement.{
  is_full_key_match-eq, parse_section-eq, parse_key_value-eq, parse_bool-eq,
}

-- The array holds the first `max_entries` of the entries `es`, and nothing else is in use.
pub record HoldsFirst (max_entries : ℕ) (es : List TomlEntry) (t : Table) : Type 0 where
  pub counted : t.count ≡ min max_entries (length es)
  pub sized : length t.entries ≡ max_entries
  pub held : take t.count t.entries ≡ take max_entries es

take-set {ℓ} :
    {A : Type ℓ} (n : ℕ) (xs : List A) (x : A)
    → n < length xs
    → take (suc n) (set xs n x) ≡ take n xs ++ x ∷ []
take-set n [] x h = absurd (omega arith)
take-set zero (y ∷ ys) x h = refl
take-set (suc n) (y ∷ ys) x h = rw (take-set n ys x (omega arith))

take_short : (n : ℕ) (xs : List TomlEntry) → length xs ≤ n → take n xs ≡ xs
take_short n [] h = take-nil n
take_short zero (x ∷ xs) h = absurd (omega arith)
take_short (suc n) (x ∷ xs) h = rw (take_short n xs (omega arith))

suc-eq : (n : ℕ) → n + 1 ≡ suc n
suc-eq n = omega arith

module _ (max_entries : ℕ) (es : List TomlEntry) (t : Table) (e : TomlEntry) where
  held_room :
      HoldsFirst max_entries es t
      → t.count < max_entries
      → take (t.count + 1) (set t.entries t.count e) ≡ take max_entries (es ++ e ∷ [])
  held_room h room =
      ap (λ n. take n (set t.entries t.count e)) (suc-eq t.count)
      ∙ (take-set t.count t.entries e (omega (arith, h.sized))
          ∙ (ap (λ front. front ++ e ∷ [])
                (h.held ∙ take_short max_entries es (omega (arith, h.counted)))
              ∙ sym (
                  take_short max_entries (es ++ e ∷ [])
                    (omega (arith, h.counted, length-append es (e ∷ []))))))

  add-HoldsFirst :
      HoldsFirst max_entries es t
      → HoldsFirst max_entries (Entry.add es e) (Constexpr.add max_entries t e).0
  unfolding Constexpr.add Entry.add
  add-HoldsFirst h = elim (Bool-cases (ltb t.count max_entries)) [
    | inl room ↦ rw room (record {
      counted = omega (arith, h.counted, ltb→lt _ _ room, length-append es (e ∷ []));
      sized = length-set t.entries t.count e ∙ h.sized;
      held = held_room h (ltb→lt _ _ room);
    })
    | inr full ↦ rw full (record {
      counted = ground (arith, h.counted, length-append es (e ∷ []));
      sized = h.sized;
      held = h.held ∙ sym (take-append_le max_entries es (e ∷ []) (ground (arith, h.counted)));
    })
  ]

-- The two parsers after the same lines.
record Agree (max_entries : ℕ) (p : Parser.Progress) (q : Constexpr.Progress) : Type 0 where
  section : q.current_section ≡ p.current_section
  table : HoldsFirst max_entries p.entries q.table

read_pair-Agree :
    (max_entries : ℕ) (line : Text) (p : Parser.Progress) (q : Constexpr.Progress)
    → Agree max_entries p q
    → Text.is_empty line || Text.starts b'#' line ≡ false
    → Text.starts b'[' line ≡ false
    → Agree max_entries (Parser.read_trimmed line p) (Constexpr.read_trimmed max_entries line q)
unfolding Parser.read_trimmed Constexpr.read_trimmed
read_pair-Agree max_entries line p q a kept pair =
    let same : Constexpr.parse_key_value line q.current_section
        ≡ Parser.parse_key_value line p.current_section =
      ap (Constexpr.parse_key_value line) a.section ∙ parse_key_value-eq line p.current_section in
    elim (Option-cases (Parser.parse_key_value line p.current_section)) [
      | inl gone ↦ rw (kept, pair, same, gone) a
      | inr (e, found) ↦
          rw (kept, pair, same, found)
            (record {
              section = a.section;
              table = add-HoldsFirst max_entries p.entries q.table e a.table;
            })
    ]

read_trimmed-Agree :
    (max_entries : ℕ) (line : Text) (p : Parser.Progress) (q : Constexpr.Progress)
    → Agree max_entries p q
    → Agree max_entries (Parser.read_trimmed line p) (Constexpr.read_trimmed max_entries line q)
unfolding Parser.read_trimmed Constexpr.read_trimmed
read_trimmed-Agree max_entries line p q a =
    elim (Bool-cases (Text.is_empty line || Text.starts b'#' line)) [
      | inl skipped ↦ rw skipped a
      | inr kept ↦ elim (Bool-cases (Text.starts b'[' line)) [
        | inl opens ↦ rw (kept, opens) (record { section = parse_section-eq line; table = a.table })
        | inr pair ↦ read_pair-Agree max_entries line p q a kept pair
      ]
    ]

read_lines-Agree :
    (max_entries : ℕ) (ls : List Text) (p : Parser.Progress) (q : Constexpr.Progress)
    → Agree max_entries p q
    → Agree max_entries (Parser.read_lines ls p) (Constexpr.read_lines max_entries ls q)
unfolding Parser.read_lines Constexpr.read_lines Parser.read_line Constexpr.read_line
read_lines-Agree max_entries [] p q a = a
read_lines-Agree max_entries (l ∷ ls) p q a =
    read_lines-Agree max_entries ls _ _
      (read_trimmed-Agree max_entries (Text.trim (Parser.drop_return l)) p q a)

start-HoldsFirst : (max_entries : ℕ) → HoldsFirst max_entries [] (Constexpr.empty_table max_entries)
start-HoldsFirst max_entries = record {
  counted = omega arith;
  sized = length-replicate max_entries Constexpr.no_entry;
  held = sym (take-nil max_entries);
}

-- The array of the compile-time parser holds the first `max_entries` entries that the run-time parser
-- finds in the same content, in their order, and counts just these.
parse-HoldsFirst :
    (max_entries : ℕ) (content : Text)
    → HoldsFirst max_entries (Parser.parse content) (Constexpr.parse max_entries content)
unfolding Parser.parse Constexpr.parse
parse-HoldsFirst max_entries content =
    (read_lines-Agree max_entries (Parser.split_lines content) _ _
      (record { section = refl; table = start-HoldsFirst max_entries })).table

find_value-eq :
    (n : ℕ) (es : List TomlEntry) (full_key : Text)
    → Constexpr.find_value n es full_key ≡ Entry.find_value (take n es) full_key
unfolding Constexpr.find_value Entry.find_value
find_value-eq zero es full_key = refl
find_value-eq (suc n) [] full_key = refl
find_value-eq (suc n) (e ∷ es) full_key =
    rw (is_full_key_match-eq e full_key, find_value-eq n es full_key)

-- The compile-time accessors and the run-time ones, without a variable of the environment, answer alike
-- for every key and default.
pub record AnswerAlike (env : Text → Option Text) (c : Access.Config) (t : Table) : Type 0 where
  pub str : (key default : Text) → Constexpr.str t key default ≡ Access.str env c key default none
  pub int : (key : Text) (d : ℤ) → Constexpr.int t key d ≡ Access.int env c key d none
  pub long : (key : Text) (d : ℤ) → Constexpr.long t key d ≡ Access.long env c key d none
  pub bool : (key : Text) (d : Bool) → Constexpr.bool t key d ≡ Access.bool env c key d none

module _ (max_entries : ℕ) (content key : Text)
    (fits : length (Parser.parse content) ≤ max_entries) where
  find_value-parse :
      let t = Constexpr.parse max_entries content in
      Constexpr.find_value t.count t.entries key ≡ Entry.find_value (Parser.parse content) key
  find_value-parse =
      let h = parse-HoldsFirst max_entries content in
      let t = Constexpr.parse max_entries content in
      find_value-eq t.count t.entries key
      ∙ ap (λ es. Entry.find_value es key)
          (h.held ∙ take_short max_entries (Parser.parse content) fits)

  find_string-parse :
      Constexpr.find_string (Constexpr.parse max_entries content) key
      ≡ Entry.find_string (Parser.parse content) key
  unfolding Constexpr.find_string Entry.find_string
  find_string-parse = ground (arith, find_value-parse)

  find_int-parse :
      Constexpr.find_int (Constexpr.parse max_entries content) key
      ≡ Entry.find_int (Parser.parse content) key
  unfolding Constexpr.find_int Entry.find_int
  find_int-parse = ground (arith, find_value-parse)

  find_long-parse :
      Constexpr.find_long (Constexpr.parse max_entries content) key
      ≡ Entry.find_long (Parser.parse content) key
  unfolding Constexpr.find_long Entry.find_long
  find_long-parse = ground (arith, find_value-parse)

  find_bool-parse :
      Constexpr.find_bool (Constexpr.parse max_entries content) key
      ≡ Entry.find_bool (Parser.parse content) key
  unfolding Constexpr.find_bool Entry.find_bool
  find_bool-parse = elim (Option-cases (Entry.find_value (Parser.parse content) key)) [
    | inl gone ↦ ground (arith, find_value-parse)
    | inr (v, found) ↦ ground (arith, find_value-parse, parse_bool-eq v)
  ]

-- For a content with no more entries than the array has places, the compile-time configuration answers
-- as the run-time one that is built from the same content and asked without a variable of the
-- environment: for texts, for both kinds of numbers and for flags, whatever key and default.
pub accessors-AnswerAlike :
    (env : Text → Option Text) (max_entries : ℕ) (content : Text)
    → length (Parser.parse content) ≤ max_entries
    → AnswerAlike env (Access.from_string content) (Constexpr.parse max_entries content)
unfolding Access.from_string Access.str Access.int Access.long Access.bool Constexpr.str
    Constexpr.int Constexpr.long Constexpr.bool
accessors-AnswerAlike env max_entries content fits = record {
  str = λ key default. ground (arith, find_string-parse max_entries content key fits);
  int = λ key d. ap (λ n. Access.number_or n d) (find_int-parse max_entries content key fits);
  long = λ key d. ap (λ n. Access.number_or n d) (find_long-parse max_entries content key fits);
  bool = λ key d. ap (λ b. Access.flag_or b d) (find_bool-parse max_entries content key fits);
}
