-- ===== src/Config/Agreement.antt =====
-- The compile-time functions on text and lines against the run-time ones.
use highp_mmorpg.Prelude.{
  ℕ, zero, suc, ◌+◌, ◌≡◌, refl, ap, ◌∙◌, inl, inr, ◌==◌, [], ◌∷◌, length, get_or, take, drop, arith,
  Bool-cases, Option-cases,
}
use mathlib.Core.Option
use highp_mmorpg.Config.Text
use highp_mmorpg.Config.Text.{Text, text_eq}
use highp_mmorpg.Config.Number
use highp_mmorpg.Config.Entry
use highp_mmorpg.Config.Entry.{TomlEntry}
use highp_mmorpg.Config.Parser
use highp_mmorpg.Config.Constexpr

add-one : (n : ℕ) → n + 1 ≡ suc n
add-one n = omega arith

same_from-suc :
    (n i c d : ℕ) (s t : Text)
    → Constexpr.same_from n (suc i) (c ∷ s) (d ∷ t) ≡ Constexpr.same_from n i s t
unfolding Constexpr.same_from
same_from-suc zero i c d s t = refl
same_from-suc (suc n) i c d s t = rw (add-one i, add-one (suc i), same_from-suc n (suc i) c d s t)

-- Equal lengths and equal places are equality.
pub equals-eq-text_eq : (a b : Text) → Constexpr.equals a b ≡ text_eq a b
unfolding text_eq Constexpr.equals Constexpr.same_from
equals-eq-text_eq [] [] = refl
equals-eq-text_eq [] (d ∷ t) = ground arith
equals-eq-text_eq (c ∷ s) [] = ground arith
equals-eq-text_eq (c ∷ s) (d ∷ t) =
    ground (arith, same_from-suc (length s) 0 c d s t, equals-eq-text_eq s t)

find_from-suc :
    (n i c d : ℕ) (s : Text)
    → Constexpr.find_from n (suc i) (d ∷ s) c ≡ Option.map suc (Constexpr.find_from n i s c)
unfolding Constexpr.find_from
find_from-suc zero i c d s = refl
find_from-suc (suc n) i c d s = elim (Bool-cases (get_or s i 0 == c)) [
  | inl e ↦ rw e
  | inr e ↦ rw (e, add-one i, add-one (suc i), find_from-suc n (suc i) c d s)
]

find-eq : (s : Text) (c : ℕ) → Constexpr.find s c ≡ Text.find s c
unfolding Constexpr.find Constexpr.find_from Text.find
find-eq [] c = refl
find-eq (d ∷ s) c = elim (Bool-cases (d == c)) [
  | inl e ↦ rw e
  | inr e ↦ rw e (find_from-suc (length s) 0 c d s ∙ ap (Option.map suc) (find-eq s c))
]

is_match-eq : (e : TomlEntry) (sec k : Text) → Constexpr.is_match e sec k ≡ Entry.is_match e sec k
unfolding Constexpr.is_match Entry.is_match Constexpr.equals
is_match-eq e sec k = ground (arith, equals-eq-text_eq e.section sec, equals-eq-text_eq e.key k)

is_empty-eq : (s : Text) → Text.is_empty s ≡ text_eq s []
unfolding text_eq
is_empty-eq [] = refl
is_empty-eq (c ∷ s) = refl

pub is_full_key_match-eq :
    (e : TomlEntry) (full_key : Text)
    → Constexpr.is_full_key_match e full_key ≡ Entry.is_full_key_match e full_key
unfolding Constexpr.is_full_key_match Entry.is_full_key_match Entry.is_match
is_full_key_match-eq e full_key = elim (Option-cases (Text.find full_key b'.')) [
  | inl gone ↦
      ground (arith, find-eq full_key b'.', is_match-eq e [] full_key, is_empty-eq e.section)
  | inr (dot, at) ↦
      ground
        (arith, find-eq full_key b'.', is_match-eq e (take dot full_key) (drop (dot + 1) full_key))
]

pub parse_bool-eq : (s : Text) → Constexpr.parse_bool s ≡ Number.parse_bool s
unfolding Constexpr.parse_bool Number.parse_bool
parse_bool-eq s = ground (
  arith,
  equals-eq-text_eq (Text.trim s) (Text.codes "true"),
  equals-eq-text_eq (Text.trim s) (Text.codes "false"),
)

pub parse_section-eq : (line : Text) → Constexpr.parse_section line ≡ Parser.parse_section line
unfolding Constexpr.parse_section Parser.parse_section
parse_section-eq line = ground (arith, find-eq line b']')

strip_comment-eq : (value : Text) → Constexpr.strip_comment value ≡ Parser.strip_comment value
unfolding Constexpr.strip_comment Parser.strip_comment
strip_comment-eq value = ground (arith, find-eq value b'#')

value_type-eq : (value : Text) → Constexpr.value_type value ≡ Parser.value_type value
unfolding Constexpr.value_type Parser.value_type
value_type-eq value = ground (
  arith,
  equals-eq-text_eq value (Text.codes "true"),
  equals-eq-text_eq value (Text.codes "false"),
)

pub parse_key_value-eq :
    (line sec : Text) → Constexpr.parse_key_value line sec ≡ Parser.parse_key_value line sec
unfolding Constexpr.parse_key_value Parser.parse_key_value
parse_key_value-eq line sec = elim (Option-cases (Text.find line b'=')) [
  | inl gone ↦ ground (arith, find-eq line b'=')
  | inr (eq, at) ↦ ground (
    arith,
    find-eq line b'=',
    strip_comment-eq (Text.trim (drop (eq + 1) line)),
    value_type-eq (Parser.strip_comment (Text.trim (drop (eq + 1) line))),
  )
]
