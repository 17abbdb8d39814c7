-- ===== src/Config/Trimming.antt =====
-- What trimming and searching do to a text that is put together: Config/Text.antt.
use highp_mmorpg.Prelude.{
  ℕ, suc, ◌+◌, ◌≡◌, ◌≢◌, refl, ap, ◌∙◌, inl, inr, Bool, true, false, not, none, some, [], ◌∷◌, ◌++◌,
  length, length-append, drop, take-append_eq, All, arith, Bool-cases,
}
use highp_mmorpg.Config.Text.{
  Text, ends, is_whitespace, trim_left, keep_front, trim_right, trim, find,
}
use highp_mmorpg.Config.Parser.{drop_return}

-- A text that begins, or ends, with a byte that is no white space.
abbrev pub solid_first : Text → Bool
solid_first [] = false
solid_first (c ∷ s) = not (is_whitespace c)

abbrev pub solid_last : Text → Bool
solid_last [] = false
solid_last (c ∷ []) = not (is_whitespace c)
solid_last (c ∷ (d ∷ s)) = solid_last (d ∷ s)

-- A text with no white space at its ends, and not empty.
abbrev pub IsSolid : Text → Type 0
IsSolid s = (solid_first s ≡ true) × (solid_last s ≡ true)

abbrev pub Avoids : ℕ → Text → Type 0
Avoids c s = All (λ (d : ℕ). d ≢ c) s

solid_last-cons : (c : ℕ) (s : Text) → solid_last s ≡ true → solid_last (c ∷ s) ≡ true
solid_last-cons c [] h = cc
solid_last-cons c (d ∷ s) h = h

pub solid_last-append : (s t : Text) → solid_last t ≡ true → solid_last (s ++ t) ≡ true
solid_last-append [] t h = h
solid_last-append (c ∷ s) t h = solid_last-cons c (s ++ t) (solid_last-append s t h)

pub solid_first-append : (s t : Text) → solid_first s ≡ true → solid_first (s ++ t) ≡ true
solid_first-append [] t h = cc
solid_first-append (c ∷ s) t h = h

pub IsSolid-append : (s t : Text) → solid_first s ≡ true → solid_last t ≡ true → IsSolid (s ++ t)
IsSolid-append s t h k = (solid_first-append s t h, solid_last-append s t k)

trim_left_solid : (s : Text) → solid_first s ≡ true → trim_left s ≡ s
unfolding trim_left
trim_left_solid [] h = refl
trim_left_solid (c ∷ s) h = elim (Bool-cases (is_whitespace c)) [ inl e ↦ cc | inr e ↦ rw e ]

trim_right_solid : (s : Text) → solid_last s ≡ true → trim_right s ≡ s
unfolding trim_right keep_front
trim_right_solid [] h = refl
trim_right_solid (c ∷ []) h = elim (Bool-cases (is_whitespace c)) [ inl e ↦ cc | inr e ↦ rw e ]
trim_right_solid (c ∷ (d ∷ s)) h = rw (trim_right_solid (d ∷ s) h)

pub trim_solid : (s : Text) → IsSolid s → trim s ≡ s
unfolding trim
trim_solid s h = rw (trim_left_solid s h.0) (trim_right_solid s h.1)

trim_right-append_blank :
    (s : Text) (c : ℕ) → is_whitespace c ≡ true → trim_right (s ++ c ∷ []) ≡ trim_right s
unfolding trim_right keep_front
trim_right-append_blank [] c h = rw h
trim_right-append_blank (d ∷ s) c h = rw (trim_right-append_blank s c h)

-- One blank byte behind a solid text, or before it, is trimmed off.
pub trim-append_blank :
    (s : Text) (c : ℕ) → IsSolid s → is_whitespace c ≡ true → trim (s ++ c ∷ []) ≡ s
unfolding trim
trim-append_blank s c h blank =
    rw (trim_left_solid (s ++ c ∷ []) (solid_first-append s (c ∷ []) h.0))
      (trim_right-append_blank s c blank ∙ trim_right_solid s h.1)

pub trim-cons_blank : (s : Text) (c : ℕ) → IsSolid s → is_whitespace c ≡ true → trim (c ∷ s) ≡ s
unfolding trim trim_left
trim-cons_blank s c h blank = rw blank (rw (trim_left_solid s h.0) (trim_right_solid s h.1))

-- The first place of a byte that stands nowhere before it.
pub find-append : (s : Text) (c : ℕ) (t : Text) → Avoids c s → find (s ++ c ∷ t) c ≡ some (length s)
unfolding find
find-append [] c t h = ground arith
find-append (d ∷ s) c t h = ground (arith, find-append s c t h.1)

pub find-Avoids : (s : Text) (c : ℕ) → Avoids c s → find s c ≡ none
unfolding find
find-Avoids [] c h = refl
find-Avoids (d ∷ s) c h = ground (arith, find-Avoids s c h.1)

ends-append : (s : Text) (c : ℕ) → ends c (s ++ c ∷ []) ≡ true
ends-append [] c = ground arith
ends-append (d ∷ []) c = ground arith
ends-append (d ∷ (e ∷ s)) c = ends-append (e ∷ s) c

ends_solid : (s : Text) → solid_last s ≡ true → ends b'\r' s ≡ false
unfolding is_whitespace
ends_solid [] h = refl
ends_solid (c ∷ []) h = ground arith
ends_solid (c ∷ (d ∷ s)) h = ends_solid (d ∷ s) h

pub drop_return_solid : (s : Text) → solid_last s ≡ true → drop_return s ≡ s
unfolding drop_return
drop_return_solid s h = rw (ends_solid s h)

pub drop_return-append : (s : Text) → drop_return (s ++ b'\r' ∷ []) ≡ s
unfolding drop_return
drop_return-append s =
    rw (ends-append s b'\r')
      (take-append_eq _ s (b'\r' ∷ []) (omega (arith, length-append s (b'\r' ∷ []))))

suc-add-one : (n : ℕ) → suc n + 1 ≡ suc (n + 1)
suc-add-one n = omega arith

pub drop-append-cons : (s : Text) (c : ℕ) (t : Text) → drop (length s + 1) (s ++ c ∷ t) ≡ t
drop-append-cons [] c t = refl
drop-append-cons (d ∷ s) c t =
    ap (λ n. drop n (d ∷ (s ++ c ∷ t))) (suc-add-one (length s)) ∙ drop-append-cons s c t
