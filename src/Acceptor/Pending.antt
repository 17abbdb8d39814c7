-- ===== src/Acceptor/Pending.antt =====
-- The items that are held for their completions, and the sockets in them: Acceptor.antt, Scope.antt.
use highp_mmorpg.Prelude.{
  ℕ, suc, ◌+◌, ◌≡◌, refl, ap, ◌==◌, ==_iff, if◌then◌else◌, inl, inr, Option, none, some, List, [],
  ◌∷◌, length, arith, Bool-cases,
}
use highp_mmorpg.Scope.{DeferContext, find, remove}
use highp_mmorpg.Acceptor.{write}

abbrev pub Items : Type 0
Items = List (ℕ × DeferContext (Unit {0}))

-- Whether a socket stands in an item, as a number.
abbrev pub is_socket : ℕ → Option ℕ → ℕ
is_socket s none = 0
is_socket s (some t) = if s == t then 1 else 0

-- How many held items contain the socket.
unfoldable pub held : (ℕ → Option ℕ) → ℕ → Items → ℕ
held clients s [] = 0
held clients s ((k, c) ∷ items) = is_socket s (clients k) + held clients s items

-- No item is held twice.
unfoldable pub IsDistinct : Items → Type 0
IsDistinct [] = Unit
IsDistinct ((k, c) ∷ items) = (find k items ≡ none) × IsDistinct items

pub held-write :
    (clients : ℕ → Option ℕ) (item s : ℕ) (v : Option ℕ) (items : Items)
    → find item items ≡ none
    → held (write clients item v) s items ≡ held clients s items
unfolding held find
held-write clients item s v [] h = refl
held-write clients item s v ((k, c) ∷ items) h = elim (Bool-cases (k == item)) [
  | inl e ↦ ground arith
  | inr e ↦
      rw e (ap (λ n. is_socket s (clients k) + n) (held-write clients item s v items (rw e at h)))
]

pub held-remove :
    (clients : ℕ → Option ℕ) (item s : ℕ) (c : DeferContext (Unit {0})) (items : Items)
    → find item items ≡ some c
    → held clients s items ≡ is_socket s (clients item) + held clients s (remove item items)
unfolding held find remove
held-remove clients item s c [] h = cc
held-remove clients item s c ((k, d) ∷ items) h = elim (Bool-cases (k == item)) [
  | inl e ↦ rw e (ap (λ j. is_socket s (clients j) + held clients s items) ((==_iff k item).0 e))
  | inr e ↦ rw e (let ih = held-remove clients item s c items (rw e at h) in omega (arith, ih))
]

pub find-remove-none :
    (k item : ℕ) (items : Items) → find k items ≡ none → find k (remove item items) ≡ none
unfolding find remove
find-remove-none k item [] h = refl
find-remove-none k item ((j, c) ∷ items) h = ground (arith, find-remove-none k item items)

pub find-remove :
    (item : ℕ) (items : Items) → IsDistinct items → find item (remove item items) ≡ none
unfolding find remove IsDistinct
find-remove item [] h = refl
find-remove item ((j, c) ∷ items) h = ground (arith, find-remove item items h.1, h.0)

pub remove-IsDistinct :
    (item : ℕ) (items : Items) → IsDistinct items → IsDistinct (remove item items)
unfolding remove IsDistinct
remove-IsDistinct item [] h = tt
remove-IsDistinct item ((j, c) ∷ items) h = elim (Bool-cases (j == item)) [
  | inl e ↦ rw e h.1
  | inr e ↦ rw e (find-remove-none j item items h.0, remove-IsDistinct item items h.1)
]

pub length-remove :
    (item : ℕ) (c : DeferContext (Unit {0})) (items : Items)
    → find item items ≡ some c
    → length items ≡ suc (length (remove item items))
unfolding find remove
length-remove item c [] h = cc
length-remove item c ((j, d) ∷ items) h = ground (arith, length-remove item c items)
