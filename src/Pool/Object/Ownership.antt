-- ===== src/Pool/Object/Ownership.antt =====
-- Who holds the objects of a pool: the pool itself, or whoever acquired them.
use highp_mmorpg.Prelude.{
  ℕ, zero, suc, ◌+◌, ◌≡◌, ◌⊎◌, inl, inr, refl, List, [], ◌∷◌, some, arith, ltb, ◌==◌, if◌then◌else◌,
  Bool-cases, List-cases,
}
use highp_mmorpg.Pool.Object.{ObjectPool, pre_allocate, acquire, release}

-- How often an object stands in a list.
abbrev pub count : ℕ → List ℕ → ℕ
count x [] = 0
count x (y ∷ ys) = (if x == y then 1 else 0) + count x ys

-- A user of the pool: it takes an object, or gives back one that it holds.
pub data Use : Type 0 where
  takes : Use
  gives_back : ℕ → Use

-- The objects that are held, once each; what is not held is not given back.
abbrev pub drop_one : ℕ → List ℕ → List ℕ
drop_one x [] = []
drop_one x (y ∷ ys) = if x == y then ys else y ∷ drop_one x ys

unfoldable pub serve : Use → List ℕ → ObjectPool → List ℕ × ObjectPool
serve takes held p = let (item, p') = acquire p in (item ∷ held, p')
serve (gives_back x) held p = elim (count x held) [
  | zero ↦ (held, p)
  | suc _ ↦ (drop_one x held, release (some x) p)
]

unfoldable pub serve_all : List Use → List ℕ → ObjectPool → List ℕ × ObjectPool
serve_all [] held p = (held, p)
serve_all (u ∷ us) held p = let (held', p') = serve u held p in serve_all us held' p'

-- Every object that was made is owned once, and is either free, once, or held, once.
pub record IsOwned (held : List ℕ) (p : ObjectPool) : Type 0 where
  pub owned : (x : ℕ) → count x p.all ≡ (if ltb x p.made then 1 else 0)
  pub placed : (x : ℕ) → count x p.available + count x held ≡ (if ltb x p.made then 1 else 0)

pre_allocate-IsOwned : (n : ℕ) (p : ObjectPool) → IsOwned [] p → IsOwned [] (pre_allocate n p)
unfolding pre_allocate
pre_allocate-IsOwned zero p v = v
pre_allocate-IsOwned (suc n) p v =
    pre_allocate-IsOwned n
      (record { all = p.made ∷ p.all; available = p.made ∷ p.available; made = suc p.made })
      (record { owned = λ x. ground (arith, v.owned x); placed = λ x. ground (arith, v.placed x) })

acquire-IsOwned :
    (held : List ℕ) (p : ObjectPool)
    → IsOwned held p
    → let (item, p') = acquire p in IsOwned (item ∷ held) p'
unfolding acquire
acquire-IsOwned held p v = elim (List-cases p.available) [
  | inl e ↦
      rw (e, acquire)
        (record {
          owned = λ x. ground (arith, v.owned x);
          placed = λ x. ground (arith, v.placed x, e);
        })
  | inr (item, rest, e) ↦
      rw (e, acquire)
        (record { owned = λ x. v.owned x; placed = λ x. ground (arith, v.placed x, e) })
]

pub count-drop_one :
    (x y : ℕ) (ys : List ℕ) (n : ℕ)
    → count x ys ≡ suc n
    → count y (drop_one x ys) + (if y == x then 1 else 0) ≡ count y ys
count-drop_one x y [] n e = absurd (omega arith)
count-drop_one x y (z ∷ zs) n e = elim (Bool-cases (x == z)) [
  | inl here ↦ ground arith
  | inr away ↦ ground (arith, count-drop_one x y zs n)
]

pub count_cases : (n : ℕ) → (n ≡ 0) ⊎ ((k : ℕ) × (n ≡ suc k))
count_cases zero = inl refl
count_cases (suc k) = inr (k, refl)

serve-IsOwned :
    (u : Use) (held : List ℕ) (p : ObjectPool)
    → IsOwned held p
    → let (held', p') = serve u held p in IsOwned held' p'
unfolding serve release
serve-IsOwned takes held p v = acquire-IsOwned held p v
serve-IsOwned (gives_back x) held p v = elim (count_cases (count x held)) [
  | inl e ↦ rw (e, serve) v
  | inr (n, e) ↦
      rw (e, serve)
        (record {
          owned = λ y. v.owned y;
          placed = λ y. ground (arith, v.placed y, count-drop_one x y held n e);
        })
]

serve_all-IsOwned' :
    (us : List Use) (held : List ℕ) (p : ObjectPool)
    → IsOwned held p
    → let (held', p') = serve_all us held p in IsOwned held' p'
unfolding serve_all
serve_all-IsOwned' [] held p v = v
serve_all-IsOwned' (u ∷ us) held p v =
    let (held', p') = serve u held p in serve_all-IsOwned' us held' p' (serve-IsOwned u held p v)

-- However a pool is used that started with some objects, each of the objects that were made is owned
-- by the pool once and is free or held, never both and never twice: no two who hold an object hold
-- the same. Given back is only what is held.
pub serve_all-IsOwned :
    (pre_alloc_count : ℕ) (us : List Use)
    → let (held, p) =
        serve_all us []
          (pre_allocate pre_alloc_count (record { all = []; available = []; made = 0 })) in
      IsOwned held p
serve_all-IsOwned pre_alloc_count us =
    let empty : ObjectPool = record { all = []; available = []; made = 0 } in
    serve_all-IsOwned' us [] (pre_allocate pre_alloc_count empty) (
      pre_allocate-IsOwned pre_alloc_count empty
        (record { owned = λ x. ground arith; placed = λ x. ground arith }))
