-- ===== src/Pool/Hybrid.antt =====
-- lib/inc/memory/HybridObjectPool.hpp: a vector of free objects for each thread, and a global one behind
-- a lock. `Get` and `Return` of different threads touch only the global vector in common, in one
-- locked part each, so a call is one step.
pub mod Conservation
use highp_mmorpg.Prelude.{
  ℕ, suc, ◌+◌, Bool, List, [], ◌∷◌, ◌++◌, Option, none, some, leb, if◌then◌else◌, length, take,
  drop, get_elem?, set, min,
}

-- `HybridObjectPoolConfig`
abbrev pub local_max_capacity : ℕ
local_max_capacity = 100

abbrev pub chunk_size : ℕ
chunk_size = 50

-- `locals` holds the vector of each thread, `global` is `_globalPool`, and `made` counts `new T()`.
pub record HybridPool : Type 0 where
  pub locals : List (List ℕ)
  pub global : List ℕ
  pub made : ℕ

-- What `Get` does with its thread's vector: the item, then both vectors and the count.
unfoldable pub get_local : List ℕ → List ℕ → ℕ → ℕ × List ℕ × List ℕ × ℕ
get_local (item ∷ rest) global made = (item, rest, global, made)
get_local [] global made =
    let fetch_count = min (length global) chunk_size in
    elim (take fetch_count global) [
      | [] ↦ (made, [], drop fetch_count global, suc made)
      | item ∷ rest ↦ (item, rest, drop fetch_count global, made)
    ]

-- What `Return` does with its thread's vector.
unfoldable pub return_local : ℕ → List ℕ → List ℕ → List ℕ × List ℕ
return_local item local global =
    let pool = item ∷ local in
    if leb local_max_capacity (length pool)
    then (drop chunk_size pool, take chunk_size pool ++ global)
    else (pool, global)

-- `HybridObjectPool::Get` on a thread; `none` if there is no such thread.
unfoldable pub get : ℕ → HybridPool → Option (ℕ × HybridPool)
get thread p = elim (get_elem? p.locals thread) [
  | none ↦ none
  | some local ↦
      let (item, local', global', made') = get_local local p.global p.made in
      some (item, record { locals = set p.locals thread local'; global = global'; made = made' })
]

-- `HybridObjectPool::Return` on a thread.
unfoldable pub return : Option ℕ → ℕ → HybridPool → HybridPool
return none thread p = p
return (some item) thread p = elim (get_elem? p.locals thread) [
  | none ↦ p
  | some local ↦
      let (local', global') = return_local item local p.global in
      record p { locals = set p.locals thread local'; global = global' }
]

-- `LocalStorage::~LocalStorage`, at the end of a thread.
unfoldable pub exit : ℕ → HybridPool → HybridPool
exit thread p = elim (get_elem? p.locals thread) [
  | none ↦ p
  | some local ↦ record p { locals = set p.locals thread []; global = local ++ p.global }
]
