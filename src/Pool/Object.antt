-- ===== src/Pool/Object.antt =====
-- lib/inc/memory/LockObjectPool.hpp and, for one thread, lib/inc/memory/ThreadLocalPool.hpp: `_all` owns
-- the objects and `_available` lists those that are free. A method holds the lock, so it is one step.
pub mod Ownership
use highp_mmorpg.Prelude.{ℕ, zero, suc, ◌+◌, List, [], ◌∷◌, Option, none, some, length}

-- `made` counts the objects that were ever made, so it names the next.
pub record ObjectPool : Type 0 where
  pub all : List ℕ
  pub available : List ℕ
  pub made : ℕ

-- `ObjectPool::PreAllocate`
unfoldable pub pre_allocate : ℕ → ObjectPool → ObjectPool
pre_allocate zero p = p
pre_allocate (suc n) p =
    pre_allocate n
      (record { all = p.made ∷ p.all; available = p.made ∷ p.available; made = suc p.made })

-- `ObjectPool::Acquire` and `ThreadLocalPool::Acquire`
unfoldable pub acquire : ObjectPool → ℕ × ObjectPool
acquire p = elim p.available [
  | [] ↦ (p.made, record p { all = p.made ∷ p.all; made = suc p.made })
  | item ∷ rest ↦ (item, record p { available = rest })
]

-- `Release`; `none` is the null pointer.
unfoldable pub release : Option ℕ → ObjectPool → ObjectPool
release none p = p
release (some item) p = record p { available = item ∷ p.available }

-- `Clear`
unfoldable pub clear : ObjectPool → ObjectPool
clear p = record p { all = []; available = [] }

-- `AvailableCount`/`GetAvailableCount` and `TotalCount`/`GetTotalCount`
unfoldable pub available_count : ObjectPool → ℕ
available_count p = length p.available

unfoldable pub total_count : ObjectPool → ℕ
total_count p = length p.all
