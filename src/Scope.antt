-- ===== src/Scope.antt =====
-- Clean-up at the end of a scope: lib/inc/scope and lib/src/scope. A clean-up function is a value of a
-- type `F`, and a destructor gives the functions that it calls, in the order of the calls.
pub mod Once
use highp_mmorpg.Prelude.{
  ℕ, ◌==◌, if◌then◌else◌, Bool, true, false, Option, none, some, List, [], ◌∷◌, ◌++◌, map,
}
use mathlib.Core.List.{reverse}

-- Defer.
pub record Defer (F : Type 0) : Type 0 where
  pub fns : List F

module _ {F : Type 0} where
  unfoldable pub make_defer : F → Defer F
  make_defer f = record { fns = f ∷ [] }

  unfoldable pub add : Defer F → F → Defer F
  add d f = record { fns = d.fns ++ f ∷ [] }

  -- The destructor.
  unfoldable pub leave : Defer F → List F
  leave d = reverse d.fns

-- DeferContext: an item, and the functions that are to be called with it. `none` is no pointer.
pub record DeferContext (F : Type 0) : Type 0 where
  pub item : Option ℕ
  pub fns : List F
  pub need_return : Bool

module _ {F : Type 0} where
  unfoldable pub make_context : Option ℕ → F → DeferContext F
  make_context item f = record { item = item; fns = f ∷ []; need_return = true }

  unfoldable pub defer : DeferContext F → F → DeferContext F
  defer c f = record c { fns = c.fns ++ f ∷ [] }

  -- The destructor.
  unfoldable pub destroy : DeferContext F → List (F × Option ℕ)
  destroy c = if c.need_return then map (λ f. (f, c.item)) (reverse c.fns) else []

  -- MoveFrom: the target and what is left of the source. A vector that was moved from is empty.
  unfoldable pub move_from : DeferContext F → DeferContext F → DeferContext F × DeferContext F
  move_from target from = (
    record { item = from.item; fns = from.fns; need_return = from.need_return },
    record { item = none; fns = []; need_return = false },
  )

-- DeferredItemHolder: the contexts by their items.
pub record Holder (F : Type 0) : Type 0 where
  pub items : List (ℕ × DeferContext F)

module _ {F : Type 0} where
  unfoldable pub find : ℕ → List (ℕ × DeferContext F) → Option (DeferContext F)
  find key [] = none
  find key ((k, c) ∷ items) = if k == key then some c else find key items

  unfoldable pub remove : ℕ → List (ℕ × DeferContext F) → List (ℕ × DeferContext F)
  remove key [] = []
  remove key ((k, c) ∷ items) = if k == key then items else (k, c) ∷ remove key items

  -- `emplace` with a key that is there leaves the map as it is, and the context that was given dies: the
  -- second part is what its destructor calls.
  unfoldable pub hold : ℕ → DeferContext F → Holder F → Holder F × List (F × Option ℕ)
  hold key c h = elim (find key h.items) [
    | none ↦ (record { items = (key, c) ∷ h.items }, [])
    | some old ↦ (h, destroy c)
  ]

  unfoldable pub release : ℕ → Holder F → Option (DeferContext F) × Holder F
  release key h = elim (find key h.items) [
    | none ↦ (none, h)
    | some c ↦ (some c, record { items = remove key h.items })
  ]

  unfoldable pub erase : ℕ → Holder F → Holder F × List (F × Option ℕ)
  erase key h = elim (find key h.items) [
    | none ↦ (h, [])
    | some c ↦ (record { items = remove key h.items }, destroy c)
  ]

  -- The keys that `ForEach` visits.
  unfoldable pub for_each : Holder F → List ℕ
  for_each h = map (λ entry. entry.0) h.items
