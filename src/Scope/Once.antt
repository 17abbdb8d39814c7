-- ===== src/Scope/Once.antt =====
-- A context that is moved from variable to variable calls its functions once: Scope.antt.
use highp_mmorpg.Prelude.{
  ℕ, ◌≡◌, ap, ◌∙◌, true, Option, List, [], ◌∷◌, ◌++◌, append_assoc, append-nil, map,
}
use mathlib.Core.List.{reverse}
use highp_mmorpg.Scope.{DeferContext, make_context, defer, destroy, move_from}

-- What is done with the context in a variable: a function is registered, or the context is moved to
-- another variable, whose own context is `target`, and the first variable's scope ends.
pub data Use (F : Type 0) : Type 0 where
  registers : F → Use F
  moves : DeferContext F → Use F

module _ {F : Type 0} where
  unfoldable pub registered : List (Use F) → List F
  registered [] = []
  registered (registers f ∷ us) = f ∷ registered us
  registered (moves target ∷ us) = registered us

  -- The context at the end, and the calls of the destructors of the variables that it left.
  unfoldable pub use_all : List (Use F) → DeferContext F → DeferContext F × List (F × Option ℕ)
  use_all [] c = (c, [])
  use_all (registers f ∷ us) c = use_all us (defer c f)
  use_all (moves target ∷ us) c =
      let (moved, left) = move_from target c in
      let (end, calls) = use_all us moved in (end, destroy left ++ calls)

  use_all-IsLive :
      (us : List (Use F)) (item : Option ℕ) (fns : List F)
      → use_all us (record { item = item; fns = fns; need_return = true })
        ≡ (record { item = item; fns = fns ++ registered us; need_return = true }, [])
  unfolding use_all registered defer move_from destroy
  use_all-IsLive [] item fns = rw (append-nil fns)
  use_all-IsLive (registers f ∷ us) item fns =
      use_all-IsLive us item (fns ++ f ∷ [])
      ∙ ap (λ l. (record { item = item; fns = l; need_return = true }, []))
          (append_assoc fns (f ∷ []) (registered us))
  use_all-IsLive (moves target ∷ us) item fns = rw (use_all-IsLive us item fns)

  -- Through any number of moves and registrations, the variables that the context has left call nothing
  -- when they die, and the last one calls every function that was registered, once, with the item, and
  -- in the reverse order.
  pub use_all-destroy :
      (us : List (Use F)) (item : Option ℕ) (f : F)
      → let (end, calls) = use_all us (make_context item f) in
        (calls ≡ []) × (destroy end ≡ map (λ g. (g, item)) (reverse (f ∷ registered us)))
  unfolding make_context destroy
  use_all-destroy us item f =
      let e = use_all-IsLive us item (f ∷ []) in (ap (λ r. r.1) e, ap (λ r. destroy r.0) e)
