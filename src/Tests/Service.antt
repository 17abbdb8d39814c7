-- ===== src/Tests/Service.antt =====
-- Pools, timing windows and the server's slots.
use highp_mmorpg.Prelude.{ℕ, true, false, List, [], ◌∷◌, replicate}
use highp_mmorpg.Client.{accepted, close}
use highp_mmorpg.Pool.Object.{pre_allocate}
use highp_mmorpg.Pool.Object.Ownership
use highp_mmorpg.Pool.Hybrid.Conservation
use highp_mmorpg.Server.{Handler, accept, recv, on_completions, allocate}
use highp_mmorpg.Server.Count.{IsFair, IsCounting, close-IsSteady, on_completions-IsCounting}

serve_all-IsOwned_example :
    let (held, p) =
      Ownership.serve_all
        (Ownership.takes ∷ Ownership.takes ∷ Ownership.gives_back 0 ∷ [])
        []
        (pre_allocate 1 (record { all = []; available = []; made = 0 })) in
    Ownership.IsOwned held p
serve_all-IsOwned_example =
    Ownership.serve_all-IsOwned 1 (Ownership.takes ∷ Ownership.takes ∷ Ownership.gives_back 0 ∷ [])

serve_all-IsConserved_example :
    let (lent, p) =
      Conservation.serve_all
        (Conservation.takes 0
          ∷ Conservation.gives_back 1 0
          ∷ Conservation.ends 1
          ∷ Conservation.takes 0
          ∷ [])
        []
        (record { locals = replicate 2 []; global = []; made = 0 }) in
    Conservation.IsConserved lent p
serve_all-IsConserved_example = Conservation.serve_all-IsConserved 2 (
    Conservation.takes 0
    ∷ Conservation.gives_back 1 0
    ∷ Conservation.ends 1
    ∷ Conservation.takes 0
    ∷ [])

-- An application that closes every client that sends, and lists who came and went.
abbrev strict : Handler (List ℕ)
strict = record {
  on_accept = λ slot w. slot ∷ w;
  on_disconnect = λ slot w. slot ∷ w;
  on_recv = λ slot bytes c w. ((close c).0, (close c).1, w);
  on_send = λ slot bytes_transferred w. w;
}

strict-IsFair : IsFair strict
strict-IsFair slot bytes c w v = close-IsSteady c v

on_completions-IsCounting_example :
    IsCounting
      (on_completions strict
        (accept true accepted 11
          ∷ accept true accepted 12
          ∷ recv true accepted 0 (1 ∷ [])
          ∷ recv false accepted 1 []
          ∷ accept false accepted 13
          ∷ [])
        (allocate 2)
        []).0
on_completions-IsCounting_example =
    on_completions-IsCounting strict strict-IsFair 2
      (accept true accepted 11
        ∷ accept true accepted 12
        ∷ recv true accepted 0 (1 ∷ [])
        ∷ recv false accepted 1 []
        ∷ accept false accepted 13
        ∷ [])
      []
