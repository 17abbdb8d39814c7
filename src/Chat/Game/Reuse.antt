-- ===== src/Chat/Game/Reuse.antt =====
-- What becomes of a user when its pooled slot is given to the next connection.
use highp_mmorpg.Prelude.{
  ℕ, ◌≡◌, inl, inr, refl, ap, true, false, List, [], ◌∷◌, Option, none, Bool-cases, Option-cases,
}
use highp_mmorpg.Client.{Client, Posted}
use highp_mmorpg.Chat.Message.{Message}
use highp_mmorpg.Chat.Session.{User, Net}
use highp_mmorpg.Chat.SessionManager.{SessionManager, create_session, get_session_by_client}
use highp_mmorpg.Chat.UserManager.{UserManager, create_user, get_user_by_client}
use highp_mmorpg.Chat.UserManager.Slots.{same_socket_refl, Away, get_user_by_client-Away}
use highp_mmorpg.Chat.RoomManager.{get_or_create_available_room}
use highp_mmorpg.Chat.Game.{Game, c_str, room_id_at, connect, disconnect, handle_join}
use highp_mmorpg.Chat.Game.Run.{connected, disconnected, joins, slots_change, step, run}

unseen :
    (net : Net) (slot : ℕ) (m : UserManager)
    → get_user_by_client net slot m ≡ none
    → Away slot m.users
unfolding get_user_by_client
unseen net slot m f =
    get_user_by_client-Away net slot slot m.users (same_socket_refl (net.slots slot).socket) f

-- A user on the slot blocks the making of another.
create_user_blocked :
    (net : Net) (sessions : SessionManager) (slot : ℕ) (name : List ℕ) (room_id : ℕ)
    (m : UserManager)
    → ¬ Away slot m.users
    → create_user net sessions slot name room_id m ≡ (none, m)
unfolding create_user
create_user_blocked net sessions slot name room_id m h =
    elim (Option-cases (get_session_by_client net slot sessions)) [
      | inl e ↦ rw (e, create_user) refl
      | inr (session, e) ↦ elim (Option-cases (get_user_by_client net slot m)) [
        | inl f ↦ absurd (h (unseen net slot m f))
        | inr (existing, f) ↦ rw (e, f, create_user) refl
      ]
    ]

module _ (wsa : ℕ → Posted) (encode : Message → List ℕ) where
  join_blocked :
      (slot sequence : ℕ) (name : List ℕ) (g : Game)
      → ¬ Away slot g.users.users
      → let g' = handle_join wsa encode slot sequence name g in
        (g'.users ≡ g.users) × (g'.net ≡ g.net)
  unfolding handle_join
  join_blocked slot sequence name g h =
      let (i, m) = get_or_create_available_room g.rooms in
      let g₁ = record g { rooms = m } in
      let e =
        create_user_blocked g₁.net g₁.sessions slot (c_str name) (room_id_at i g₁) g₁.users h in
      rw (ap (λ (r : Option User × UserManager). r.0) e, handle_join)
        (ap (λ (r : Option User × UserManager). r.1) e, refl)

  -- A disconnect leaves the slot's user in the table, and so the next connection of the slot cannot
  -- join: no user is made for it, and it is sent nothing.
  pub reuse_refused :
      (slot sequence : ℕ) (name : List ℕ) (slots : ℕ → Client) (g : Game)
      → ¬ Away slot g.users.users
      → let again =
          disconnected slot ∷ slots_change slots ∷ connected slot ∷ joins slot sequence name ∷ [] in
        let g' = run wsa encode again g in (g'.users ≡ g.users) × (g'.net.outbox ≡ g.net.outbox)
  unfolding run step connect disconnect
  reuse_refused slot sequence name slots g h =
      let left = record (disconnect slot g) { net = record (g.net) { slots = slots } } in
      let back = record left { sessions = (create_session slot left.sessions).1 } in
      elim (Bool-cases g.has_stopped) [
        | inl e ↦
            let (users, net) =
              join_blocked slot sequence name (record left { has_stopped = true }) h in
            rw (e, connect) (users, ap (λ (n : Net). n.outbox) net)
        | inr e ↦
            let (users, net) =
              join_blocked slot sequence name (record back { has_stopped = false }) h in
            rw (e, connect) (users, ap (λ (n : Net). n.outbox) net)
      ]
