-- ===== src/Chat/Room/Broadcasts.antt =====
-- Who is told of what happens in a room.
use highp_mmorpg.Prelude.{
  ℕ, ◌%◌, ◌^◌, ◌≡◌, ◌≢◌, inl, inr, refl, sym, ap, subst, ◌∙◌, true, List, [], ◌∷◌, ◌++◌, some,
  arith, All, ◌==◌, Bool-cases, List-cases, map,
}
use highp_mmorpg.Client.{Posted, is_connected}
use highp_mmorpg.Chat.Message.{
  Message, user_joined_broadcast, user_left_broadcast, chat_message_broadcast,
}
use highp_mmorpg.Chat.Session.{User, Net, send_to}
use highp_mmorpg.Chat.Session.Delivery.{
  IsSound, IsDeliverable, framed, AreConnected, outbox-send_to,
}
use highp_mmorpg.Chat.SessionManager.{find_if}
use highp_mmorpg.Chat.Room.{Room, erase_user, others, join, leave, broadcast_chat_message}

-- No two users of a room have the same id.
abbrev pub AreDistinct : List User → Type 0
AreDistinct [] = Unit
AreDistinct (u ∷ us) = All (λ (v : User). v.id ≢ u.id) us × AreDistinct us

others-All : (P : User → Type 0) (id : ℕ) (us : List User) → All P us → All P (others id us)
others-All P id [] h = tt
others-All P id (u ∷ us) h = elim (Bool-cases (u.id == id)) [
  | inl here ↦ rw here (others-All P id us h.1)
  | inr away ↦ rw away (h.0, others-All P id us h.1)
]

others-absent : (id : ℕ) (us : List User) → All (λ (v : User). v.id ≢ id) us → others id us ≡ us
others-absent id [] h = refl
others-absent id (u ∷ us) h = ground (arith, h.0, others-absent id us h.1)

-- With distinct ids the user that leaves is the only one that goes, and all who stay are told.
others-erase_user :
    (id : ℕ) (us : List User)
    → AreDistinct us
    → (erase_user id us ≡ others id us) × (others id (erase_user id us) ≡ others id us)
others-erase_user id [] h = (refl, refl)
others-erase_user id (u ∷ us) h = elim (Bool-cases (u.id == id)) [
  | inl here ↦
      let same : u.id ≡ id = ground arith in
      let stay = others-absent id us (subst (λ k. All (λ (v : User). v.id ≢ k) us) same h.0) in
      rw here (sym stay, refl)
  | inr away ↦
      let (erased, told) = others-erase_user id us h.1 in
      rw away (ap (λ vs. u ∷ vs) erased, rw away (ap (λ vs. u ∷ vs) told))
]

module _ (wsa : ℕ → Posted) (encode : Message → List ℕ) where
  -- Who joins is not told of it; all who were there are, in their order, once each, if they are
  -- connected and the packet can be sent. The newcomer is the last of the room's users then.
  join_tells :
      (user : User) (r : Room) (net : Net)
      → let msg = user_joined_broadcast (r.id % 2 ^ 32) user.id user.name in
        IsSound net
        → IsDeliverable wsa encode msg
        → AreConnected wsa encode net r.users
        → let (r', net') = join wsa encode (some user) r net in
          (r'.users ≡ r.users ++ user ∷ [])
          × (net'.outbox ≡ net.outbox ++ map (framed wsa encode msg) r.users)
  unfolding join
  join_tells user r net v d on = (refl, outbox-send_to wsa encode r.users _ net v d on)

  leave_found :
      (id : ℕ) (found : User) (r : Room) (net : Net)
      → find_if (λ (u : User). u.id == id) r.users ≡ some found
      → let rest = erase_user id r.users in
        leave wsa encode id r net ≡ (
          record r { users = rest },
          send_to wsa encode (others id rest) (user_left_broadcast id found.name) net,
        )
  unfolding leave
  leave_found id found r net e = elim (List-cases r.users) [
    | inl f ↦ absurd (ground (arith, e, f))
    | inr (u, us, f) ↦
        rw (f, leave)
          (rw e (
            ap
              (λ us. (
                record r { users = erase_user id us },
                send_to wsa encode (others id (erase_user id us))
                    (user_left_broadcast id found.name) net,
              ))
              f))
  ]

  -- Who leaves is taken out of the room, and all the others are told, in their order, once each, if all
  -- users of the room are connected, the one that leaves too, and the packet can be sent. No two users of
  -- the room have the same id.
  pub leave_tells :
      (id : ℕ) (found : User) (r : Room) (net : Net)
      → let msg = user_left_broadcast id found.name in
        find_if (λ (u : User). u.id == id) r.users ≡ some found
        → AreDistinct r.users
        → IsSound net
        → IsDeliverable wsa encode msg
        → AreConnected wsa encode net r.users
        → let (r', net') = leave wsa encode id r net in
          (r'.users ≡ others id r.users)
          × (net'.outbox ≡ net.outbox ++ map (framed wsa encode msg) (others id r.users))
  leave_tells id found r net e apart v d on =
      let (erased, told) = others-erase_user id r.users apart in
      let rest = erase_user id r.users in
      let reached =
        others-All (λ (u : User). is_connected (net.slots u.session.client) ≡ true) id r.users on in
      let out =
        outbox-send_to wsa encode (others id rest) (user_left_broadcast id found.name) net v d
          (subst (λ us. AreConnected wsa encode net us) (sym told) reached) in
      rw (leave_found id found r net e) (
        erased,
        out
            ∙ ap
                (λ us. net.outbox ++ map (framed wsa encode (user_left_broadcast id found.name)) us)
                told,
      )

  -- If the room's users are connected and the packet can be sent, a message goes to all of them but
  -- its sender, in their order, once each.
  broadcast_tells :
      (sender_id id : ℕ) (name text : List ℕ) (sequence now : ℕ) (r : Room) (net : Net)
      → let msg = chat_message_broadcast sender_id name text now sequence in
        IsSound net
        → IsDeliverable wsa encode msg
        → AreConnected wsa encode net r.users
        → (broadcast_chat_message wsa encode sender_id id name text sequence now r net).outbox
          ≡ net.outbox ++ map (framed wsa encode msg) (others id r.users)
  unfolding broadcast_chat_message
  broadcast_tells sender_id id name text sequence now r net v d on =
      outbox-send_to wsa encode (others id r.users) _ net v d
        (others-All (λ (u : User). is_connected (net.slots u.session.client) ≡ true) id r.users on)
