-- ===== src/Chat/UserManager/Slots.antt =====
-- `UserManager::CreateUser` makes at most one user for a pooled slot.
use highp_mmorpg.Prelude.{
  ℕ, ◌≡◌, ◌≢◌, refl, sym, ap, subst, true, List, [], ◌∷◌, Option, none, some, arith, All, inl, inr,
  ◌==◌, Bool-cases, Option-cases,
}
use highp_mmorpg.Chat.Session.{Session, User, Net, is_same_session, same_socket, is_same_client}
use highp_mmorpg.Chat.SessionManager.{
  SessionManager, second, assign, erase_key, find_if, get_session_by_client,
}
use highp_mmorpg.Chat.UserManager.{
  UserManager, create_user, get_user_by_client, remove_user_by_user_id,
}

pub same_socket_refl : (s : Option ℕ) → same_socket s s ≡ true
same_socket_refl none = refl
same_socket_refl (some a) = ground arith

-- No user of the table has a session on the slot.
abbrev pub Away : ℕ → List (ℕ × User) → Type 0
Away slot us = All (λ (entry : ℕ × User). entry.1.session.client ≢ slot) us

-- No two users have a session on the same slot.
abbrev pub AreApart : List (ℕ × User) → Type 0
AreApart [] = Unit
AreApart ((k, u) ∷ us) = Away u.session.client us × AreApart us

-- `GetUserByClient` finds no user only if none is on the slot.
pub get_user_by_client-Away :
    (net : Net) (slot other : ℕ) (us : List (ℕ × User))
    → same_socket (net.slots other).socket (net.slots slot).socket ≡ true
    → second (find_if (λ entry. is_same_client net entry.1 slot) us) ≡ none
    → Away other us
get_user_by_client-Away net slot other [] same e = tt
get_user_by_client-Away net slot other ((k, u) ∷ us) same e =
    elim (Bool-cases (is_same_client net u slot)) [
      | inl here ↦ absurd (ground arith)
      | inr away ↦ (
        λ at.
            absurd (
              ground
                (arith, ap (λ k. same_socket (net.slots k).socket (net.slots slot).socket) at)),
        get_user_by_client-Away net slot other us same (ground arith),
      )
    ]

assign-Away :
    (key slot : ℕ) (u : User) (us : List (ℕ × User))
    → Away slot us
    → u.session.client ≢ slot
    → Away slot (assign key u us)
assign-Away key slot u [] h k = (k, tt)
assign-Away key slot u ((j, v) ∷ us) h k = elim (Bool-cases (j == key)) [
  | inl here ↦ rw here (k, h.1)
  | inr away ↦ rw away (h.0, assign-Away key slot u us h.1 k)
]

assign-AreApart :
    (key : ℕ) (u : User) (us : List (ℕ × User))
    → Away u.session.client us
    → AreApart us
    → AreApart (assign key u us)
assign-AreApart key u [] h k = (tt, tt)
assign-AreApart key u ((j, v) ∷ us) h k = elim (Bool-cases (j == key)) [
  | inl here ↦ rw here (h.1, k.1)
  | inr away ↦ rw away (
    assign-Away key v.session.client u us k.0 (λ e. h.0 (sym e)),
    assign-AreApart key u us h.1 k.1,
  )
]

erase_key-Away : (key slot : ℕ) (us : List (ℕ × User)) → Away slot us → Away slot (erase_key key us)
erase_key-Away key slot [] h = tt
erase_key-Away key slot ((j, v) ∷ us) h = elim (Bool-cases (j == key)) [
  | inl here ↦ rw here h.1
  | inr away ↦ rw away (h.0, erase_key-Away key slot us h.1)
]

-- Removing a user keeps the users apart.
pub remove-AreApart :
    (id : ℕ) (m : UserManager) → AreApart m.users → AreApart (remove_user_by_user_id id m).users
unfolding remove_user_by_user_id
remove-AreApart id m h = erased m.users h
  where
    erased : (us : List (ℕ × User)) → AreApart us → AreApart (erase_key id us)
    erased [] h = tt
    erased ((j, v) ∷ us) h = elim (Bool-cases (j == id)) [
      | inl here ↦ rw here h.1
      | inr away ↦ rw away (erase_key-Away id v.session.client us h.0, erased us h.1)
    ]

session_same :
    (net : Net) (sessions : SessionManager) (slot : ℕ) (session : Session)
    → get_session_by_client net slot sessions ≡ some session
    → same_socket (net.slots session.client).socket (net.slots slot).socket ≡ true
unfolding get_session_by_client
session_same net sessions slot session e = found sessions.sessions e
  where
    found :
        (us : List (ℕ × Session))
        → second (find_if (λ entry. is_same_session net entry.1 slot) us) ≡ some session
        → same_socket (net.slots session.client).socket (net.slots slot).socket ≡ true
    found [] f = absurd (ground arith)
    found ((k, s) ∷ us) f = elim (Bool-cases (is_same_session net s slot)) [
      | inl here ↦
          let same : s ≡ session = ground arith in
          subst (λ (x : Session). is_same_session net x slot ≡ true) same here
      | inr away ↦ found us (ground arith)
    ]

-- `CreateUser` makes no second user for a slot, whatever the sockets of the slots are: if no two
-- users were on the same slot, no two are, with the new one among them.
pub create_user-AreApart :
    (net : Net) (sessions : SessionManager) (slot : ℕ) (name : List ℕ) (room_id : ℕ)
    (m : UserManager)
    → AreApart m.users
    → AreApart (create_user net sessions slot name room_id m).1.users
unfolding create_user get_user_by_client
create_user-AreApart net sessions slot name room_id m h =
    elim (Option-cases (get_session_by_client net slot sessions)) [
      | inl e ↦ rw (e, create_user) h
      | inr (session, e) ↦ elim (Option-cases (get_user_by_client net slot m)) [
        | inl f ↦
            rw (e, f, create_user)
              (assign-AreApart m.user_id_counter _ m.users
                (get_user_by_client-Away net slot session.client m.users
                  (session_same net sessions slot session e) f)
                h)
        | inr (existing, f) ↦ rw (e, f, create_user) h
      ]
    ]
