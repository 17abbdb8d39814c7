-- ===== src/Acceptor/Completing.antt =====
-- A completion accounts for its socket: Acceptor.antt.
use highp_mmorpg.Prelude.{
  ℕ, ◌≡◌, sym, ap, subst, ◌==◌, ==_iff, inl, inr, Bool, true, false, Option, none, some, arith,
  Bool-cases, Option-cases,
}
use highp_mmorpg.Scope.{DeferContext, release, find, remove}
use highp_mmorpg.Acceptor.{
  IoType, accept, recv, send, Acceptor, Answers, post_accept, fail_completion, hand_over, finish,
  on_accept_complete,
}
use highp_mmorpg.Acceptor.Pending.{Items, find-remove-none}
use highp_mmorpg.Acceptor.Sockets.{
  tally, IsAccounted, IsOwing, post_accept_unmade, post_accept_refused, post_accept_held,
  post_accept-IsAccounted, release-IsOwing, clean_up-IsAccounted, given-IsAccounted,
}

-- PostAccept leaves the items alone that it was not given.
Untouched : ℕ → Acceptor → Type 0
Untouched item a = (a.clients item ≡ none) × (find item a.holder.items ≡ none)

post_accept-Untouched :
    (w : Answers) (a : Acceptor) (item : ℕ)
    → (w.item == item) ≡ false
    → find w.item a.holder.items ≡ none
    → Untouched item a
    → Untouched item (post_accept w a).0
unfolding Untouched find
post_accept-Untouched w a item apart fresh h = elim (Option-cases w.socket) [
  | inl e ↦ subst (Untouched item) (sym (post_accept_unmade w a e)) h
  | inr (t, e) ↦ elim (Bool-cases w.started) [
    | inl started ↦
        subst (Untouched item) (sym (post_accept_held w a fresh e started))
          (ground arith, ground arith)
    | inr refused ↦
        subst (Untouched item) (sym (post_accept_refused w a e refused)) (ground arith, h.1)
  ]
]

-- What is accounted for, and has nothing in an item that is not held, owes nothing for that item.
owe_nothing : (item : ℕ) (a : Acceptor) → Untouched item a → IsAccounted a → IsOwing item a
unfolding Untouched
owe_nothing item a free h = record {
  bound = h.bound;
  gone = free.1;
  distinct = h.distinct;
  accounted = λ s. rw (free.0) (omega (arith, h.accounted s));
}

pub ne_of_find :
    (i j : ℕ) (items : Items) {c : DeferContext (Unit {0})}
    → find i items ≡ none
    → find j items ≡ some c
    → (i == j) ≡ false
ne_of_find i j items h k = elim (Bool-cases (i == j)) [
  | inl e ↦ absurd (cc (ap (λ n. find n items) ((==_iff i j).0 e)))
  | inr e ↦ e
]

hand_over-IsOwing :
    (item : ℕ) (w : Answers) (a : Acceptor)
    → (w.item == item) ≡ false
    → find w.item a.holder.items ≡ none
    → IsOwing item a
    → IsOwing item (hand_over item w a).0
unfolding hand_over Untouched
hand_over-IsOwing item w a apart fresh o =
    owe_nothing item _ (post_accept-Untouched w _ item apart fresh (ground arith, o.gone))
      (post_accept-IsAccounted w _ fresh (given-IsAccounted item a o))

fail_completion-IsOwing :
    (item : ℕ) (a : Acceptor) → IsOwing item a → IsOwing item (fail_completion a).0
unfolding fail_completion tally
fail_completion-IsOwing item a o = record {
  bound = o.bound;
  gone = o.gone;
  distinct = o.distinct;
  accounted = λ s. omega (arith, o.accounted s);
}

fail_completion-IsAccounted : (a : Acceptor) → IsAccounted a → IsAccounted (fail_completion a).0
unfolding fail_completion tally
fail_completion-IsAccounted a h = record {
  bound = h.bound;
  distinct = h.distinct;
  accounted = λ s. omega (arith, h.accounted s);
}

finish-IsAccounted :
    (item : ℕ) (c : DeferContext (Unit {0})) (updated : Bool) (w : Answers) (a : Acceptor)
    → (w.item == item) ≡ false
    → find w.item a.holder.items ≡ none
    → IsOwing item a
    → IsAccounted (finish item c updated w a).0
unfolding finish
finish-IsAccounted item c true w a apart fresh o =
    clean_up-IsAccounted item c _ (hand_over-IsOwing item w a apart fresh o)
finish-IsAccounted item c false w a apart fresh o =
    clean_up-IsAccounted item c _ (fail_completion-IsOwing item a o)

-- OnAcceptComplete for an item that is not held, and for one that is.
pub complete_unknown :
    (item : ℕ) (updated : Bool) (w : Answers) (a : Acceptor)
    → find item a.holder.items ≡ none
    → (on_accept_complete (some (item, accept)) updated w a).0 ≡ (fail_completion a).0
unfolding on_accept_complete release
complete_unknown item updated w a gone = ground arith

pub complete_held :
    (item : ℕ) (c : DeferContext (Unit {0})) (updated : Bool) (w : Answers) (a : Acceptor)
    → find item a.holder.items ≡ some c
    → (on_accept_complete (some (item, accept)) updated w a).0
      ≡ (finish item c updated w
          (record a { holder = record { items = remove item a.holder.items } })).0
unfolding on_accept_complete release
complete_held item c updated w a found = ground arith

pub on_accept_complete-IsAccounted :
    (overlapped : Option (ℕ × IoType)) (updated : Bool) (w : Answers) (a : Acceptor)
    → find w.item a.holder.items ≡ none
    → IsAccounted a
    → IsAccounted (on_accept_complete overlapped updated w a).0
unfolding on_accept_complete release
on_accept_complete-IsAccounted none updated w a fresh h = fail_completion-IsAccounted a h
on_accept_complete-IsAccounted (some (item, recv)) updated w a fresh h =
    fail_completion-IsAccounted a h
on_accept_complete-IsAccounted (some (item, send)) updated w a fresh h =
    fail_completion-IsAccounted a h
on_accept_complete-IsAccounted (some (item, accept)) updated w a fresh h =
    elim (Option-cases (find item a.holder.items)) [
      | inl gone ↦
          subst IsAccounted (sym (complete_unknown item updated w a gone))
            (fail_completion-IsAccounted a h)
      | inr (c, found) ↦ subst IsAccounted (sym (complete_held item c updated w a found)) (
          finish-IsAccounted item c updated w
            (record a { holder = record { items = remove item a.holder.items } })
            (ne_of_find w.item item a.holder.items fresh found)
            (find-remove-none w.item item a.holder.items fresh) (release-IsOwing item c a found h))
    ]
