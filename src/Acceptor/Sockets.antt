-- ===== src/Acceptor/Sockets.antt =====
-- No accept socket is lost: Acceptor.antt.
use highp_mmorpg.Prelude.{
  ℕ, ◌+◌, ◌≡◌, refl, sym, subst, inl, inr, true, false, Option, none, some, List, [], ◌∷◌, ◌++◌,
  arith, Bool-cases, Option-cases,
}
use highp_mmorpg.Scope.{DeferContext, make_context, destroy, hold, find, remove}
use highp_mmorpg.Acceptor.{
  Effect, created, closed, handed, given_back, posted, post_failed, Acceptor, Answers, given, write,
  close_socket, give_back, issue, keep, post_accept, clean_up,
}
use highp_mmorpg.Acceptor.Pending.{
  is_socket, held, IsDistinct, held-write, held-remove, find-remove, remove-IsDistinct,
}

-- How often a socket was made, and how often it was closed or handed to the accept callback.
abbrev pub made : ℕ → Effect → ℕ
made s (created t) = is_socket s (some t)
made s _ = 0

abbrev pub done : ℕ → Effect → ℕ
done s (closed t) = is_socket s (some t)
done s (handed t) = is_socket s t
done s _ = 0

unfoldable pub tally : (Effect → ℕ) → List Effect → ℕ
tally f [] = 0
tally f (e ∷ es) = f e + tally f es

pub tally-append :
    (f : Effect → ℕ) (xs ys : List Effect) → tally f (xs ++ ys) ≡ tally f xs + tally f ys
unfolding tally
tally-append f [] ys = omega arith
tally-append f (x ∷ xs) ys = omega (arith, tally-append f xs ys)

-- Each socket that was made is closed, handed over, or waits in a held item, and in one of these ways
-- only.
pub record IsAccounted (a : Acceptor) : Type 0 where
  pub bound : a.callback ≡ true
  pub distinct : IsDistinct a.holder.items
  pub accounted :
      (s : ℕ) → tally (made s) a.trace ≡ tally (done s) a.trace + held a.clients s a.holder.items

-- PostAccept in its three outcomes.
module _ (w : Answers) (a : Acceptor) where
  pub post_accept_unmade :
      w.socket ≡ none → (post_accept w a).0 ≡ record a { trace = post_failed ∷ a.trace }
  unfolding post_accept issue
  post_accept_unmade e = ground arith

  pub post_accept_refused :
      {s : ℕ}
      → w.socket ≡ some s
      → w.started ≡ false
      → (post_accept w a).0 ≡ record a {
        clients = write a.clients w.item (some s);
        trace = closed s ∷ (given_back (some w.item) ∷ (post_failed ∷ (created s ∷ a.trace)));
      }
  unfolding post_accept issue make_context destroy
  post_accept_refused e refused = ground arith

  pub post_accept_held :
      {s : ℕ}
      → find w.item a.holder.items ≡ none
      → w.socket ≡ some s
      → w.started ≡ true
      → (post_accept w a).0 ≡ record a {
        clients = write a.clients w.item (some s);
        holder = record { items = (w.item, make_context (some w.item) tt) ∷ a.holder.items };
        trace = posted ∷ (created s ∷ a.trace);
      }
  unfolding post_accept issue keep hold
  post_accept_held fresh e started = ground arith

pub post_accept-IsAccounted :
    (w : Answers) (a : Acceptor)
    → find w.item a.holder.items ≡ none
    → IsAccounted a
    → IsAccounted (post_accept w a).0
unfolding tally held IsDistinct
post_accept-IsAccounted w a fresh h = elim (Option-cases w.socket) [
  | inl e ↦ subst IsAccounted (sym (post_accept_unmade w a e)) (record {
    bound = h.bound;
    distinct = h.distinct;
    accounted = λ s. omega (arith, h.accounted s);
  })
  | inr (t, e) ↦ elim (Bool-cases w.started) [
    | inl started ↦ subst IsAccounted (sym (post_accept_held w a fresh e started)) (record {
      bound = h.bound;
      distinct = (fresh, h.distinct);
      accounted =
          λ s. ground (arith, h.accounted s, held-write a.clients w.item s (some t) a.holder.items);
    })
    | inr refused ↦ subst IsAccounted (sym (post_accept_refused w a e refused)) (record {
      bound = h.bound;
      distinct = h.distinct;
      accounted =
          λ s. ground (arith, h.accounted s, held-write a.clients w.item s (some t) a.holder.items);
    })
  ]
]

-- A state whose item was taken out of the holder, and which still owes that item's socket.
pub record IsOwing (item : ℕ) (a : Acceptor) : Type 0 where
  pub bound : a.callback ≡ true
  pub gone : find item a.holder.items ≡ none
  pub distinct : IsDistinct a.holder.items
  pub accounted :
      (s : ℕ)
      → tally (made s) a.trace
        ≡ tally (done s) a.trace + is_socket s (a.clients item) + held a.clients s a.holder.items

pub release-IsOwing :
    (item : ℕ) (c : DeferContext (Unit {0})) (a : Acceptor)
    → find item a.holder.items ≡ some c
    → IsAccounted a
    → IsOwing item (record a { holder = record { items = remove item a.holder.items } })
release-IsOwing item c a found h = record {
  bound = h.bound;
  gone = find-remove item a.holder.items h.distinct;
  distinct = remove-IsDistinct item a.holder.items h.distinct;
  accounted =
      λ s. omega (arith, h.accounted s, held-remove a.clients item s c a.holder.items found);
}

give_back_undone :
    (s : ℕ) (calls : List (Unit {0} × Option ℕ))
    → (tally (made s) (give_back calls) ≡ 0) × (tally (done s) (give_back calls) ≡ 0)
unfolding tally
give_back_undone s [] = (refl, refl)
give_back_undone s (call ∷ calls) =
    let ih = give_back_undone s calls in (omega (arith, ih.0), omega (arith, ih.1))

close_socket-done :
    (s : ℕ) (o : Option ℕ)
    → (tally (made s) (close_socket o) ≡ 0) × (tally (done s) (close_socket o) ≡ is_socket s o)
unfolding tally
close_socket-done s none = (refl, refl)
close_socket-done s (some t) = (refl, omega arith)

-- The clean-up closes what is owed.
pub clean_up-IsAccounted :
    (item : ℕ) (c : DeferContext (Unit {0})) (a : Acceptor)
    → IsOwing item a
    → IsAccounted (clean_up item c a)
unfolding clean_up
clean_up-IsAccounted item c a o = record {
  bound = o.bound;
  distinct = o.distinct;
  accounted = λ s. omega (
    arith,
    o.accounted s,
    tally-append (made s) (give_back (destroy c)) (close_socket (a.clients item) ++ a.trace),
    tally-append (made s) (close_socket (a.clients item)) a.trace,
    tally-append (done s) (give_back (destroy c)) (close_socket (a.clients item) ++ a.trace),
    tally-append (done s) (close_socket (a.clients item)) a.trace,
    give_back_undone s (destroy c),
    close_socket-done s (a.clients item),
  );
}

-- Handing over: what is owed goes to the callback.
pub given-IsAccounted : (item : ℕ) (a : Acceptor) → IsOwing item a → IsAccounted (given item a)
unfolding tally
given-IsAccounted item a o = record {
  bound = o.bound;
  distinct = o.distinct;
  accounted = λ s.
      rw o.bound
        (omega (arith, o.accounted s, held-write a.clients item s none a.holder.items o.gone));
}
