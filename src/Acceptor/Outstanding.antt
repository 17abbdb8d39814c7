-- ===== src/Acceptor/Outstanding.antt =====
-- How many requests to accept are outstanding, and what an early completion does: Acceptor.antt.
use highp_mmorpg.Prelude.{
  ℕ, ◌+◌, ◌≡◌, ap, ◌∙◌, if◌then◌else◌, inl, inr, Bool, true, false, ◌&&◌, Option, none, some, ◌∷◌,
  length, arith, Bool-cases, Option-cases,
}
use highp_mmorpg.Scope.{DeferContext, make_context, hold, find, remove}
use highp_mmorpg.Acceptor.{
  accept, posted, completion_failed, created, Acceptor, Answers, write, issue, keep, post_accept,
  fail_completion, hand_over, clean_up, finish, on_accept_complete,
}
use highp_mmorpg.Acceptor.Pending.{length-remove, find-remove-none}
use highp_mmorpg.Acceptor.Sockets.{post_accept_unmade, post_accept_refused, post_accept_held}
use highp_mmorpg.Acceptor.Completing.{complete_unknown, complete_held}

abbrev pub outstanding : Acceptor → ℕ
outstanding a = length a.holder.items

abbrev pub is_made : Option ℕ → Bool
is_made none = false
is_made (some s) = true

-- A request adds one if its socket is made and AcceptEx starts, and nothing otherwise.
outstanding-post_accept :
    (w : Answers) (a : Acceptor)
    → find w.item a.holder.items ≡ none
    → outstanding (post_accept w a).0
      ≡ outstanding a + (if is_made w.socket && w.started then 1 else 0)
outstanding-post_accept w a fresh = elim (Option-cases w.socket) [
  | inl e ↦ rw (post_accept_unmade w a e, e) (omega arith)
  | inr (t, e) ↦ elim (Bool-cases w.started) [
    | inl started ↦ rw (post_accept_held w a fresh e started, e, started) (omega arith)
    | inr refused ↦ rw (post_accept_refused w a e refused, e, refused) (omega arith)
  ]
]

outstanding-finish :
    (item : ℕ) (c : DeferContext (Unit {0})) (updated : Bool) (w : Answers) (a : Acceptor)
    → find w.item a.holder.items ≡ none
    → outstanding (finish item c updated w a).0
      ≡ outstanding a + (if updated && (is_made w.socket && w.started) then 1 else 0)
unfolding finish clean_up hand_over fail_completion
outstanding-finish item c true w a fresh = outstanding-post_accept w _ fresh
outstanding-finish item c false w a fresh = omega arith

-- The completion of a held item takes its request away, and brings a new one only if the socket's context
-- is updated, a socket is made and AcceptEx starts. After each of these failures there is one request less
-- than before.
pub outstanding-on_accept_complete :
    (item : ℕ) (c : DeferContext (Unit {0})) (updated : Bool) (w : Answers) (a : Acceptor)
    → find item a.holder.items ≡ some c
    → find w.item a.holder.items ≡ none
    → outstanding (on_accept_complete (some (item, accept)) updated w a).0 + 1
      ≡ outstanding a + (if updated && (is_made w.socket && w.started) then 1 else 0)
outstanding-on_accept_complete item c updated w a found fresh =
    let less = record a { holder = record { items = remove item a.holder.items } } in
    rw (complete_held item c updated w a found) (
      omega (
        arith,
        length-remove item c a.holder.items found,
        outstanding-finish item c updated w less
            (find-remove-none w.item item a.holder.items fresh),
      ))

issue_started :
    (w : Answers) (s : ℕ) (a : Acceptor)
    → w.socket ≡ some s
    → w.started ≡ true
    → (issue w a).0 ≡ record a {
      clients = write a.clients w.item (some s);
      trace = posted ∷ (created s ∷ a.trace);
    }
unfolding issue
issue_started w s a e started = ground arith

keep_fresh :
    (item : ℕ) (c : DeferContext (Unit {0})) (a : Acceptor)
    → find item a.holder.items ≡ none
    → keep item c a ≡ record a { holder = record { items = (item, c) ∷ a.holder.items } }
unfolding keep hold
keep_fresh item c a fresh = ground arith

-- The state after a completion that came too early, before the item is held.
abbrev early : Answers → ℕ → Acceptor → Acceptor
early w s a = record a {
  clients = write a.clients w.item (some s);
  trace = completion_failed ∷ (posted ∷ (created s ∷ a.trace));
}

-- AcceptEx starts before the item is held. If another worker handles the completion in between, it finds
-- no item: it reports a failure, and posts no new request. The item is then held with its socket, for a
-- completion that came already; the accepted connection is neither handed over nor closed.
pub early_completion :
    (w : Answers) (s : ℕ) (updated : Bool) (w' : Answers) (a : Acceptor)
    → find w.item a.holder.items ≡ none
    → w.socket ≡ some s
    → w.started ≡ true
    → let c = make_context (some w.item) tt in
      let meanwhile = (on_accept_complete (some (w.item, accept)) updated w' (issue w a).0).0 in
      let a' = keep w.item c meanwhile in
      (a'.trace ≡ completion_failed ∷ (posted ∷ (created s ∷ a.trace)))
      × (a'.holder.items ≡ (w.item, c) ∷ a.holder.items)
      × (a'.clients w.item ≡ some s)
unfolding fail_completion
early_completion w s updated w' a fresh e started =
    let same : keep w.item (make_context (some w.item) tt)
          (on_accept_complete (some (w.item, accept)) updated w' (issue w a).0).0
        ≡ keep w.item (make_context (some w.item) tt) (early w s a) =
      ap (keep w.item (make_context (some w.item) tt)) (
        ap (λ a'. (on_accept_complete (some (w.item, accept)) updated w' a').0)
          (issue_started w s a e started)
        ∙ complete_unknown w.item updated w' _ fresh) in
    let kept = same ∙ keep_fresh w.item (make_context (some w.item) tt) (early w s a) fresh in
    (
      ap (λ a'. a'.trace) kept,
      ap (λ a'. a'.holder.items) kept,
      ap (λ a'. a'.clients w.item) kept ∙ ground arith,
    )
