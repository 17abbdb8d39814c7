-- ===== src/ChatClient/Orderly.antt =====
-- The order of the packets that the console sends: ChatClient/Cli.antt.
use highp_mmorpg.Prelude.{
  ℕ, ◌+◌, ◌%◌, ◌^◌, ◌≡◌, refl, sym, ap, ◌∙◌, ◌==◌, if◌then◌else◌, inl, inr, Bool, true, false, List,
  [], ◌∷◌, ◌++◌, arith, Bool-cases,
}
use highp_mmorpg.Config.Text.{Text, is_empty, starts}
use highp_mmorpg.ChatClient.{Client, take_sequence, send}
use highp_mmorpg.ChatClient.Cli.{
  Request, join_room, leave_room, message, Network, send_request, Cli, ask, send_join_room,
  send_leave, send_message, Command, quit, help, join, leave, unknown, parse_command, Action,
  continue, stop, obey, handle_command, handle_chat, handle_line, run,
}

-- The requests read from the beginning: whether the user is in a room after them, and the number that
-- the next one has. A request out of order, or with another number, ends it.
pub data View : Type 0 where
  seen : Bool → ℕ → View
  broken : View

abbrev pub view_step : View → Request → View
view_step broken r = broken
view_step (seen true n) (join_room s name) = broken
view_step (seen false n) (join_room s name) =
    if s == n then seen true ((n + 1) % 2 ^ 32) else broken
view_step (seen false n) (leave_room s) = broken
view_step (seen true n) (leave_room s) = if s == n then seen false ((n + 1) % 2 ^ 32) else broken
view_step (seen false n) (message s name text) = broken
view_step (seen true n) (message s name text) =
    if s == n then seen true ((n + 1) % 2 ^ 32) else broken

unfoldable pub view : View → List Request → View
view v [] = v
view v (r ∷ rs) = view (view_step v r) rs

view-append :
    (v : View) (rs : List Request) (r : Request) → view v (rs ++ r ∷ []) ≡ view_step (view v rs) r
unfolding view
view-append v [] r = refl
view-append v (x ∷ rs) r = view-append (view_step v x) rs r

-- The console agrees with what its requests show.
unfoldable pub IsOrderly : ℕ → Cli → Type 0
IsOrderly first cli =
    view (seen false first) cli.requests ≡ seen cli.joined cli.client.next_sequence

next-send_request :
    (net : Network) (sequence : ℕ) (r : Request) (c : Client)
    → (send_request net sequence r c).next_sequence ≡ c.next_sequence
unfolding send_request send
next-send_request net sequence r c = ground arith

-- One packet more, with the number that the client gives out.
module _ (net : Network) (first : ℕ) (r : Request) (cli : Cli) (h : IsOrderly first cli) where
  view-ask :
      (joined joined' : Bool)
      → cli.joined ≡ joined
      → view_step (seen joined cli.client.next_sequence) r
        ≡ seen joined' ((cli.client.next_sequence + 1) % 2 ^ 32)
      → let (sequence, c) = take_sequence cli.client in
        IsOrderly first (record (ask net sequence r c cli) { joined = joined' })
  unfolding take_sequence IsOrderly
  view-ask joined joined' was fits =
      let (sequence, c) = take_sequence cli.client in
      view-append (seen false first) cli.requests r
      ∙ (ap (λ v. view_step v r) (h ∙ ap (λ b. seen b cli.client.next_sequence) was)
          ∙ (fits ∙ ap (seen joined') (sym (next-send_request net sequence r c))))

-- Both branches of a test on a flag.
by_flag :
    (first : ℕ) (b : Bool) (x y : Cli × Action)
    → (b ≡ true → IsOrderly first x.0)
    → (b ≡ false → IsOrderly first y.0)
    → IsOrderly first (if b then x else y).0
by_flag first true x y h k = h refl
by_flag first false x y h k = k refl

obey-IsOrderly :
    (net : Network) (first : ℕ) (command : Command) (cli : Cli)
    → IsOrderly first cli
    → IsOrderly first (obey net command cli).0
unfolding obey send_join_room send_leave take_sequence
obey-IsOrderly net first quit cli h = h
obey-IsOrderly net first help cli h = h
obey-IsOrderly net first unknown cli h = h
obey-IsOrderly net first join cli h =
    by_flag first cli.joined _ _ (λ e. h)
      (λ e.
        view-ask net first (join_room cli.client.next_sequence cli.nickname) cli h false true e
          (ground arith))
obey-IsOrderly net first leave cli h =
    by_flag first cli.joined _ _
      (λ e.
        view-ask net first (leave_room cli.client.next_sequence) cli h true false e (ground arith))
      (λ e. h)

by_joined :
    (first : ℕ) (b : Bool) (x y : Cli)
    → (b ≡ true → IsOrderly first x)
    → (b ≡ false → IsOrderly first y)
    → IsOrderly first (if b then x else y)
by_joined first true x y h k = h refl
by_joined first false x y h k = k refl

handle_chat-IsOrderly :
    (net : Network) (first : ℕ) (line : Text) (cli : Cli)
    → IsOrderly first cli
    → IsOrderly first (handle_chat net line cli).0
unfolding handle_chat send_message take_sequence
handle_chat-IsOrderly net first line cli h =
    let packet = message cli.client.next_sequence cli.nickname line in
    let fits =
      λ (e : cli.joined ≡ true). view-ask net first packet cli h true cli.joined e (ground arith) in
    by_joined first cli.joined _ _ fits (λ e. h)

handle_line-IsOrderly :
    (net : Network) (first : ℕ) (line : Text) (cli : Cli)
    → IsOrderly first cli
    → IsOrderly first (handle_line net line cli).0
unfolding handle_line handle_command
handle_line-IsOrderly net first line cli h = elim (Bool-cases (is_empty line)) [
  | inl e ↦ rw e h
  | inr e ↦ elim (Bool-cases (starts b'/' line)) [
    | inl slash ↦ rw (e, slash) (obey-IsOrderly net first (parse_command line) cli h)
    | inr text ↦ rw (e, text) (handle_chat-IsOrderly net first line cli h)
  ]
]

by_action :
    (first : ℕ) (a : Action) (x y : Cli)
    → IsOrderly first x
    → IsOrderly first y
    → IsOrderly first (elim a [ continue ↦ x | stop ↦ y ])
by_action first continue x y h k = h
by_action first stop x y h k = k

-- From a console whose flag and next number agree with the requests it made so far, whatever lines are
-- typed, the requests it makes (sent or not) are in order and numbered one after the other, modulo 2^32: a
-- join only when no other join is open, a leave or a message only between a join and the next leave. The
-- flag and the next number agree with them at the end.
pub run-IsOrderly :
    (net : Network) (first : ℕ) (lines : List Text) (cli : Cli)
    → IsOrderly first cli
    → IsOrderly first (run net lines cli)
unfolding run
run-IsOrderly net first [] cli h = h
run-IsOrderly net first (line ∷ lines) cli h =
    let next = handle_line-IsOrderly net first line cli h in
    by_action first (handle_line net line cli).1 _ _
      (run-IsOrderly net first lines (handle_line net line cli).0 next) next
