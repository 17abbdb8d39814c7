-- ===== src/Sockets/Listening.antt =====
-- The sockets and the uses of Winsock that MakeDefaultListener leaves behind: Sockets.antt.
use highp_mmorpg.Prelude.{
  ℕ, ◌+◌, ◌%◌, ◌^◌, ◌≡◌, refl, sym, ap, subst, ◌∙◌, inl, inr, Bool, true, false, not, List, [], ◌∷◌,
  ◌++◌, Option, none, some, Bool-cases, if◌then◌else◌,
}
use highp_mmorpg.NetworkError.{
  Result, ok, err, socket_bind_failed, socket_invalid, socket_listen_failed,
}
use highp_mmorpg.Client.{send_buffer_size}
use highp_mmorpg.Sockets.{
  Call, started, cleaned_up, opened, closed, option_set, bound, listening, Winsock, AsyncSocket,
  call, initialize, keep_socket, create_socket, is_valid_port, call_on, bind, listen, cleanup,
  release, sign_off, set_option, set_options, fresh, or_null, make_default_listener, SocketOption,
  send_buffer, reuse_addr,
}
use highp_mmorpg.Sockets.Balance.{
  is_opened, is_closed, is_started, is_cleaned_up, tally, held, flag, IsBalanced, fresh-IsBalanced,
  call-IsBalanced,
}

-- What MakeDefaultListener leaves: a listening socket that it gives out, or a destroyed one that holds
-- nothing.
pub data Outcome (ws : Winsock) (backlog : ℕ) : Bool × AsyncSocket → Type 0 where
  given_out :
      {s : AsyncSocket} (n : ℕ) (before : List Call)
      → ws.socket ≡ some n
      → s.socket_handle ≡ some n
      → s.wsa_started ≡ true
      → s.calls ≡ before ++ listening n backlog ∷ []
      → IsBalanced s
      → Outcome ws backlog (true, s)
  destroyed :
      {s : AsyncSocket}
      → s.socket_handle ≡ none
      → s.wsa_started ≡ false
      → IsBalanced s
      → Outcome ws backlog (false, s)

-- The socket that Cleanup has closed, before WSACleanup.
release-IsBalanced :
    (handle : Option ℕ) (s : AsyncSocket)
    → s.socket_handle ≡ handle
    → IsBalanced s
    → ((release handle s).socket_handle ≡ none) × IsBalanced (release handle s)
release-IsBalanced none s e b = (e, b)
release-IsBalanced (some n) s e b =
    (refl, call-IsBalanced (closed n) s (release (some n) s) b refl (ap (λ h. 0 + held h) e) refl)

sign_off-destroyed :
    (ws : Winsock) (backlog : ℕ) (s : AsyncSocket)
    → s.socket_handle ≡ none
    → IsBalanced s
    → Outcome ws backlog (false, sign_off s)
sign_off-destroyed ws backlog s free b =
    let t = call cleaned_up (record s { wsa_started = false }) in
    elim (Bool-cases s.wsa_started) [
      | inl on ↦
          subst (λ x. Outcome ws backlog (false, x)) (sym (ap (λ c. if c then t else s) on))
            (destroyed free refl
              (call-IsBalanced cleaned_up s t b refl refl (ap (λ c. 0 + flag c) on)))
      | inr off ↦
          subst (λ x. Outcome ws backlog (false, x)) (sym (ap (λ c. if c then t else s) off))
            (destroyed free off b)
    ]

cleanup-destroyed :
    (ws : Winsock) (backlog : ℕ) (s : AsyncSocket)
    → IsBalanced s
    → Outcome ws backlog (false, cleanup s)
unfolding cleanup
cleanup-destroyed ws backlog s b =
    let (free, b') = release-IsBalanced s.socket_handle s refl b in
    sign_off-destroyed ws backlog (release s.socket_handle s) free b'

-- A step that ends the making of the listener, or hands a socket on.
Passes : (AsyncSocket → Type 0) → Result (Unit {0}) × AsyncSocket → Type 0
Passes P (ok _, s) = P s
Passes P (err _, s) = IsBalanced s

or_null-Outcome :
    (ws : Winsock) (backlog : ℕ) (P : AsyncSocket → Type 0) (r : Result (Unit {0}) × AsyncSocket)
    (next : AsyncSocket → Bool × AsyncSocket)
    → Passes P r
    → ((s : AsyncSocket) → P s → Outcome ws backlog (next s))
    → Outcome ws backlog (or_null r next)
unfolding Passes
or_null-Outcome ws backlog P (ok u, s) next p h = h s p
or_null-Outcome ws backlog P (err e, s) next b h = cleanup-destroyed ws backlog s b

-- What holds of the socket after Initialize, after CreateSocket and up to Listen.
record IsStarted (s : AsyncSocket) : Type 0 where
  balanced : IsBalanced s
  free : s.socket_handle ≡ none
  on : s.wsa_started ≡ true

record IsOpen (ws : Winsock) (s : AsyncSocket) : Type 0 where
  balanced : IsBalanced s
  number : ℕ
  given : ws.socket ≡ some number
  holds : s.socket_handle ≡ some number
  on : s.wsa_started ≡ true

initialize-Passes : (ws : Winsock) → Passes IsStarted (initialize ws fresh)
unfolding Passes initialize
initialize-Passes ws = elim (Bool-cases ws.starts) [
  | inl e ↦ rw e (record {
    balanced = call-IsBalanced started fresh _ fresh-IsBalanced refl refl refl;
    free = refl;
    on = refl;
  })
  | inr e ↦ rw e fresh-IsBalanced
]

keep_socket-Passes :
    (ws : Winsock) (handle : Option ℕ) (e : ℕ) (s : AsyncSocket)
    → ws.socket ≡ handle
    → IsStarted s
    → Passes (IsOpen ws) (keep_socket handle e s)
unfolding Passes keep_socket
keep_socket-Passes ws none e s g h = record {
  sockets = h.balanced.sockets ∙ ap (λ o. tally is_closed s.calls + held o) h.free;
  uses = h.balanced.uses;
}
keep_socket-Passes ws (some n) e s g h = record {
  balanced =
      call-IsBalanced (opened n) s (call (opened n) (record s { socket_handle = some n }))
        h.balanced refl (ap (λ o. 1 + held o) h.free) refl;
  number = n;
  given = g;
  holds = refl;
  on = h.on;
}

-- A call that leaves what the socket holds.
call-IsOpen :
    (ws : Winsock) (c : Call) (s : AsyncSocket)
    → is_opened c ≡ is_closed c
    → is_started c ≡ is_cleaned_up c
    → IsOpen ws s
    → IsOpen ws (call c s)
call-IsOpen ws c s e k h = record {
  balanced =
      call-IsBalanced c s (call c s) h.balanced refl (ap (λ n. n + held s.socket_handle) e)
        (ap (λ n. n + flag s.wsa_started) k);
  number = h.number;
  given = h.given;
  holds = h.holds;
  on = h.on;
}

-- Both branches of a test.
on_branches :
    {A : Type 0} (P : A → Type 0) (b : Bool) (x y : A) → P x → P y → P (if b then x else y)
on_branches P true x y h k = h
on_branches P false x y h k = k

set_option-IsOpen :
    (ws : Winsock) (n : ℕ) (o : SocketOption) (s : AsyncSocket)
    → IsOpen ws s
    → IsOpen ws (set_option ws n o s).1
unfolding set_option
set_option-IsOpen ws n o s h =
    on_branches (λ (r : Bool × AsyncSocket). IsOpen ws r.1) (ws.sets o)
      (true, call (option_set n o) s) (false, s) (call-IsOpen ws (option_set n o) s refl refl h) h

set_options-IsOpen :
    (ws : Winsock) (handle : Option ℕ) (s : AsyncSocket)
    → IsOpen ws s
    → IsOpen ws (set_options ws handle s)
unfolding set_options
set_options-IsOpen ws none s h = h
set_options-IsOpen ws (some n) s h =
    set_option-IsOpen ws n (send_buffer send_buffer_size) _
      (set_option-IsOpen ws n (reuse_addr true) s h)

bind_on-Passes :
    (ws : Winsock) (handle : Option ℕ) (port : ℕ) (s : AsyncSocket)
    → IsOpen ws s
    → Passes
        (IsOpen ws)
        (call_on handle ws.binds socket_bind_failed socket_bind_failed (λ n. bound n port) s)
unfolding Passes call_on
bind_on-Passes ws none port s h = h.balanced
bind_on-Passes ws (some n) port s h =
    on_branches (Passes (IsOpen ws)) ws.binds (ok tt, call (bound n port) s)
      (err socket_bind_failed, s) (call-IsOpen ws (bound n port) s refl refl h) h.balanced

bind-Passes :
    (ws : Winsock) (port : ℕ) (s : AsyncSocket) → IsOpen ws s → Passes (IsOpen ws) (bind ws port s)
unfolding Passes bind
bind-Passes ws port s h =
    on_branches (Passes (IsOpen ws)) (not (is_valid_port port)) (ok tt, s) _ h
      (bind_on-Passes ws s.socket_handle port s h)

listen_on-Outcome :
    (ws : Winsock) (handle : Option ℕ) (backlog : ℕ) (s : AsyncSocket)
    → s.socket_handle ≡ handle
    → ws.socket ≡ handle
    → IsOpen ws s
    → Outcome ws backlog (
        or_null
          (call_on handle ws.listens socket_invalid socket_listen_failed
            (λ n. listening n backlog)
            s)
          (λ s'. (true, s')))
unfolding call_on
listen_on-Outcome ws none backlog s e g h = cleanup-destroyed ws backlog s h.balanced
listen_on-Outcome ws (some n) backlog s e g h =
    on_branches
      (λ (r : Result (Unit {0}) × AsyncSocket). Outcome ws backlog (or_null r (λ s'. (true, s'))))
      ws.listens (ok tt, call (listening n backlog) s) (err socket_listen_failed, s)
      (given_out n s.calls g e h.on refl
        (call-IsOpen ws (listening n backlog) s refl refl h).balanced)
      (cleanup-destroyed ws backlog s h.balanced)

-- Whatever Winsock answers, MakeDefaultListener leaves no socket and no use of Winsock behind: it gives out
-- the socket that was opened, with `listen` as the last call on it, or all that was opened is closed and
-- all that was begun is ended.
pub make_default_listener-Outcome :
    (ws : Winsock) (port backlog : ℕ) → Outcome ws backlog (make_default_listener ws port backlog)
unfolding make_default_listener create_socket listen
make_default_listener-Outcome ws port backlog =
    or_null-Outcome ws backlog IsStarted (initialize ws fresh) _ (initialize-Passes ws) (λ s₁ h₁.
      or_null-Outcome ws backlog (IsOpen ws) (create_socket ws s₁) _
        (keep_socket-Passes ws ws.socket ws.last_error s₁ refl h₁)
        (λ s₂ h₂.
          or_null-Outcome ws backlog (IsOpen ws) _ _
            (bind-Passes ws (port % 2 ^ 16) _ (set_options-IsOpen ws s₂.socket_handle s₂ h₂))
            (λ s₃ h₃.
              listen_on-Outcome ws s₃.socket_handle backlog s₃ refl (h₃.given ∙ sym h₃.holds) h₃)))
