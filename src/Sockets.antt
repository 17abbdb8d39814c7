-- ===== src/Sockets.antt =====
-- Listening sockets and socket options: WindowsAsyncSocket.cpp, SocketHelper.cpp and
-- SocketOptionBuilder.cpp of network/src/socket. What Winsock answers is an argument.
pub mod Balance
pub mod Listening
use highp_mmorpg.Prelude.{
  ℕ, ◌==◌, ◌≤◌, ◌%◌, ◌^◌, Bool, true, false, not, ◌&&◌, List, [], ◌∷◌, ◌++◌, Option, none, some,
  ltb, leb, if◌then◌else◌,
}
use highp_mmorpg.NetworkError.{
  NetworkError, Result, ok, err, wsa_startup_failed, wsa_not_initialized,
  wsa_network_sub_system_failed, wsa_not_supported_address_family, wsa_invalid_args,
  wsa_lack_file_descriptor, wsa_no_buffer_space, wsa_not_supported_protocol, socket_invalid,
  socket_bind_failed, socket_listen_failed,
}
use highp_mmorpg.Client.{send_buffer_size}

pub data SocketOption : Type 0 where
  reuse_addr broadcast tcp_no_delay keep_alive : Bool → SocketOption
  send_buffer recv_buffer send_timeout recv_timeout ttl : ℕ → SocketOption
  update_accept_context : ℕ → SocketOption
  keep_alive_values linger : ℕ → ℕ → SocketOption

-- The calls of Winsock that succeeded and matter: a socket is known by its number.
pub data Call : Type 0 where
  started cleaned_up : Call
  opened closed : ℕ → Call
  option_set : ℕ → SocketOption → Call
  bound listening : ℕ → ℕ → Call

pub record Winsock : Type 0 where
  pub starts : Bool
  pub socket : Option ℕ
  pub last_error : ℕ
  pub sets : SocketOption → Bool
  pub binds : Bool
  pub listens : Bool

-- `WindowsAsyncSocket`, with the calls so far, oldest first.
pub record AsyncSocket : Type 0 where
  pub socket_handle : Option ℕ
  pub wsa_started : Bool
  pub calls : List Call

abbrev pub call : Call → AsyncSocket → AsyncSocket
call c s = record s { calls = s.calls ++ c ∷ [] }

unfoldable pub initialize : Winsock → AsyncSocket → Result (Unit {0}) × AsyncSocket
initialize ws s =
    if s.wsa_started
    then (ok tt, s)
    else if ws.starts
    then (ok tt, call started (record s { wsa_started = true }))
    else (err wsa_startup_failed, s)

-- LogErrorByWSAStartupResult of lib/inc/error/Errors.hpp.
unfoldable pub startup_error : ℕ → NetworkError
startup_error e =
    if e == 10093
    then wsa_not_initialized
    else if e == 10050
    then wsa_network_sub_system_failed
    else if e == 10047
    then wsa_not_supported_address_family
    else if e == 10022
    then wsa_invalid_args
    else if e == 10024
    then wsa_lack_file_descriptor
    else if e == 10055
    then wsa_no_buffer_space
    else if e == 10043
    then wsa_not_supported_protocol
    else wsa_startup_failed

-- What CreateSocket does with the socket that WSASocket gives.
unfoldable pub keep_socket : Option ℕ → ℕ → AsyncSocket → Result (Unit {0}) × AsyncSocket
unfolding startup_error
keep_socket none e s = (err (startup_error e), record s { socket_handle = none })
keep_socket (some n) e s = (ok tt, call (opened n) (record s { socket_handle = some n }))

unfoldable pub create_socket : Winsock → AsyncSocket → Result (Unit {0}) × AsyncSocket
unfolding keep_socket
create_socket ws s = keep_socket ws.socket ws.last_error s

abbrev pub is_valid_port : ℕ → Bool
is_valid_port port = ltb 0 port && leb port 65535

-- A call of Winsock on the socket, which fails on INVALID_SOCKET.
unfoldable pub call_on :
    Option ℕ
    → (succeeds : Bool) → (invalid failed : NetworkError) → (ℕ → Call)
    → AsyncSocket
    → Result (Unit {0}) × AsyncSocket
call_on none succeeds invalid failed c s = (err invalid, s)
call_on (some n) succeeds invalid failed c s =
    if succeeds then (ok tt, call (c n) s) else (err failed, s)

unfoldable pub bind : Winsock → ℕ → AsyncSocket → Result (Unit {0}) × AsyncSocket
unfolding call_on
bind ws port s =
    if not (is_valid_port port)
    then (ok tt, s)
    else call_on s.socket_handle ws.binds socket_bind_failed socket_bind_failed (λ n. bound n port)
        s

unfoldable pub listen : Winsock → ℕ → AsyncSocket → Result (Unit {0}) × AsyncSocket
unfolding call_on
listen ws backlog s =
    call_on s.socket_handle ws.listens socket_invalid socket_listen_failed
      (λ n. listening n backlog) s

abbrev pub release : Option ℕ → AsyncSocket → AsyncSocket
release none s = s
release (some n) s = call (closed n) (record s { socket_handle = none })

abbrev pub sign_off : AsyncSocket → AsyncSocket
sign_off s = if s.wsa_started then call cleaned_up (record s { wsa_started = false }) else s

-- Cleanup, which is also the destructor.
unfoldable pub cleanup : AsyncSocket → AsyncSocket
cleanup s = sign_off (release s.socket_handle s)

-- A method of `SocketOptionBuilder` that calls setsockopt once.
unfoldable pub set_option : Winsock → ℕ → SocketOption → AsyncSocket → Bool × AsyncSocket
set_option ws sh o s = if ws.sets o then (true, call (option_set sh o) s) else (false, s)

-- The next call if the one before has succeeded.
abbrev pub and_then : Bool × AsyncSocket → (AsyncSocket → Bool × AsyncSocket) → Bool × AsyncSocket
and_then (true, s) next = next s
and_then (false, s) next = (false, s)

unfoldable pub set_keep_alive :
    Winsock → ℕ → Bool → (time interval : ℕ) → AsyncSocket → Bool × AsyncSocket
set_keep_alive ws sh on time interval s =
    and_then (set_option ws sh (keep_alive on) s)
      (λ s'. if on then set_option ws sh (keep_alive_values time interval) s' else (true, s'))

unfoldable pub apply_game_server_defaults : Winsock → ℕ → AsyncSocket → Bool × AsyncSocket
unfolding set_keep_alive
apply_game_server_defaults ws sh s = and_then (set_option ws sh (reuse_addr true) s) (λ s₁.
    and_then (set_option ws sh (tcp_no_delay true) s₁) (λ s₂.
      and_then (set_keep_alive ws sh true 30000 5000 s₂) (λ s₃. set_option ws sh (linger 1 5) s₃)))

abbrev pub fresh : AsyncSocket
fresh = record { socket_handle = none; wsa_started = false; calls = [] }

-- The next step of `MakeDefaultListener`, or its early return, where the socket is destroyed.
abbrev pub or_null :
    Result (Unit {0}) × AsyncSocket → (AsyncSocket → Bool × AsyncSocket) → Bool × AsyncSocket
or_null (ok _, s) next = next s
or_null (err _, s) next = (false, cleanup s)

-- The options that are set before bind; what setsockopt answers is not looked at.
unfoldable pub set_options : Winsock → Option ℕ → AsyncSocket → AsyncSocket
unfolding set_option
set_options ws none s = s
set_options ws (some n) s =
    (set_option ws n (send_buffer send_buffer_size) (set_option ws n (reuse_addr true) s).1).1

-- `MakeDefaultListener`: whether it gives out the socket, and the socket.
unfoldable pub make_default_listener : Winsock → (port backlog : ℕ) → Bool × AsyncSocket
unfolding initialize create_socket set_options bind listen cleanup
make_default_listener ws port backlog = or_null (initialize ws fresh) (λ s₁.
    or_null (create_socket ws s₁) (λ s₂.
      or_null (bind ws (port % 2 ^ 16) (set_options ws s₂.socket_handle s₂))
        (λ s₃. or_null (listen ws backlog s₃) (λ s₄. (true, s₄)))))
