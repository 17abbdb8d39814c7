-- ===== src/NetworkError.antt =====
-- lib/inc/error/NetworkError.h and lib/inc/functional/Result.hpp, at the error type of the network
-- layer.
use highp_mmorpg.Prelude.{Bool, true, false}

-- `ENetworkError`
pub data NetworkError : Type 0 where
  unknown : NetworkError
  wsa_startup_failed wsa_not_initialized wsa_network_sub_system_failed : NetworkError
  wsa_not_supported_address_family wsa_invalid_args wsa_lack_file_descriptor : NetworkError
  wsa_no_buffer_space wsa_not_supported_protocol wsa_recv_failed wsa_send_failed : NetworkError
  socket_invalid socket_create_failed socket_bind_failed socket_listen_failed : NetworkError
  socket_accept_failed socket_connect_failed socket_post_accept_failed : NetworkError
  iocp_create_failed iocp_connect_failed iocp_internal_error iocp_io_failed : NetworkError
  thread_worker_create_failed thread_accepter_create_failed : NetworkError
  thread_worker_failed thread_accept_failed : NetworkError

-- `Result<TData, ENetworkError>`; `Result<void, …>` is `Result Unit`.
pub data Result {ℓ} (A : Type ℓ) : Type ℓ where
  ok : A → Result A
  err : NetworkError → Result A

-- `Result::IsOk`
abbrev pub is_ok {ℓ} : {A : Type ℓ} → Result A → Bool
is_ok (ok a) = true
is_ok (err e) = false
