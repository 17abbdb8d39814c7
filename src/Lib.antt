-- ===== src/Lib.antt =====
-- The server side of highp-mmorpg, the chat client with its packet stream and metrics, and the
-- configuration files, as functions on explicit states.
--
-- Connections are accepted by requests that wait for their completions (`IocpAcceptor`, Acceptor.antt,
-- on the listener of Sockets.antt, with the clean-up contexts of Scope.antt), and take a slot.
-- The workers of the completion port (`IocpIoMultiplexer`, Multiplexer.antt) hand the completions over.
-- Bytes arrive on a pooled connection slot (`ServerLifeCycle`, Server.antt). A worker thread appends
-- them to the slot's `FrameBuffer` (Frame.antt), cuts frames out of it, checks each payload and queues
-- a command (`PacketDispatcher::Receive`, Dispatcher.antt). The logic thread drains the queue in `Tick`
-- (Dispatcher/Tick.antt) and calls the handlers of the chat server (Chat/Game.antt), which work on the
-- sessions, users and rooms (Chat/SessionManager.antt, Chat/UserManager.antt, Chat/Room.antt,
-- Chat/RoomManager.antt) and send packets back through the slots (Chat/Session.antt, Client.antt). The
-- client's `PacketStream` (Stream.antt) writes and reads the same frames on a blocking socket. The
-- callbacks of the slots and of the dispatcher feed the metrics (Metrics.antt). Pool.antt stands alone.
--
-- Files and code:
-- - Prelude.antt and its children: shared names, lists measured by native numbers, Boolean tests.
-- - NetworkError.antt: lib/inc/error/NetworkError.h, lib/inc/functional/Result.hpp.
-- - Frame.antt: network/src/client/FrameBuffer.cpp, and the header of a frame. Frame/Contents.antt and
--   Frame/Header.antt prove what the buffer holds and that a length is read back.
-- - Stream.antt: network/src/client/PacketStream.cpp, and SendAll and RecvSome of
--   network/src/client/TcpClientSocket.cpp. Stream/Sockets.antt states what Winsock does.
-- - Client.antt: network/src/client/windows/Client.cpp.
-- - Dispatcher.antt and Dispatcher/Tick.antt: network/src/server/PacketDispatcher.cpp,
--   network/inc/server/PacketDispatcher.hpp and lib/inc/concurrency/MPSCCommandQueue.hpp.
--   Dispatcher/Decode.antt says what a stream of bytes decodes to, with no buffer, and
--   Dispatcher/Assembly.antt, Dispatcher/Receiving.antt and Dispatcher/Feed.antt show that the
--   dispatcher decodes that.
-- - Server.antt: network/src/ServerLifecycle.cpp.
-- - Chat.antt and its children: Session, User, SessionManager, UserManager, the handlers and the
--   connection callbacks of GameLoop in exec/chat/chat-server/chat-server, and its room directory.
--   Chat/Loop.antt is GameLoop's gate and thread; Chat/Loop/Serving.antt says what a call of `Receive`
--   queues, and Chat/Loop/Runs.antt runs the thread among such calls.
-- - Multiplexer.antt: network/src/io/windows/IocpIoMultiplexer.cpp. Multiplexer/Working.antt and
--   Multiplexer/Serving.antt say what the workers hand over, Multiplexer/Leaving.antt and
--   Multiplexer/Manned.antt count those that leave, and Multiplexer/Ending.antt is about Shutdown.
-- - Pool.antt: the pools of lib/inc/memory.
-- - Metrics.antt: lib/src/metrics/server/impl/AtomicServerMetrics.cpp. Metrics/Atomics.antt interleaves the
--   accesses to a timing window, and Metrics/Conserved.antt says what the drains hand out.
--   Metrics/Client.antt: lib/src/metrics/client/impl/AtomicClientMetrics.cpp. Metrics/Support.antt:
--   lib/src/metrics/server/ServerMetricsSupport.cpp. Metrics/Gauges.antt and Acceptor/Gauge.antt bind the
--   callbacks of lib/src/metrics/server/ServerMetricsCallbacks.cpp.
-- - Acceptor.antt: network/src/acceptor/IocpAcceptor.cpp. Acceptor/Pending.antt counts the held items,
--   Acceptor/Sockets.antt and Acceptor/Completing.antt account for the sockets, Acceptor/Serving.antt runs
--   any sequence of calls, and Acceptor/Outstanding.antt counts the requests.
-- - ChatClient.antt: exec/chat/chat-client/Client.cpp. ChatClient/Cli.antt: ChatCli.cpp and
--   PacketSender.cpp beside it. ChatClient/Sessions.antt counts the connections, and
--   ChatClient/Orderly.antt reads the requests of the console.
-- - Sockets.antt: WindowsAsyncSocket.cpp, SocketHelper.cpp and SocketOptionBuilder.cpp of
--   network/src/socket. Sockets/Balance.antt counts what is opened and closed, and Sockets/Listening.antt
--   says what the making of the listener leaves behind.
-- - Scope.antt: lib/inc/scope and lib/src/scope/Defer.cpp.
-- - Config.antt and its children: lib/inc/config/runTime, and in Config/Constexpr.antt
--   lib/inc/config/compileTime. Config/Document.antt says what a file that is written by hand means, and
--   Config/Agreement.antt and Config/Capacity.antt compare the two readers.
-- - Tests.antt: the theorems at concrete inputs.
--
-- A byte is a number, and bytes stand in lists. A slot is the number of a pooled client. A method that
-- holds a lock is one step. Elsewhere a function is a call that nothing interrupts, except where a file takes
-- the steps of several threads apart: Multiplexer.antt and Metrics/Atomics.antt, and the races in
-- Acceptor/Outstanding.antt and ChatClient/Sessions.antt. Unsigned counters wrap around at their width, and `none` of a function
-- that copies bytes is a write past the end of an array, where the function's comment says so.
--
-- The loops that are not structural run on fuel, and `none` means that it ran out: `assemble` has one
-- round more than there are bytes pending, since each round consumes a header at least; `send_rest` and
-- `recv_loop` have one more than the bytes that are left, since each round moves one at least. That
-- the fuel is enough is proved where the results say that a call returns.
--
-- The digits of a number in a configuration file are added up without a test in the source; the model has
-- a result of its own where a signed integer of C++ would overflow.
--
-- Parameters: the flatbuffers code that the build generates (Dispatcher/Wire.antt, and `encode` in
-- Chat/Session.antt), Winsock (Stream/Sockets.antt, and the answers of its calls), the clock, the environment and
-- the files, and the application behind the server (`Handler` in Server.antt).
--
-- Not modelled: logging, the start and the join of threads, the metrics writers with their time and number
-- formats, and what the console client prints.
pub mod Prelude
pub mod NetworkError
pub mod Frame
pub mod Stream
pub mod Client
pub mod Dispatcher
pub mod Chat
pub mod Pool
pub mod Metrics
pub mod Multiplexer
pub mod Server
pub mod Acceptor
pub mod Config
pub mod ChatClient
pub mod Scope
pub mod Sockets
pub mod Tests
