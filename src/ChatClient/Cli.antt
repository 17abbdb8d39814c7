-- ===== src/ChatClient/Cli.antt =====
-- The console of the chat client: ChatCli.cpp and PacketSender.cpp of exec/chat/chat-client. What is
-- printed is left out.
use highp_mmorpg.Prelude.{ℕ, if◌then◌else◌, Bool, true, false, List, [], ◌∷◌, ◌++◌}
use highp_mmorpg.Config.Text.{Text, codes, text_eq, is_empty, starts}
use highp_mmorpg.ChatClient.{Client, take_sequence, send}

-- The packets that the console asks for, with their sequence numbers.
pub data Request : Type 0 where
  join_room : ℕ → Text → Request
  leave_room : ℕ → Request
  message : ℕ → Text → Text → Request

-- SC_JoinedRoom, SC_LeftRoom and B_ChatMessage of protocol/flatbuf/schemas/enum.fbs.
abbrev pub response_type : Request → ℕ
response_type (join_room s name) = 100
response_type (leave_room s) = 101
response_type (message s name text) = 152

-- The time, the length of the packet and the answer of SendFrame, for each packet.
pub record Network : Type 0 where
  pub now : Request → ℕ
  pub size : Request → ℕ
  pub sent : Request → Bool

unfoldable pub send_request : Network → ℕ → Request → Client → Client
unfolding send
send_request net sequence r c =
    send (net.now r) (net.size r) sequence (response_type r) (net.sent r) c

-- The console, with the requests that it handed to Send so far, in their order, whether sent or not.
pub record Cli : Type 0 where
  pub client : Client
  pub nickname : Text
  pub joined : Bool
  pub requests : List Request

abbrev pub ask : Network → ℕ → Request → Client → Cli → Cli
ask net sequence r c cli = record cli {
  client = send_request net sequence r c;
  requests = cli.requests ++ r ∷ [];
}

unfoldable pub send_join_room : Network → Cli → Cli
unfolding take_sequence send_request
send_join_room net cli =
    let (sequence, c) = take_sequence cli.client in
    ask net sequence (join_room sequence cli.nickname) c cli

unfoldable pub send_leave : Network → Cli → Cli
unfolding take_sequence send_request
send_leave net cli =
    let (sequence, c) = take_sequence cli.client in ask net sequence (leave_room sequence) c cli

unfoldable pub send_message : Network → Text → Cli → Cli
unfolding take_sequence send_request
send_message net text cli =
    let (sequence, c) = take_sequence cli.client in
    ask net sequence (message sequence cli.nickname text) c cli

pub data Command : Type 0 where
  quit : Command
  help : Command
  join : Command
  leave : Command
  unknown : Command

unfoldable pub parse_command : Text → Command
unfolding text_eq
parse_command cmd =
    if text_eq cmd (codes "/quit")
    then quit
    else if text_eq cmd (codes "/help")
    then help
    else if text_eq cmd (codes "/join")
    then join
    else if text_eq cmd (codes "/leave")
    then leave
    else unknown

pub data Action : Type 0 where
  continue : Action
  stop : Action

unfoldable pub obey : Network → Command → Cli → Cli × Action
unfolding send_join_room send_leave
obey net quit cli = (cli, stop)
obey net help cli = (cli, continue)
obey net join cli =
    if cli.joined
    then (cli, continue)
    else (record (send_join_room net cli) { joined = true }, continue)
obey net leave cli =
    if cli.joined
    then (record (send_leave net cli) { joined = false }, continue)
    else (cli, continue)
obey net unknown cli = (cli, continue)

unfoldable pub handle_command : Network → Text → Cli → Cli × Action
unfolding parse_command obey
handle_command net line cli = obey net (parse_command line) cli

unfoldable pub handle_chat : Network → Text → Cli → Cli × Action
unfolding send_message
handle_chat net line cli = (if cli.joined then send_message net line cli else cli, continue)

unfoldable pub prompt_nickname : Text → Cli → Cli
prompt_nickname line cli = record cli { nickname = (if is_empty line then codes "guest" else line) }

unfoldable pub handle_line : Network → Text → Cli → Cli × Action
unfolding handle_command handle_chat
handle_line net line cli =
    if is_empty line
    then (cli, continue)
    else if starts b'/' line
    then handle_command net line cli
    else handle_chat net line cli

-- Run, over the lines up to the end of the input.
unfoldable pub run : Network → List Text → Cli → Cli
run net [] cli = cli
run net (line ∷ lines) cli =
    let (cli', action) = handle_line net line cli in
    elim action [ continue ↦ run net lines cli' | stop ↦ cli' ]
