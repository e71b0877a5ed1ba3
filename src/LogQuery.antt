-- ===== src/LogQuery.antt =====
-- distributed_log_querier/server/server.go: the commands that the log server of a node takes. `grep` and
-- the format of a time are arguments.
pub mod Switching
pub mod Querier
use event_stream_rainstorm.Prelude.{
  ℕ, Bool, true, false, not, ◌||◌, ◌&&◌, Option, none, some, List, [], ◌∷◌, ◌++◌, select, nat_eq,
  ◌==◌, if◌then◌else◌,
}
use event_stream_rainstorm.Prelude.Text.{Text, text, text_eq, cut, decimal}
use event_stream_rainstorm.Lines.{newline}
use event_stream_rainstorm.Member.{
  Member, Message, State, alive, suspected, failed, leave, other, is_suspected,
}
use event_stream_rainstorm.Membership.{
  Protocol, gossip, ping_ack, Suspicion, suspect, nosuspect, Shuffle, get_member_list,
}
use event_stream_rainstorm.Detector.{Node, switch}
use event_stream_rainstorm.Commands.{
  GrepRun, lines_found, no_lines, grep_error, get_log_file, read_command, protocol_text,
  suspicion_text,
}

-- What the server has from its machine; `exit_error` tells a run of `grep` that ends with another exit
-- code from one that does not start.
pub record Server : Type 0 where
  pub now : ℕ
  pub shuffle : ℕ → Shuffle
  pub grep : List Text → GrepRun
  pub exit_error : Bool
  pub format : ℕ → Text

-- What is written to the connection, the messages that are sent, and the node, if it has been set.
pub record Served : Type 0 where
  pub reply : Text
  pub messages : List (Text × Message)
  pub node : Option Node

abbrev say : Text → Option Node → Served
say reply node = record { reply = reply; messages = []; node = node }

abbrev line : Text → Text
line s = s ++ newline ∷ []

unfoldable pub handle_grep_command : Server → List Text → Node → Text
unfolding get_log_file
handle_grep_command server args node = elim (server.grep (args ++ get_log_file node.id ∷ [])) [
  | lines_found output ↦ output
  | no_lines output ↦ line (text "No matching results")
  | grep_error ↦
      if server.exit_error
      then line (text "Grep execution error")
      else line (text "Grep error other than execution")
]

unfoldable pub state_text : State → Text
state_text alive = text "Alive"
state_text suspected = text "Suspected"
state_text failed = text "Failed"
state_text leave = text "Leave"
state_text (other t) = t

-- The lines of a member.
unfoldable pub member_block : Server → Member → Text
unfolding state_text
member_block server m =
    line (text "ID: " ++ m.id)
    ++ (line (text "Address: " ++ m.address)
        ++ (line (text "State: " ++ state_text m.state)
            ++ (line (text "Heartbeat: " ++ decimal m.heart_beat_counter)
                ++ (line (text "Incarnation: " ++ decimal m.incarnation)
                    ++ (line (text "Last Update: " ++ server.format m.last_update_time)
                        ++ line (text "---"))))))

unfoldable pub member_blocks : Server → List Member → Text
unfolding member_block
member_blocks server [] = []
member_blocks server (m ∷ ms) = member_block server m ++ member_blocks server ms

abbrev or_line : Text → Text → List Member → Text
or_line none_text blocks [] = line none_text
or_line none_text blocks (m ∷ ms) = blocks

unfoldable pub handle_list_mem_command : Server → Node → Text
unfolding member_blocks
handle_list_mem_command server node =
    let members = get_member_list node.memberlist in
    line (text "Membership List:")
    ++ (line (text "================")
        ++ or_line (text "No members in the list") (member_blocks server members) members)

unfoldable pub handle_display_suspects_command : Server → Node → Text
unfolding member_blocks
handle_display_suspects_command server node =
    let suspects =
      select (λ (m : Member). is_suspected m.state) (get_member_list node.memberlist) in
    line (text "Suspected Nodes:")
    ++ (line (text "================")
        ++ or_line (text "No suspected nodes found in membership list")
            (member_blocks server suspects) suspects)

-- `GetID` ends its line already.
unfoldable pub handle_list_self_command : Node → Text
handle_list_self_command node = line (text "Self ID: " ++ line node.id)

unfoldable pub handle_display_protocol_command : Node → Text
handle_display_protocol_command node =
    line (text "Current Protocol Configuration:")
    ++ (line (text "==============================")
        ++ (line (text "Protocol: " ++ protocol_text node.protocol)
            ++ (line (text "Suspicion: " ++ suspicion_text node.suspicion)
                ++ line (text "=============================="))))

-- `strings.Trim(s, "()")`
abbrev is_bracket : ℕ → Bool
is_bracket c = c == b'(' || c == b')'

unfoldable pub trim_brackets_left : Text → Text
trim_brackets_left [] = []
trim_brackets_left (c ∷ s) = if is_bracket c then trim_brackets_left s else c ∷ s

unfoldable pub trim_brackets_right : Text → Text
trim_brackets_right [] = []
trim_brackets_right (c ∷ s) = elim (trim_brackets_right s) [
  | [] ↦ if is_bracket c then [] else c ∷ []
  | d ∷ t ↦ c ∷ d ∷ t
]

unfoldable pub trim_brackets : Text → Text
unfolding trim_brackets_left trim_brackets_right
trim_brackets s = trim_brackets_right (trim_brackets_left s)

unfoldable pub protocol_constant : Text → Option Protocol
protocol_constant t =
    if t == text "gossip" then some gossip else if t == text "ping" then some ping_ack else none

unfoldable pub suspicion_constant : Text → Option Suspicion
suspicion_constant t =
    if t == text "suspect"
    then some suspect
    else if t == text "nosuspect"
    then some nosuspect
    else none

-- A switch to a mode that there is.
unfoldable pub switch_to : Server → Protocol → Suspicion → Text → Text → Node → Served
switch_to server p s protocol suspicion node =
    let (messages, node') = switch server.shuffle p s server.now node in
    record {
      reply =
          line (text "Switched to protocol: " ++ (protocol ++ (text ", suspicion: " ++ suspicion)));
      messages = messages;
      node = some node';
    }

unfoldable pub handle_switch_words : Server → Text → Text → Node → Served
unfolding protocol_constant suspicion_constant switch_to
handle_switch_words server protocol suspicion node = elim (protocol_constant protocol) [
  | none ↦ say (line (text "Invalid protocol. Use: gossip or ping")) (some node)
  | some p ↦ elim (suspicion_constant suspicion) [
    | none ↦ say (line (text "Invalid suspicion. Use: suspect or nosuspect")) (some node)
    | some s ↦ switch_to server p s protocol suspicion node
  ]
]

unfoldable pub handle_switch_command : Server → List Text → Node → Served
unfolding handle_switch_words trim_brackets
handle_switch_command server (protocol ∷ suspicion ∷ []) node =
    handle_switch_words server (trim_brackets protocol) (trim_brackets suspicion) node
handle_switch_command server args node =
    say
      (line (text "Usage: switch <protocol> <suspicion>")
        ++ (line (text "Protocols: gossip, ping") ++ line (text "Suspicion: suspect, nosuspect")))
      (some node)

-- A command that needs the node.
abbrev with_node : Option Node → (Node → Served) → Served
with_node none f = say (line (text "Error: Node not available")) none
with_node (some node) f = f node

unfoldable pub run_server_command : Server → Text → List Text → Option Node → Served
unfolding handle_grep_command handle_list_mem_command handle_list_self_command
    handle_display_suspects_command handle_display_protocol_command handle_switch_command
run_server_command server command args global =
    if command == text "grep"
    then with_node global (λ node. say (handle_grep_command server args node) global)
    else if command == text "list_mem"
    then with_node global (λ node. say (handle_list_mem_command server node) global)
    else if command == text "list_self"
    then with_node global (λ node. say (handle_list_self_command node) global)
    else if command == text "display_suspects"
    then with_node global (λ node. say (handle_display_suspects_command server node) global)
    else if command == text "display_protocol"
    then with_node global (λ node. say (handle_display_protocol_command node) global)
    else if command == text "switch"
    then with_node global (λ node. handle_switch_command server args node)
    else say
        (line (
          text
            "Error: Unknown command. Available: grep, list_mem, list_self, display_suspects, display_protocol, switch, append"))
        global

-- `Connect2Server`: a connection that ends before its first line is not answered.
unfoldable pub connect_to_server : Server → Text → Option Node → Served
unfolding read_command run_server_command
connect_to_server server input global = elim (read_command input) [
  | none ↦ say [] global
  | some [] ↦ say (line (text "Error: Empty command")) global
  | some (command ∷ args) ↦ run_server_command server command args global
]
