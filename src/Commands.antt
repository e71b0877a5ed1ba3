-- ===== src/Commands.antt =====
-- node/node.go: `HandleCommand`, the commands that a node takes over TCP, with `SendSwitchCommand` and
-- the exchange of the mode in `joinMemberList`. What is written to the connection is a text.
pub mod Mode
pub mod Spread
use event_stream_rainstorm.Prelude.{
  ℕ, Bool, true, false, not, ◌&&◌, Option, none, some, List, [], ◌∷◌, ◌++◌, map, length, select,
  nat_eq, ◌==◌, if◌then◌else◌,
}
use event_stream_rainstorm.Prelude.Dict.{Dict, get}
use event_stream_rainstorm.Prelude.Text.{Text, text, text_eq, cut, before_last, decimal}
use event_stream_rainstorm.Lines.{newline}
use event_stream_rainstorm.Constants.{command_port}
use event_stream_rainstorm.Member.{Member, Message, is_suspected}
use event_stream_rainstorm.Membership.{
  Protocol, gossip, ping_ack, other_protocol, Suspicion, suspect, nosuspect, other_suspicion,
  MemberList, Shuffle, get_member_list, turn_leave,
}
use event_stream_rainstorm.Ring.{ip_to_vm_name, hash_func}
use event_stream_rainstorm.Detector.{Node, with_list, switch}

-- `strings.Split(s, sep)` for a separator of one byte: never empty.
unfoldable pub split : ℕ → Text → List Text
split sep [] = [] ∷ []
split sep (c ∷ s) =
    if c == sep
    then [] ∷ split sep s
    else elim (split sep s) [ [] ↦ (c ∷ []) ∷ [] | part ∷ parts ↦ (c ∷ part) ∷ parts ]

abbrev pub space : ℕ
space = b' '

-- The words of the first line; `none` where the connection ends before the line does.
unfoldable pub read_command : Text → Option (List Text)
unfolding cut split
read_command input = elim (cut newline input) [
  | none ↦ none
  | some (line, rest) ↦ some (split space line)
]

abbrev pub protocol_text : Protocol → Text
protocol_text gossip = text "gossip"
protocol_text ping_ack = text "ping"
protocol_text (other_protocol t) = t

abbrev pub suspicion_text : Suspicion → Text
suspicion_text suspect = text "suspect"
suspicion_text nosuspect = text "nosuspect"
suspicion_text (other_suspicion t) = t

unfoldable pub to_protocol : Text → Protocol
to_protocol t =
    if t == text "gossip" then gossip else if t == text "ping" then ping_ack else other_protocol t

unfoldable pub to_suspicion : Text → Suspicion
to_suspicion t =
    if t == text "suspect"
    then suspect
    else if t == text "nosuspect"
    then nosuspect
    else other_suspicion t

-- `SendSwitchCommand`: the lines, each with the address it goes to.
abbrev pub host_of : Text → Text
host_of addr = elim (cut b':' addr) [ none ↦ addr | some (host, port) ↦ host ]

unfoldable pub switch_line : Text → Text → Text
switch_line protocol suspicion =
    text "switch " ++ (protocol ++ (text " " ++ (suspicion ++ newline ∷ [])))

unfoldable pub send_switch_command : Text → Text → Node → List (Text × Text)
unfolding switch_line
send_switch_command protocol suspicion node =
    map
      (λ (m : Member).
        (host_of m.address ++ (text ":" ++ command_port), switch_line protocol suspicion))
      (select (λ (m : Member). not (m.id == node.id)) (get_member_list node.memberlist))

-- How `grep` ends: with lines, with the exit code 1 and what it has printed then ("0" with the flag
-- -c), or otherwise.
pub data GrepRun : Type 0 where
  lines_found no_lines : Text → GrepRun
  grep_error : GrepRun

-- `GetLogFile`, by the port in the node's id.
unfoldable pub get_log_file : Text → Text
unfolding split
get_log_file id = elim (split b':' id) [
  | [] ↦ text "machine.unknown.log"
  | host ∷ parts ↦ elim parts [
    | [] ↦ text "machine.unknown.log"
    | port ∷ rest ↦ text "machine." ++ (port ++ text ".log")
  ]
]

-- `grepConnect2Server`: what is written to the connection.
unfoldable pub grep_connect : (List Text → GrepRun) → Text → List Text → Text
grep_connect grep log_file args = elim (grep (args ++ log_file ∷ [])) [
  | lines_found output ↦ output
  | no_lines output ↦ output
  | grep_error ↦ []
]

-- What the rest of the machine gives to a command: the time and the shuffles, whether the node is the
-- introducer, the run of `grep`, the list as JSON, and the names in the storage directory, if that
-- can be read.
pub record Machine : Type 0 where
  pub now : ℕ
  pub shuffle : ℕ → Shuffle
  pub is_introducer : Bool
  pub grep : List Text → GrepRun
  pub json : List Member → Text
  pub stored : Option (List Text)

-- What a command does: what it writes back, the messages and the command lines it sends, and the node.
pub record Handled : Type 0 where
  pub reply : Text
  pub messages : List (Text × Message)
  pub lines : List (Text × Text)
  pub node : Node

abbrev answer : Text → Node → Handled
answer reply node = record { reply = reply; messages = []; lines = []; node = node }

-- `GetVMName`: `net.SplitHostPort` of an IPv4 address, and the table.
unfoldable pub get_vm_name : Text → Option Text
unfolding before_last
get_vm_name addr = elim (before_last b':' addr) [ none ↦ none | some host ↦ get host ip_to_vm_name ]

unfoldable pub member_lines : List Member → Text
unfolding get_vm_name
member_lines [] = []
member_lines (m ∷ ms) =
    let rest = member_lines ms in
    elim (get_vm_name m.address) [
      | none ↦ rest
      | some name ↦ name ++ (text " (" ++ (m.address ++ (text ")" ++ newline ∷ rest)))
    ]

unfoldable pub print_member_list : MemberList → Text
unfolding member_lines
print_member_list ml =
    text "------------------------------"
    ++ newline
      ∷ (member_lines (get_member_list ml)
          ++ (text "There are "
              ++ (decimal (length ml.memberlist)
                  ++ (text " members" ++ newline ∷ text "End----------------------------"))))

-- `get_switch` and `GetMode`
unfoldable pub mode_line : Node → Text
mode_line node =
    text "mode "
    ++ (protocol_text node.protocol
        ++ (text " " ++ (suspicion_text node.suspicion ++ newline ∷ [])))

unfoldable pub get_mode : Node → Text
get_mode node =
    text "<"
    ++ (protocol_text node.protocol
        ++ (text ", " ++ (suspicion_text node.suspicion ++ (text ">" ++ newline ∷ []))))

unfoldable pub suspect_lines : List Member → Text
suspect_lines [] = []
suspect_lines (m ∷ ms) =
    let rest = suspect_lines ms in if is_suspected m.state then m.id ++ newline ∷ rest else rest

unfoldable pub list_suspect : MemberList → Text
unfolding suspect_lines
list_suspect ml =
    let output = suspect_lines (get_member_list ml) in
    (if output == [] then text "No suspected nodes now" else output) ++ newline ∷ []

unfoldable pub store_lines : List Text → Text
store_lines [] = []
store_lines (name ∷ names) =
    text "filename "
    ++ (name ++ (text " fileID " ++ (decimal (hash_func name) ++ newline ∷ store_lines names)))

unfoldable pub list_store : Text → Option (List Text) → Text
unfolding store_lines
list_store id none = text "Cannot read hydfs directory" ++ newline ∷ []
list_store id (some names) =
    text "Files stored at RingID "
    ++ (decimal (hash_func id)
        ++ newline ∷ (text "--------------------" ++ newline ∷ store_lines names))

-- A switch to the mode that two words name.
unfoldable pub switched : Machine → Text → Text → Node → Handled
unfolding to_protocol to_suspicion
switched m protocol suspicion node =
    let (messages, node') =
      switch m.shuffle (to_protocol protocol) (to_suspicion suspicion) m.now node in
    record { reply = []; messages = messages; lines = []; node = node' }

-- The command "switch" with its arguments: another number of them is refused.
unfoldable pub handle_switch : Machine → List Text → Node → Handled
unfolding send_switch_command switched
handle_switch m (protocol ∷ suspicion ∷ []) node =
    let handled = switched m protocol suspicion node in
    record handled {
      lines = if m.is_introducer then send_switch_command protocol suspicion handled.node else [];
    }
handle_switch m args node = answer [] node

-- `HandleCommand` by the first word; an unknown one is not answered.
unfoldable pub run_command : Machine → Text → List Text → Node → Handled
unfolding handle_switch get_log_file grep_connect print_member_list mode_line get_mode list_suspect
    list_store
run_command m command args node =
    if command == text "switch"
    then handle_switch m args node
    else if command == text "get_switch"
    then answer (mode_line node) node
    else if command == text "list_mem"
    then answer (print_member_list node.memberlist) node
    else if command == text "display_protocol"
    then answer (get_mode node) node
    else if command == text "display_suspects"
    then answer (list_suspect node.memberlist) node
    else if command == text "list_self"
    then answer (node.id ++ newline ∷ []) node
    else if command == text "grep"
    then answer (grep_connect m.grep (get_log_file node.id) args) node
    else if command == text "mem_list_json"
    then answer (m.json (get_member_list node.memberlist)) node
    else if command == text "leave"
    then answer (text "Leavning now," ++ newline ∷ [])
        (with_list (turn_leave node.memberlist node.id m.now) node)
    else if command == text "liststore"
    then answer (list_store node.id m.stored) node
    else answer [] node

unfoldable pub handle_command : Machine → Text → Node → Handled
unfolding read_command run_command
handle_command m input node = elim (read_command input) [
  | none ↦ answer [] node
  | some [] ↦ answer [] node
  | some (command ∷ args) ↦ run_command m command args node
]

-- The end of `joinMemberList`: what the introducer answers to "get_switch".
unfoldable pub adopt : Machine → List Text → Node → Handled
unfolding switched
adopt m (word ∷ protocol ∷ suspicion ∷ []) node =
    if word == text "mode" then switched m protocol suspicion node else answer [] node
adopt m words node = answer [] node

unfoldable pub take_mode : Machine → Text → Node → Handled
unfolding read_command adopt
take_mode m response node = elim (read_command response) [
  | none ↦ answer [] node
  | some words ↦ adopt m words node
]
