-- ===== src/Tests/Nodes.antt =====
-- Commands of an operator and the check of the files, on nodes of one ring.
use event_stream_rainstorm.Prelude.{
  ℕ, ◌≡◌, refl, true, false, some, none, List, [], ◌∷◌, ◌++◌, map, All, nat_eq,
}
use event_stream_rainstorm.Prelude.Text.{Text, text, text_eq, text_beq, before_last, has_byte}
use event_stream_rainstorm.Lines.{newline}
use event_stream_rainstorm.Member.{Member, alive}
use event_stream_rainstorm.Membership.{
  gossip, ping_ack, suspect, nosuspect, Shuffle, new_member_list,
}
use event_stream_rainstorm.Prelude.Sorting.{sort_by}
use event_stream_rainstorm.Ring.{
  ring_node, gossip2_rpc_addr, leader_addr, join_host_port, vm_name_to_ip, to_upper, has_prefix,
  find_name, NodeInfo, get_ring_info, get_successor, hash_func,
}
use event_stream_rainstorm.Detector.{Node}
use event_stream_rainstorm.FileStore.{Replica}
use event_stream_rainstorm.FileStore.Upkeep.{
  check_files, file_upkeep, upkeep, upkeep_at, is_replica, Files, check_replica,
}
use event_stream_rainstorm.Commands.{grep_error, Machine, handle_command, take_mode}
use event_stream_rainstorm.Client.{ok, arg_at}
use event_stream_rainstorm.Client.Main.{
  main, command_action, switch_command, checked_switch, send_to, intro_address,
}
use event_stream_rainstorm.Client.Main.Switching.{main-handle_command}
use event_stream_rainstorm.Commands.{protocol_text, suspicion_text}
use event_stream_rainstorm.Membership.{Protocol, Suspicion}
use event_stream_rainstorm.LogQuery.{Server}
use event_stream_rainstorm.Commands.Mode.{IsProtocol, IsSuspicion, InMode, take_mode-handle_command}
use event_stream_rainstorm.Commands.Spread.{handle_command-spreads, line_of, others, command_addr}

abbrev member_at : Text → Member
member_at host = record {
  id = host;
  address = host ++ text ":9000";
  heart_beat_counter = 0;
  incarnation = 0;
  state = alive;
  last_update_time = 0;
}

abbrev node_a : Member
node_a = member_at (text "172.22.159.16")

abbrev node_b : Member
node_b = member_at (text "172.22.95.202")

abbrev node_c : Member
node_c = member_at (text "172.22.155.17")

abbrev node_d : Member
node_d = member_at (text "172.22.159.17")

abbrev live : List Member
live = node_a ∷ node_b ∷ node_c ∷ node_d ∷ []

abbrev held : Replica
held = record {
  file = some (text "ab");
  log = some (record { op_id = text "1-VM2"; entry_data = text "ab" } ∷ []);
  locked = false;
}

abbrev files : Files
files = (text "file", held) ∷ []

abbrev dropped : Files
dropped = (text "file", record held { file = none; log = none }) ∷ []

abbrev three : List NodeInfo
three =
    record { node_id = 3260574988; address = text "172.22.155.17:9082" }
    ∷ record { node_id = 3545738841; address = text "172.22.95.202:9082" }
    ∷ record { node_id = 514457016; address = text "172.22.159.17:9082" }
    ∷ []

-- A merge that leaves one operation with the bytes of the file.
abbrev compact : Text → Replica → Replica
compact name r = record r {
  log = some (record { op_id = text "9-VM4"; entry_data = text "ab" } ∷ []);
}

-- The first of the replicas merges its copy, and the node that is none of them drops it.
merged_there :
    check_replica compact (text "172.22.155.17:9082") live files
    ≡ some (text "file" ∷ [], (text "file", compact (text "file") held) ∷ [])
unfolding check_replica check_files file_upkeep upkeep upkeep_at is_replica get_ring_info ring_node
    gossip2_rpc_addr leader_addr get_successor sort_by hash_func before_last join_host_port
    vm_name_to_ip to_upper has_prefix find_name has_byte text_beq
merged_there = refl

abbrev same_order : ℕ → Shuffle
same_order k l = l

abbrev machine : Machine
machine = record {
  now = 5;
  shuffle = same_order;
  is_introducer = true;
  grep = λ args. grep_error;
  json = λ ms. [];
  stored = some [];
}

abbrev introducer : Node
introducer = record {
  id = node_a.id;
  memberlist = record new_member_list {
    memberlist = (node_a.id, node_a) ∷ (node_b.id, node_b) ∷ [];
  };
  protocol = ping_ack;
  suspicion = suspect;
}

abbrev newcomer : Node
newcomer = record introducer { id = node_b.id; protocol = gossip; suspicion = nosuspect }

take_mode-handle_command_example :
    InMode ping_ack suspect
      (take_mode machine
        (handle_command machine (text "get_switch" ++ newline ∷ []) introducer).reply
        newcomer).node
take_mode-handle_command_example =
    take_mode-handle_command machine machine introducer newcomer ping_ack suspect tt tt (refl, refl)

spread_to_members :
    let handled = handle_command machine (line_of ping_ack nosuspect) introducer in
    InMode ping_ack nosuspect handled.node
    × (map (λ (l : Text × Text). l.0) handled.lines ≡ map command_addr (others handled.node))
    × All
        (λ (l : Text × Text).
          (m' : Machine) (node : Node)
          → InMode ping_ack nosuspect (handle_command m' l.1 node).node)
        handled.lines
spread_to_members = handle_command-spreads machine introducer ping_ack nosuspect tt tt refl

abbrev switch_args : List Text
switch_args = text "demo" ∷ text "switch" ∷ text "ping" ∷ text "suspect" ∷ []

typed_switch : main 7 switch_args ≡ ok (send_to intro_address (line_of ping_ack suspect))
unfolding main command_action switch_command checked_switch arg_at text_beq
typed_switch = refl

main-handle_command_example :
    (p : Protocol) × (s : Suspicion) × IsProtocol p
    × IsSuspicion s
    × (protocol_text p ≡ text "ping")
    × (suspicion_text s ≡ text "suspect")
    × InMode p s (handle_command machine (line_of ping_ack suspect) introducer).node
main-handle_command_example =
    main-handle_command 7 (text "demo") (text "ping") (text "suspect") intro_address
      (line_of ping_ack suspect) machine introducer typed_switch

abbrev server : Server
server = record {
  now = 5;
  shuffle = same_order;
  grep = λ args. grep_error;
  exit_error = true;
  format = λ t. [];
}

abbrev switch_input : Text
switch_input = text "switch (gossip) suspect" ++ newline ∷ []
