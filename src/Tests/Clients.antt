-- ===== src/Tests/Clients.antt =====
-- Reads, writes and searches of a client.
use mathlib.Core.List.{Perm}
use mathlib.Core.List.Perm
use event_stream_rainstorm.LogQuery.Querier.{ConfigStruct, ResultStruct, get_log_and_total_line}
use event_stream_rainstorm.LogQuery.Querier.Unknown.{
  Servers, answers, IsSent, get_log_and_total_line-unknown,
}
use event_stream_rainstorm.Prelude.{
  All, length, select, ℕ, ◌≡◌, refl, true, false, Bool, none, some, List, [], ◌∷◌, ◌++◌, ◌==◌,
  if◌then◌else◌, nat_eq,
}
use event_stream_rainstorm.Prelude.Text.{Text, text, text_eq, text_beq, has_byte}
use event_stream_rainstorm.Lines.{newline}
use event_stream_rainstorm.Member.{Member, alive, suspected, failed, State}
use event_stream_rainstorm.Membership.{gossip, suspect, new_member_list, Shuffle}
use event_stream_rainstorm.Ring.{NodeInfo, replicas}
use event_stream_rainstorm.FileStore.{OperationLogEntry, Disk, Link, up, create_file, append_file, create_local, append_local, primary_write, call_replica, replicated, count_ok, any_blocked}
use event_stream_rainstorm.FileStore.Merge.{contents}
use event_stream_rainstorm.Client.Files.{
  Store, complete, exec_write, exec_create, exec_append, exec_get, got, call_primary, through,
  put_replicas,
}
use event_stream_rainstorm.Client.Files.Reading.{done, next, exec_get-exec_write}
use event_stream_rainstorm.Commands.{lines_found, no_lines}
use event_stream_rainstorm.Client.Grep.{CliResult}
use event_stream_rainstorm.Client.Grep.Total.{Machines}

abbrev disk : Disk
disk = record { write_file = true; open_log = true; write_log = true }

abbrev links : Text → Link
links addr = up disk

abbrev empty : Store
empty addr = record { file = none; log = none; locked = false }

abbrev node_at : ℕ → Text → NodeInfo
node_at id addr = record { node_id = id; address = addr }

abbrev three : List NodeInfo
three = node_at 1 (text "a") ∷ node_at 2 (text "b") ∷ node_at 3 (text "c") ∷ []

abbrev created : Store
created = (exec_create (some (text "one")) (replicas three) (text "1-VM2") links empty).1

is_created :
    exec_create (some (text "one")) (replicas three) (text "1-VM2") links empty
    ≡ (complete, created)
unfolding exec_write call_primary through create_file create_local primary_write call_replica
    replicated count_ok any_blocked
is_created = refl

abbrev more : OperationLogEntry
more = record { op_id = text "2-VM3"; entry_data = text " two" }

abbrev appended : Store
appended = (exec_append (some (text " two")) (replicas three) (text "2-VM3") links created).1

is_appended :
    exec_append (some (text " two")) (replicas three) (text "2-VM3") links created
    ≡ (complete, appended)
unfolding exec_write call_primary through create_file create_local append_file append_local
    primary_write call_replica replicated count_ok any_blocked put_replicas text_beq
is_appended = refl

abbrev only_c : Text → Bool
only_c addr = addr == text "c"

exec_get-exec_write_example :
    exec_get true (replicas three) only_c appended ≡ got (text "one" ++ contents (more ∷ []))
unfolding text_beq
exec_get-exec_write_example =
    exec_get-exec_write (text "one") (text "1-VM2") three links only_c (more ∷ []) empty created
      appended 2 (node_at 3 (text "c")) is_created (next links more is_appended done) refl refl

abbrev member_at : State → Text → Member
member_at state host = record {
  id = host;
  address = host ++ text ":9000";
  heart_beat_counter = 0;
  incarnation = 0;
  state = state;
  last_update_time = 0;
}

abbrev members : List Member
members =
    member_at alive (text "a") ∷ member_at suspected (text "b") ∷ member_at failed (text "c") ∷ []

abbrev same_order : ℕ → Shuffle
same_order k l = l

-- The first log has two lines of what is searched for, the others have none.
abbrev machines : Machines
machines = record {
  machine = λ addr. record {
    now = 5;
    shuffle = same_order;
    is_introducer = false;
    grep = λ args.
        if addr == text "a:9080"
        then lines_found (text "error 1" ++ newline ∷ (text "error 2" ++ newline ∷ []))
        else no_lines [];
    json = λ ms. [];
    stored = none;
  };
  node = λ addr. record {
    id = addr;
    memberlist = new_member_list;
    protocol = gossip;
    suspicion = suspect;
  };
  is_up = λ addr. true;
}

abbrev swap_two : List CliResult → List CliResult
swap_two [] = []
swap_two (a ∷ []) = a ∷ []
swap_two (a ∷ b ∷ rs) = b ∷ a ∷ rs

abbrev search : List Text
search = text "-i" ∷ text "error" ∷ []

-- Two machines, of which the second cannot be reached.
abbrev config_at : Text → ConfigStruct
config_at addr = record { name = addr; addr = addr; filepath = text "machine.log" }

abbrev configs : List ConfigStruct
configs = config_at (text "a:9080") ∷ config_at (text "b:9080") ∷ []

abbrev servers : Servers
servers = record {
  server = λ addr. record {
    now = 5;
    shuffle = same_order;
    grep = λ args. no_lines [];
    exit_error = false;
    format = λ t. [];
  };
  node = λ addr. none;
  is_up = λ addr. addr == text "a:9080";
}

abbrev same_results : List ResultStruct → List ResultStruct
same_results rs = rs

configs-AreSent : All (IsSent search) configs
unfolding has_byte
configs-AreSent = (
  ((refl, (refl, (refl, tt))), (refl, (refl, (refl, tt)))),
  (((refl, (refl, (refl, tt))), (refl, (refl, (refl, tt)))), tt),
)

get_log_and_total_line-unknown_example :
    (get_log_and_total_line (answers servers) same_results configs search false).1
    ≡ length (select (λ (c : ConfigStruct). servers.is_up c.addr) configs)
unfolding text_beq
get_log_and_total_line-unknown_example =
    get_log_and_total_line-unknown servers (text "-i") (text "error" ∷ []) configs same_results refl
      configs-AreSent (λ rs. Perm.refl rs)
