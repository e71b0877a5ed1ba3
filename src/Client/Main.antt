-- ===== src/Client/Main.antt =====
-- demo/demo.go: `main`, from the arguments to what the client sets out to do.
pub mod Switching
use event_stream_rainstorm.Prelude.{
  ℕ, Bool, true, false, not, ◌&&◌, ◌||◌, Option, none, some, List, [], ◌∷◌, ◌++◌, zero, suc, length,
  ltb, nat_eq, ◌==◌, if◌then◌else◌,
}
use event_stream_rainstorm.Prelude.Text.{Text, text, text_eq, has_byte}
use event_stream_rainstorm.Constants.{rpc_port, command_port}
use event_stream_rainstorm.Ring.{vm_name_to_ip}
use event_stream_rainstorm.Leader.{LeaderStartArgs}
use event_stream_rainstorm.Lines.{newline}
use event_stream_rainstorm.Commands.{split, space, switch_line}
use event_stream_rainstorm.Client.{Run, ok, exits, returns, panics, ◌>>=◌, arg_at, read_job}
use event_stream_rainstorm.Numbers.{ℤ, atoi}

-- What the client does: with a file, with the leader, with the node of this machine, which is sent a
-- command, or with all nodes.
pub data Action : Type 0 where
  create get append : Text → Text → Action
  get_from_replica multi_append : Text → Text → Text → Action
  ls merge : Text → Action
  list_mem_ids list_store list_tasks : Action
  delete grep : List Text → Action
  rain_storm : LeaderStartArgs → Action
  kill_task : Text → ℤ → Action
  send_to : Text → Text → Action
  ask_self : Text → Action

-- The rest after a test of the number of arguments.
abbrev exactly : ℕ → Text → List Text → Run Action → Run Action
exactly n usage args run = if length args == n then run else exits usage

abbrev one_of : ℕ → Text → List Text → Run Action → Run Action
one_of n message args run = if length args == n then run else returns message

-- The address of a machine by its name, or by an address with a port or without.
unfoldable pub target_rpc_addr : Text → Text
target_rpc_addr target = elim (vm_name_to_ip target) [
  | some ip ↦ ip ++ (text ":" ++ rpc_port)
  | none ↦ if has_byte b':' target then target else target ++ (text ":" ++ rpc_port)
]

unfoldable pub kill_command : List Text → Run Action
unfolding arg_at target_rpc_addr
kill_command args =
    if ltb (length args) 4 then returns (text "Usage: kill_task <VM_Address/Name> <PID>") else do
      target ← arg_at args 2
      pid ← arg_at args 3
      elim (atoi pid) [
        | none ↦ returns (text "Error: PID must be an integer")
        | some n ↦ ok (kill_task (target_rpc_addr target) n)
      ]

abbrev pub intro_address : Text
intro_address = text "fa25-cs425-8201.cs.illinois.edu:" ++ command_port

-- The tests of the two words.
unfoldable pub checked_switch : Text → Text → Run Action
unfolding switch_line
checked_switch protocol suspicion =
    if not (protocol == text "gossip") && not (protocol == text "ping")
    then returns (text "Please give valid protocol")
    else if not (suspicion == text "suspect") && not (suspicion == text "nosuspect")
    then returns (text "Please give valid suspicion mechanism")
    else ok (send_to intro_address (switch_line protocol suspicion))

unfoldable pub switch_command : List Text → Run Action
unfolding arg_at checked_switch
switch_command args =
    one_of 4 (text "The number of paras are not correct") args
      do protocol ← arg_at args 2; suspicion ← arg_at args 3; checked_switch protocol suspicion

-- `os.Args[n:]`
abbrev from_arg : ℕ → List Text → List Text
from_arg zero args = args
from_arg (suc n) [] = []
from_arg (suc n) (arg ∷ args) = from_arg n args

-- The command that takes two words, or three, and those that take none.
unfoldable pub two_args : Text → (Text → Text → Action) → List Text → Run Action
unfolding arg_at
two_args usage action args =
    exactly 4 usage args do a ← arg_at args 2; b ← arg_at args 3; ok (action a b)

unfoldable pub three_args : Text → (Text → Text → Text → Action) → List Text → Run Action
unfolding arg_at
three_args usage action args =
    exactly 5 usage args
      do a ← arg_at args 2; b ← arg_at args 3; c ← arg_at args 4; ok (action a b c)

unfoldable pub one_arg : Text → (Text → Action) → List Text → Run Action
unfolding arg_at
one_arg usage action args = exactly 3 usage args do a ← arg_at args 2; ok (action a)

unfoldable pub rain_storm_command : ℕ → List Text → Run Action
rain_storm_command now args = do job ← read_job now args; ok (rain_storm job)

-- `main` by the command, at the time `now`.
unfoldable pub command_action : ℕ → Text → List Text → Run Action
unfolding one_arg two_args three_args rain_storm_command kill_command switch_command
command_action now command args =
    if command == text "create"
    then two_args (text "create localfilename HyDFSfilename") create args
    else if command == text "get"
    then two_args (text "get HyDFSfilename localfilename") get args
    else if command == text "getfromreplica"
    then three_args (text "getfromreplica VMaddress HyDFSfilename localfilename") get_from_replica
        args
    else if command == text "ls"
    then one_arg (text "ls HyDFSfilename") ls args
    else if command == text "list_mem_ids"
    then exactly 2 (text "list_mem_ids") args (ok list_mem_ids)
    else if command == text "liststore"
    then exactly 2 (text "liststore") args (ok list_store)
    else if command == text "delete"
    then if ltb (length args) 3
      then exits (text "delete filename1 [filename2] ...")
      else ok (delete (from_arg 2 args))
    else if command == text "append"
    then two_args (text "append localfilename HyDFSfilename") append args
    else if command == text "multiappend"
    then three_args (text "Usage: multiappend <HyDFSfilename> <vm_list> <localfile_list>")
        multi_append args
    else if command == text "RainStorm"
    then rain_storm_command now args
    else if command == text "list_tasks"
    then ok list_tasks
    else if command == text "kill_task"
    then kill_command args
    else if command == text "switch"
    then switch_command args
    else if command == text "list_mem"
    then one_of 2 (text "The number of paras are not correct") args
        (ok (ask_self (text "list_mem")))
    else if command == text "display_protocol"
    then one_of 2 (text "The number of paras for display protocol are not correct") args
        (ok (ask_self (text "display_protocol")))
    else if command == text "display_suspects"
    then one_of 2 (text "The number of paras for display suspects are not correct") args
        (ok (ask_self (text "display_suspects")))
    else if command == text "list_self"
    then one_of 2 (text "The number of paras for list self are not correct") args
        (ok (ask_self (text "list_self")))
    else if command == text "leave"
    then one_of 2 (text "The number of paras for leave are not correct") args
        (ok (ask_self (text "leave")))
    else if command == text "merge"
    then one_arg (text "merge HyDFSfilename") merge args
    else if command == text "grep"
    then if ltb (length args) 3
      then returns (text "The number of paras for grep are not correct")
      else ok (grep (from_arg 2 args))
    else exits (text "Command not found: ")

unfoldable pub main : ℕ → List Text → Run Action
unfolding command_action
main now [] = exits (text "please enter the command.")
main now (program ∷ []) = exits (text "please enter the command.")
main now (program ∷ command ∷ args) = command_action now command (program ∷ command ∷ args)

-- `ExecMultiAppend`: the append that each machine is asked for, at its address if its name is known;
-- `none` where the two lists are not of one length.
unfoldable pub pair_up : List Text → List Text → Option (List (Option Text × Text))
pair_up [] [] = some []
pair_up [] (f ∷ fs) = none
pair_up (vm ∷ vms) [] = none
pair_up (vm ∷ vms) (f ∷ fs) = elim (pair_up vms fs) [
  | none ↦ none
  | some calls ↦ some (
      (elim (vm_name_to_ip vm) [ none ↦ none | some ip ↦ some (ip ++ (text ":" ++ rpc_port)) ], f)
      ∷ calls)
]

unfoldable pub exec_multi_append : Text → Text → Option (List (Option Text × Text))
unfolding pair_up split
exec_multi_append vm_list file_list = pair_up (split b',' vm_list) (split b',' file_list)
