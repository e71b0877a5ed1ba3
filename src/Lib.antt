-- ===== src/Lib.antt =====
-- event_stream_rainstorm: a stream processor (RainStorm) on a replicated file system (HyDFS) on a
-- failure detector, in Go.
--
-- A node keeps a member list (node/membership_crud.go), which gossip or pings keep current. The live
-- members make a ring (utils/utils.go): a file's replicas are the three nodes after its hash. A file
-- is written through one primary, which calls the others (node/node.go). A stream job has stages of
-- tasks: the leader plans, starts, scales and restarts them (node/node_stream.go,
-- node/node_autoscale.go), and a task takes tuples by `PushTuple`, notes them in a dedup log in HyDFS
-- and writes them to its operator's standard input.
--
-- Files:
--   Prelude       maps as association lists, lists by native numbers, sorting, byte strings
--   Constants, Member   constants/constants.go, member/member.go, message/message.go
--   Membership    node/membership_crud.go, one function for each method
--   Detector      node/node.go: `handleMessage`, `pingMember`, `Switch` and the periodic checks
--   Ring          utils/utils.go: `HashFunc`, `GetRingInfo`, `GetSuccessor`, `GetReplica`
--   Numbers       `strconv.Atoi`, `strconv.ParseBool` and decimal numbers
--   Lines         `bufio.Scanner` and `strings.TrimSpace`, as the logs are read with them
--   Task          node/node_stream.go: `PushTuple`, `loadDedupLog`, `replayLogData`, `StartTask`
--   Worker        node/node_stream.go and node/node_autoscale.go: a worker's tasks by key, routing, and
--                 what tasks and the source send (Worker/Sending)
--   Leader        node/node_stream.go: the plan; Leader/Autoscale: node/node_autoscale.go;
--                 Leader/Start: node/node_stream.go, `StartRainStorm` and `startAllTasks`
--   FileStore     node/node.go: the replicas of one file; FileStore/Upkeep: `checkReplica` and
--                 `TriggerAppend`, with `CallHyDFSWrite` of utils/stream_utils.go
--   Client        demo/demo.go: the job of "RainStorm"; Client/Main: the commands; Client/Files: reads
--                 and writes of files; Client/Grep: the search in all logs
--   Commands      node/node.go: `HandleCommand`, and the exchange of the mode when a node joins
--   Operators     ops: the four programs, with the reader and the writer of CSV
--   LogQuery      distributed_log_querier/server/server.go; LogQuery/Querier: client/client.go there
--   Tests         runs on concrete values
--
-- How state is modelled. A method that runs under a lock is one function from state to state. A map is
-- an association list, and a statement holds for every order of its entries. Strings are lists of
-- bytes. Counters, times and ids are numbers that are never negative in the program; a 32-bit hash
-- keeps its wrap-around. Rates are whole numbers of tuples, as `monitorTaskRate` reports them, and a
-- test of their average is a test of their sum.
--
-- Arguments of the model: the clock, random shuffles, whether a system call succeeds, what HyDFS and
-- an operator's pipe do with each write, which calls reach another node. `sha256` and the length of an
-- entry's JSON line are parameters. The only recursion on fuel is in `decimal`, whose fuel is the
-- number itself and one, more than its digits.
--
-- Not modelled: sockets, processes and files as such, logging, printing, the start of the program
-- (mp4_main), the rates that tasks report (`monitorTaskRate`) and `ListTasks`.
pub mod Prelude
pub mod Constants
pub mod Member
pub mod Operators
pub mod Ring
pub mod Membership
pub mod Lines
pub mod Numbers
pub mod Task
pub mod Leader
pub mod FileStore
pub mod Worker
pub mod Detector
pub mod Commands
pub mod Client
pub mod LogQuery
pub mod Tests
