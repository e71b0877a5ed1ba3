-- ===== src/FileStore.antt =====
-- node/node.go: the replicas of one HyDFS file, and `CreateFile`, `AppendFile`, `primaryWrite` and
-- `GetFile` on them. A node does its own part of a write under the file's lock, in one step. A primary
-- then releases the lock and calls the others: `create_file` and `append_file` are runs in which no
-- other operation on the file comes between the two. The disk and the network are arguments.
pub mod Merge
pub mod Locking
pub mod Replication
pub mod Merging
pub mod Operations
pub mod Convergence
pub mod Sharing
pub mod Upkeep
use event_stream_rainstorm.Prelude.{
  ℕ, zero, suc, ◌+◌, Bool, true, false, not, ◌&&◌, ◌||◌, Option, none, some, List, [], ◌∷◌, ◌++◌,
  map, length, ltb, leb, nat_eq, ◌==◌, if◌then◌else◌, is_some,
}
use event_stream_rainstorm.Prelude.Dict.{Dict, get, put}
use event_stream_rainstorm.Prelude.Sorting.{sort_by}
use event_stream_rainstorm.Prelude.Text.{Text, text_eq, text_order}
use event_stream_rainstorm.Lines.{max_line}

pub record OperationLogEntry : Type 0 where
  pub op_id : Text
  pub entry_data : Text

-- One node's copy: the file, its operation log, and whether its lock is held for ever.
pub record Replica : Type 0 where
  pub file : Option Text
  pub log : Option (List OperationLogEntry)
  pub locked : Bool

-- Which of the system calls of an operation succeed.
pub record Disk : Type 0 where
  pub write_file : Bool
  pub open_log : Bool
  pub write_log : Bool

-- `blocked`: the call waits for a lock that is never released.
pub data Answer : Type 0 where
  ok refused blocked : Answer

abbrev pub is_ok : Answer → Bool
is_ok ok = true
is_ok refused = false
is_ok blocked = false

-- `CreateFile` on a node, up to the fan-out.
unfoldable pub create_local : Disk → OperationLogEntry → Replica → Answer × Replica
create_local disk entry r =
    if r.locked
    then (blocked, r)
    else if is_some r.log
    then (refused, r)
    else if not disk.write_file
    then (refused, r)
    else if not disk.open_log || not disk.write_log
    then (refused, record r { file = none })
    else (ok, record r { file = some entry.entry_data; log = some (entry ∷ []) })

-- `AppendFile` on a node, up to the fan-out. Where the log or the file is missing, the code returns
-- with the lock held.
unfoldable pub append_local : Disk → OperationLogEntry → Replica → Answer × Replica
append_local disk entry r = if r.locked then (blocked, r) else elim r.log [
  | none ↦ (refused, record r { locked = true })
  | some entries ↦ elim r.file [
    | none ↦ (refused, record r { locked = true })
    | some content ↦
        if not disk.write_file
        then (refused, r)
        else if not disk.open_log || not disk.write_log
        then (refused, record r { file = some (content ++ entry.entry_data) })
        else (
          ok,
          record r {
            file = some (content ++ entry.entry_data);
            log = some (entries ++ entry ∷ []);
          },
        )
  ]
]

-- A call to another node: its disk, or no connection; the reply may be lost after the work is done.
pub data Link : Type 0 where
  down : Link
  up : Disk → Link
  no_reply : Disk → Link

unfoldable pub call_replica :
    (Disk → OperationLogEntry → Replica → Answer × Replica)
    → OperationLogEntry
    → Link
    → Replica
    → Answer × Replica
call_replica method entry down r = (refused, r)
call_replica method entry (up disk) r = method disk entry r
call_replica method entry (no_reply disk) r = (refused, (method disk entry r).1)

-- The calls of `primaryWrite`: the answers, and the replicas afterwards.
unfoldable pub primary_write :
    (Disk → OperationLogEntry → Replica → Answer × Replica)
    → OperationLogEntry
    → List (Link × Replica)
    → List Answer × List Replica
unfolding call_replica
primary_write method entry [] = ([], [])
primary_write method entry ((link, r) ∷ rs) =
    let (answers, rs') = primary_write method entry rs in
    let (a, r') = call_replica method entry link r in (a ∷ answers, r' ∷ rs')

unfoldable pub count_ok : List Answer → ℕ
count_ok [] = 0
count_ok (a ∷ answers) = (if is_ok a then 1 else 0) + count_ok answers

-- A call has no time limit: one that waits for ever holds up `primaryWrite`.
unfoldable pub any_blocked : List Answer → Bool
any_blocked [] = false
any_blocked (blocked ∷ answers) = true
any_blocked (ok ∷ answers) = any_blocked answers
any_blocked (refused ∷ answers) = any_blocked answers

-- The result of `primaryWrite`.
unfoldable pub replicated : List Answer → Answer
unfolding count_ok any_blocked
replicated answers =
    if any_blocked answers
    then blocked
    else if count_ok answers == length answers
    then ok
    else refused

-- `CreateFile` on the primary: its own part under the lock, then, with the lock released, the fan-out,
-- in a run without other calls in between. A failed fan-out removes the primary's file, but not its log.
unfoldable pub create_file :
    Disk → OperationLogEntry → Replica → List (Link × Replica) → Answer × Replica × List Replica
unfolding create_local primary_write replicated
create_file disk entry r others =
    let (a, r') = create_local disk entry r in
    let (answers, others') = primary_write create_local entry others in
    elim a [
      | ok ↦ elim (replicated answers) [
        | ok ↦ (ok, r', others')
        | refused ↦ (refused, record r' { file = none }, others')
        | blocked ↦ (blocked, r', others')
      ]
      | refused ↦ (refused, r', map (λ (o : Link × Replica). o.1) others)
      | blocked ↦ (blocked, r', map (λ (o : Link × Replica). o.1) others)
    ]

-- `AppendFile` on the primary: its own part under the lock, then, with the lock released, the fan-out,
-- in a run without other calls in between. What has been written stays, when the fan-out fails.
unfoldable pub append_file :
    Disk → OperationLogEntry → Replica → List (Link × Replica) → Answer × Replica × List Replica
unfolding append_local primary_write replicated
append_file disk entry r others =
    let (a, r') = append_local disk entry r in
    let (answers, others') = primary_write append_local entry others in
    elim a [
      | ok ↦ (replicated answers, r', others')
      | refused ↦ (refused, r', map (λ (o : Link × Replica). o.1) others)
      | blocked ↦ (blocked, r', map (λ (o : Link × Replica). o.1) others)
    ]

-- `GetFile`
unfoldable pub get_file : Replica → Answer × Option Text
get_file r =
    if r.locked
    then (blocked, none)
    else elim r.file [ none ↦ (refused, none) | some content ↦ (ok, some content) ]
