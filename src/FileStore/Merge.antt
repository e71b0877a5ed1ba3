-- ===== src/FileStore/Merge.antt =====
-- node/node.go: `MergeFile`, with `GetLocalOperationLog`, `GetOperationLog`, `ReconcileFile` and
-- `localReconcileFile`. The goroutines that ask for the logs share the variable `err` of `MergeFile`,
-- and the order in which they write it and look at it is an argument. `encoded_length`, the length of
-- an entry's JSON line, and `hash`, `sha256.Sum256`, are parameters.
use event_stream_rainstorm.Prelude.{
  ℕ, Bool, true, false, not, ◌&&◌, ◌||◌, Option, none, some, List, [], ◌∷◌, ◌++◌, map, get_elem?,
  leb, nat_eq, ◌==◌, if◌then◌else◌,
}
use event_stream_rainstorm.Prelude.Dict.{Dict, put}
use event_stream_rainstorm.Prelude.Sorting.{sort_by}
use event_stream_rainstorm.Prelude.Text.{Text, text_eq, text_order}
use event_stream_rainstorm.Lines.{max_line}
use event_stream_rainstorm.FileStore.{OperationLogEntry, Replica, Disk, Link, down, up, no_reply}

-- The scan of an operation log: it ends at a line that is too long.
unfoldable pub read_log : (OperationLogEntry → ℕ) → List OperationLogEntry → List OperationLogEntry
read_log encoded_length [] = []
read_log encoded_length (entry ∷ entries) =
    let rest = read_log encoded_length entries in
    if leb (encoded_length entry) max_line then entry ∷ rest else []

-- `GetOperationLog`; `none` is a failure.
unfoldable pub get_operation_log :
    (OperationLogEntry → ℕ) → Replica → Option (List OperationLogEntry)
unfolding read_log
get_operation_log encoded_length r = elim r.log [
  | none ↦ none
  | some entries ↦ some (read_log encoded_length entries)
]

-- `allOps[entry.OpID] = entry`
unfoldable pub add_all :
    List OperationLogEntry → Dict Text OperationLogEntry → Dict Text OperationLogEntry
add_all [] ops = ops
add_all (entry ∷ entries) ops = add_all entries (put entry.op_id entry ops)

-- The logs that the replicas give, in the order in which they answer.
unfoldable pub all_ops :
    List (Option (List OperationLogEntry))
    → Dict Text OperationLogEntry
    → Dict Text OperationLogEntry
unfolding add_all
all_ops [] ops = ops
all_ops (none ∷ logs) ops = all_ops logs ops
all_ops (some entries ∷ logs) ops = all_ops logs (add_all entries ops)

unfoldable pub contents : List OperationLogEntry → Text
contents [] = []
contents (entry ∷ entries) = entry.entry_data ++ contents entries

-- `finalLog`, sorted by operation id.
unfoldable pub final_log : List (Option (List OperationLogEntry)) → List OperationLogEntry
unfolding all_ops
final_log logs =
    sort_by (λ (entry : OperationLogEntry). entry.op_id)
      (map (λ (o : Text × OperationLogEntry). o.1) (all_ops logs []))

-- A node of a merge: the one that runs it, or another one, with whether the call for its log gets
-- through and how the call with the result goes.
pub data Site : Type 0 where
  own : Disk → Site
  remote : Bool → Link → Site

pub record Peer : Type 0 where
  pub site : Site
  pub replica : Replica

-- The disk that the result is written to, if it gets there.
unfoldable pub disk_of : Site → Option Disk
disk_of (own disk) = some disk
disk_of (remote log_call down) = none
disk_of (remote log_call (up disk)) = some disk
disk_of (remote log_call (no_reply disk)) = some disk

-- What a goroutine has got from a node, when it does not see an error.
abbrev pub received : Site → Option (List OperationLogEntry) → Option (List OperationLogEntry)
received (own disk) log = log
received (remote log_call link) log = if log_call then log else none

unfoldable pub log_given : (OperationLogEntry → ℕ) → Peer → Option (List OperationLogEntry)
unfolding get_operation_log
log_given encoded_length p = received p.site (get_operation_log encoded_length p.replica)

abbrev pub given_by : (OperationLogEntry → ℕ) → Option Peer → Option (List OperationLogEntry)
given_by encoded_length none = none
given_by encoded_length (some p) = log_given encoded_length p

-- A step of the goroutine of one replica: its call, or its look at `err` with what follows.
pub data Turn : Type 0 where
  asks looks : ℕ → Turn

-- Whether `err` is set after a call: a call to another node sets or clears it, and the node's own log
-- is read without it.
abbrev pub error_of : Bool → Site → Bool
error_of failed (own disk) = failed
error_of failed (remote log_call link) = not log_call

unfoldable pub error_after : Bool → Option Peer → Bool
error_after failed none = failed
error_after failed (some p) = error_of failed p.site

-- The logs that are taken, in the order of the looks; `failed` is whether `err` is set.
unfoldable pub gathered :
    (OperationLogEntry → ℕ) → List Peer → Bool → List Turn → List (Option (List OperationLogEntry))
unfolding error_after log_given
gathered encoded_length peers failed [] = []
gathered encoded_length peers failed (asks i ∷ turns) =
    gathered encoded_length peers (error_after failed (get_elem? peers i)) turns
gathered encoded_length peers failed (looks i ∷ turns) =
    (if failed then none else given_by encoded_length (get_elem? peers i))
    ∷ gathered encoded_length peers failed turns

-- `os.WriteFile` of the log, which is emptied when it is opened.
unfoldable pub write_final_log : Disk → OperationLogEntry → Replica → Replica
write_final_log disk entry r =
    if not disk.open_log
    then r
    else if not disk.write_log
    then record r { log = some [] }
    else record r { log = some (entry ∷ []) }

-- Whether there is a file, of this hash.
unfoldable pub is_same : (Text → Text) → Text → Option Text → Bool
is_same hash final_data none = false
is_same hash final_data (some content) = hash content == hash final_data

-- `localReconcileFile`: a file of the same hash is left as it is. A file that cannot be written stays
-- as it was, and its log with it.
unfoldable pub reconcile : (Text → Text) → Disk → Text → OperationLogEntry → Replica → Replica
unfolding write_final_log is_same
reconcile hash disk final_data entry r =
    if is_same hash final_data r.file
    then write_final_log disk entry r
    else if not disk.write_file
    then r
    else write_final_log disk entry (record r { file = some final_data })

-- What the result, if it gets to a disk, makes of a replica.
unfoldable pub pushed : (Text → Text) → Text → OperationLogEntry → Replica → Option Disk → Replica
unfolding reconcile
pushed hash final_data entry r none = r
pushed hash final_data entry r (some disk) = reconcile hash disk final_data entry r

-- The goroutines that send the result; what they make of `err` is only printed.
unfoldable pub push_reconciled : (Text → Text) → Text → OperationLogEntry → List Peer → List Replica
unfolding pushed disk_of
push_reconciled hash final_data entry [] = []
push_reconciled hash final_data entry (p ∷ peers) =
    pushed hash final_data entry p.replica (disk_of p.site)
    ∷ push_reconciled hash final_data entry peers

-- Whether a node's lock is waited for.
unfoldable pub is_awaited : Site → Bool
is_awaited (own disk) = true
is_awaited (remote log_call down) = log_call
is_awaited (remote log_call (up disk)) = true
is_awaited (remote log_call (no_reply disk)) = true

-- A lock that is held for ever is waited for without a limit.
unfoldable pub any_locked : List Peer → Bool
unfolding is_awaited
any_locked [] = false
any_locked (p ∷ peers) = is_awaited p.site && p.replica.locked || any_locked peers

-- `MergeFile` over all replicas, of which `GetReplica` has told; `none` never returns.
unfoldable pub merge_file :
    (Text → Text) → (OperationLogEntry → ℕ) → Text → List Turn → List Peer → Option (List Replica)
unfolding gathered final_log contents push_reconciled any_locked
merge_file hash encoded_length op_id turns peers =
    let final_data = contents (final_log (gathered encoded_length peers false turns)) in
    if any_locked peers
    then none
    else some
        (push_reconciled hash final_data (record { op_id = op_id; entry_data = final_data }) peers)
