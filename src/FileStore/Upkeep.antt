-- ===== src/FileStore/Upkeep.antt =====
-- node/node.go: `checkReplica`, by which a node drops the files that are no longer its own and merges
-- those whose primary it is, and `TriggerAppend`; with `CallHyDFSWrite` of utils/stream_utils.go.
pub mod Keeping
pub mod Writing
use event_stream_rainstorm.Prelude.{
  ℕ, zero, suc, get_elem?, Bool, true, false, ◌||◌, Option, none, some, List, [], ◌∷◌, map, nat_eq,
  ◌==◌, if◌then◌else◌, is_some,
}
use event_stream_rainstorm.Prelude.Dict.{Dict}
use event_stream_rainstorm.Prelude.Sorting.{nat_order, sort_by}
use event_stream_rainstorm.Prelude.Text.{Text, text_eq}
use event_stream_rainstorm.Constants.{replica_num}
use event_stream_rainstorm.Member.{Member}
use event_stream_rainstorm.Ring.{
  NodeInfo, hash_func, get_ring_info, get_successor, Replicas, replicas, failure,
}
use event_stream_rainstorm.FileStore.{Replica}

-- The files of a node by name.
abbrev pub Files : Type 0
Files = Dict Text Replica

unfoldable pub is_replica : Text → List NodeInfo → Bool
is_replica rpc_addr [] = false
is_replica rpc_addr (n ∷ ns) = rpc_addr == n.address || is_replica rpc_addr ns

-- What is done with a file.
pub data Upkeep : Type 0 where
  merged kept dropped : Upkeep

-- A file by its replicas; `none` is the panic of an index out of range.
unfoldable pub upkeep_at : Text → List NodeInfo → Option Upkeep
unfolding is_replica
upkeep_at rpc_addr [] = none
upkeep_at rpc_addr (n ∷ ns) =
    if is_replica rpc_addr (n ∷ ns)
    then if rpc_addr == n.address then some merged else some kept
    else some dropped

unfoldable pub upkeep : Text → List NodeInfo → Text → Option Upkeep
unfolding upkeep_at
upkeep rpc_addr ring name = elim (get_successor (hash_func name) ring replica_num) [
  | none ↦ none
  | some ns ↦ upkeep_at rpc_addr ns
]

-- `os.Remove` of the file and of its log, without the file's lock.
abbrev pub removed : Replica → Replica
removed r = record r { file = none; log = none }

-- A node's copy once the loop and the merges that it starts are over; `merge` is what `MergeFile`,
-- which runs in a goroutine of its own, makes of the copy.
abbrev pub after : (Text → Replica → Replica) → Upkeep → Text → Replica → Replica
after merge merged name r = merge name r
after merge kept name r = r
after merge dropped name r = removed r

-- The names to merge, with this one if it is to be.
abbrev pub noted : Upkeep → Text → List Text → List Text
noted merged name merges = name ∷ merges
noted kept name merges = merges
noted dropped name merges = merges

-- A name that has no file in the storage directory is not looked at.
unfoldable pub file_upkeep : Text → List NodeInfo → Text → Replica → Option Upkeep
unfolding upkeep
file_upkeep rpc_addr ring name r = elim r.file [
  | none ↦ some kept
  | some content ↦ upkeep rpc_addr ring name
]

-- The loop over the files: the names whose merge is started, and the files when these are done.
unfoldable pub check_files :
    (Text → Replica → Replica) → Text → List NodeInfo → Files → Option (List Text × Files)
unfolding file_upkeep
check_files merge rpc_addr ring [] = some ([], [])
check_files merge rpc_addr ring ((name, r) ∷ files) = elim (file_upkeep rpc_addr ring name r) [
  | none ↦ none
  | some u ↦ elim (check_files merge rpc_addr ring files) [
    | none ↦ none
    | some (merges, files') ↦ some (noted u name merges, (name, after merge u name r) ∷ files')
  ]
]

-- `checkReplica`. The routine that would call it is not started (`Start` has it as a comment).
unfoldable pub check_replica :
    (Text → Replica → Replica) → Text → List Member → Files → Option (List Text × Files)
unfolding check_files
check_replica merge rpc_addr members files =
    check_files merge rpc_addr (sort_by (λ (n : NodeInfo). n.node_id) (get_ring_info members)) files

-- A write as it is sent: to the primary, with the addresses of the others.
pub record WriteCall : Type 0 where
  pub primary : Text
  pub non_primary : List Text

-- The replicas but the one at `primary_index`.
unfoldable pub all_but : ℕ → List NodeInfo → List Text
all_but i [] = []
all_but zero (n ∷ ns) = map (λ (n : NodeInfo). n.address) ns
all_but (suc i) (n ∷ ns) = n.address ∷ all_but i ns

-- `CallHyDFSWrite`: the first replica is the primary. `none` is an error before the call.
unfoldable pub call_hydfs_write : Replicas → Option WriteCall
unfolding all_but
call_hydfs_write (failure e) = none
call_hydfs_write (replicas []) = none
call_hydfs_write (replicas (n ∷ ns)) =
    some (record { primary = n.address; non_primary = all_but 0 (n ∷ ns) })

pub data Trigger : Type 0 where
  cannot_read no_replicas index_panic : Trigger
  calls : WriteCall → Trigger

-- `TriggerAppend`: the primary is chosen by chance. `GetReplica` gives as many replicas as the loop
-- over `ReplicaNum` reads.
unfoldable pub trigger_append : Option Text → Replicas → ℕ → Trigger
unfolding all_but
trigger_append none rs primary_index = cannot_read
trigger_append (some content) (failure e) primary_index = no_replicas
trigger_append (some content) (replicas rs) primary_index = elim (get_elem? rs primary_index) [
  | none ↦ index_panic
  | some n ↦ calls (record { primary = n.address; non_primary = all_but primary_index rs })
]
