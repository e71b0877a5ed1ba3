-- ===== src/FileStore/Upkeep/Keeping.antt =====
-- What `checkReplica` keeps and what it drops.
use event_stream_rainstorm.Prelude.{if◌then◌else◌, Bool, false, none, List, [], ◌∷◌, nat_eq, ◌==◌}
use event_stream_rainstorm.Prelude.Sorting.{nat_order}
use event_stream_rainstorm.Prelude.Text.{Text, text_eq}
use event_stream_rainstorm.Member.{Member}
use event_stream_rainstorm.Ring.{NodeInfo}
use event_stream_rainstorm.FileStore.{Replica}
use event_stream_rainstorm.FileStore.Upkeep.{Upkeep, is_replica}

-- The node is the primary among the replicas.
abbrev pub is_primary : Text → List NodeInfo → Bool
is_primary rpc_addr [] = false
is_primary rpc_addr (n ∷ ns) = rpc_addr == n.address

-- What has become of a node's copy, by the replicas of its file.
abbrev pub copy_after : (Text → Replica → Replica) → Text → List NodeInfo → Text → Replica → Replica
copy_after merge rpc_addr rs name r =
    if is_replica rpc_addr rs
    then if is_primary rpc_addr rs then merge name r else r
    else record r { file = none; log = none }
