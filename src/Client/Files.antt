-- ===== src/Client/Files.antt =====
-- demo/demo.go: the commands on files, `ExecCreate`, `ExecAppend`, `ExecGet` and `ExecGetFromReplica`, on
-- the copies that the nodes keep, by address.
pub mod Writing
pub mod Reading
use event_stream_rainstorm.Prelude.{
  ℕ, Bool, true, false, not, Option, none, some, List, [], ◌∷◌, ◌++◌, map, ◌==◌, if◌then◌else◌,
}
use event_stream_rainstorm.Prelude.Text.{Text, text, text_eq}
use event_stream_rainstorm.Constants.{rpc_port}
use event_stream_rainstorm.Ring.{NodeInfo, Replicas, replicas, failure, vm_name_to_ip}
use event_stream_rainstorm.FileStore.{
  OperationLogEntry, Replica, Disk, Answer, ok, refused, blocked, Link, down, up, no_reply,
  create_file, append_file, get_file,
}
use event_stream_rainstorm.FileStore.Upkeep.{WriteCall, call_hydfs_write}

-- The copies of one file.
abbrev pub Store : Type 0
Store = Text → Replica

unfoldable pub put_replicas : List Text → List Replica → Store → Store
put_replicas [] rs store addr = store addr
put_replicas (a ∷ addrs) [] store addr = store addr
put_replicas (a ∷ addrs) (r ∷ rs) store addr =
    if addr == a then r else put_replicas addrs rs store addr

-- What the client says of a write; `waits` where it says nothing, and `index_panic` where the file
-- has no replica.
pub data Written : Type 0 where
  cannot_read no_replicas index_panic no_call failed waits complete : Written

abbrev pub said : Answer → Written
said ok = complete
said refused = failed
said blocked = waits

-- The handler of a write on the primary.
abbrev pub Handler : Type 0
Handler =
    Disk → OperationLogEntry → Replica → List (Link × Replica) → Answer × Replica × List Replica

-- The state after a handler has run on the primary.
abbrev pub handled :
    Handler → OperationLogEntry → WriteCall → Disk → (Text → Link) → Store → Answer × Store
handled handler entry call disk links store =
    let (a, r, rs) =
      handler disk entry (store call.primary)
        (map (λ (addr : Text). (links addr, store addr)) call.non_primary) in
    (a, put_replicas (call.primary ∷ call.non_primary) (r ∷ rs) store)

-- A call of the primary, over the link to it.
unfoldable pub through : Link → (Disk → Answer × Store) → Store → Written × Store
through down run store = (no_call, store)
through (up disk) run store = (said (run disk).0, (run disk).1)
through (no_reply disk) run store = (no_call, (run disk).1)

unfoldable pub call_primary :
    Handler → OperationLogEntry → WriteCall → (Text → Link) → Store → Written × Store
unfolding put_replicas through
call_primary handler entry call links store =
    through (links call.primary) (λ (disk : Disk). handled handler entry call disk links store)
      store

-- `ExecCreate` and `ExecAppend`: the local file goes to the first replica, with the addresses of the
-- others.
unfoldable pub exec_write :
    Handler → Option Text → Replicas → Text → (Text → Link) → Store → Written × Store
unfolding call_primary
exec_write handler none rs op_id links store = (cannot_read, store)
exec_write handler (some local_file) (failure e) op_id links store = (no_replicas, store)
exec_write handler (some local_file) (replicas []) op_id links store = (index_panic, store)
exec_write handler (some local_file) (replicas (n ∷ ns)) op_id links store =
    call_primary handler (record { op_id = op_id; entry_data = local_file })
      (record { primary = n.address; non_primary = map (λ (m : NodeInfo). m.address) ns }) links
      store

abbrev pub exec_create : Option Text → Replicas → Text → (Text → Link) → Store → Written × Store
exec_create = exec_write create_file

abbrev pub exec_append : Option Text → Replicas → Text → (Text → Link) → Store → Written × Store
exec_append = exec_write append_file

-- What a get gives: the local file, or what the client says.
pub data Got : Type 0 where
  got_no_replicas cannot_write all_failed never : Got
  got : Text → Got

abbrev pub saved : Bool → Text → Got
saved writable content = if writable then got content else cannot_write

-- The loop of `ExecGet`: the first replica that answers with the file.
unfoldable pub get_first : Bool → List Text → (Text → Bool) → Store → Got
get_first writable [] reachable store = all_failed
get_first writable (addr ∷ addrs) reachable store =
    let rest = get_first writable addrs reachable store in
    if not (reachable addr)
    then rest
    else let (answer, content) = get_file (store addr) in
      elim answer [
        | ok ↦ elim content [ none ↦ saved writable [] | some c ↦ saved writable c ]
        | refused ↦ rest
        | blocked ↦ never
      ]

unfoldable pub exec_get : Bool → Replicas → (Text → Bool) → Store → Got
unfolding get_first
exec_get writable (failure e) reachable store = got_no_replicas
exec_get writable (replicas rs) reachable store =
    get_first writable (map (λ (m : NodeInfo). m.address) rs) reachable store

-- `ExecGetFromReplica`: one replica, by the name of its machine or by its address.
unfoldable pub exec_get_from_replica : Bool → Text → (Text → Bool) → Store → Got
unfolding get_first
exec_get_from_replica writable replica_address reachable store =
    get_first writable
      (elim (vm_name_to_ip replica_address) [
        | none ↦ replica_address
        | some target_ip ↦ target_ip ++ (text ":" ++ rpc_port)
      ]
        ∷ [])
      reachable store
