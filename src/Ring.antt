-- ===== src/Ring.antt =====
-- utils/utils.go: hashing, addresses, and the ring that places a file on its replicas.
pub mod Successor
pub mod Placement
use mathlib.Core.List.{foldl}
use Prim.Native.Nat.{bit_xor}
use event_stream_rainstorm.Prelude.{
  ℕ, zero, suc, ◌+◌, ◌-◌, ◌*◌, ◌%◌, ◌^◌, Bool, true, false, Option, none, some, List, [], ◌∷◌, ◌++◌,
  map, length, get_elem?, ltb, leb, nat_eq, ◌==◌, ◌&&◌, if◌then◌else◌,
}
use event_stream_rainstorm.Prelude.Dict.{Dict}
use event_stream_rainstorm.Prelude.Sorting.{nat_order, sort_by}
use event_stream_rainstorm.Prelude.Text.{Text, text, text_eq, text_beq, before_last, has_byte}
use event_stream_rainstorm.Constants.{replica_num, rpc_port}
use event_stream_rainstorm.Member.{Member}

pub record NodeInfo : Type 0 where
  pub node_id : ℕ
  pub address : Text

-- `fnv.New32a`: 32-bit FNV-1a over the bytes of the key.
unfoldable pub hash_func : Text → ℕ
hash_func = foldl (λ h b. (bit_xor h b * 16777619) % 2 ^ 32) 2166136261

-- `net.JoinHostPort`: a host with a colon is put in brackets.
unfoldable pub join_host_port : Text → Text → Text
join_host_port host port =
    if has_byte b':' host then text "[" ++ host ++ text "]:" ++ port else host ++ text ":" ++ port

-- `none` is the error of an address without a colon.
unfoldable pub gossip2_rpc_addr : Text → Option Text
unfolding before_last join_host_port
gossip2_rpc_addr addr = elim (before_last b':' addr) [
  | none ↦ none
  | some host ↦ some (join_host_port host rpc_port)
]

abbrev pub ip_to_vm_name : Dict Text Text
ip_to_vm_name =
    (text "172.22.155.16", text "VM1")
    ∷ (text "172.22.159.16", text "VM2")
    ∷ (text "172.22.95.202", text "VM3")
    ∷ (text "172.22.155.17", text "VM4")
    ∷ (text "172.22.159.17", text "VM5")
    ∷ (text "172.22.95.203", text "VM6")
    ∷ (text "172.22.155.18", text "VM7")
    ∷ (text "172.22.159.18", text "VM8")
    ∷ (text "172.22.95.204", text "VM9")
    ∷ (text "172.22.155.19", text "VM10")
    ∷ []

-- `strings.ToUpper` on ASCII. No other letter has the upper case of a letter in "VM".
unfoldable pub to_upper : Text → Text
to_upper = map (λ c. if leb b'a' c && leb c b'z' then c - 32 else c)

unfoldable pub has_prefix : Text → Text → Bool
has_prefix s [] = true
has_prefix [] (p ∷ ps) = false
has_prefix (c ∷ s) (p ∷ ps) = c == p && has_prefix s ps

-- The names of the table are different, so that the order of the loop does not matter.
unfoldable pub find_name : Text → Dict Text Text → Option Text
find_name name [] = none
find_name name ((ip, vm) ∷ rest) =
    if to_upper vm == to_upper name then some ip else find_name name rest

unfoldable pub vm_name_to_ip : Text → Option Text
unfolding to_upper has_prefix find_name
vm_name_to_ip vm_name =
    let upper = to_upper vm_name in
    find_name (if has_prefix upper (text "VM") then upper else text "VM" ++ upper) ip_to_vm_name

abbrev pub or_empty : Option Text → Text
or_empty none = []
or_empty (some s) = s

-- The leader runs on VM1: its RPC address.
unfoldable pub leader_addr : Text
unfolding vm_name_to_ip text_beq
leader_addr = or_empty (vm_name_to_ip (text "VM1")) ++ text ":" ++ rpc_port

-- One round of the loop in `GetRingInfo`: nothing for the leader, and nothing for a bad address.
unfoldable pub ring_node : Member → Option NodeInfo
ring_node m = elim (gossip2_rpc_addr m.address) [
  | none ↦ none
  | some addr ↦
      if addr == leader_addr
      then none
      else some (record { node_id = hash_func m.id; address = addr })
]

unfoldable pub get_ring_info : List Member → List NodeInfo
get_ring_info [] = []
get_ring_info (m ∷ ms) = elim (ring_node m) [
  | none ↦ get_ring_info ms
  | some n ↦ n ∷ get_ring_info ms
]

-- The first index, counted from `i`, of a node at or after the file; 0 if there is none.
unfoldable pub start_from : ℕ → List NodeInfo → ℕ → ℕ
start_from file_id [] i = 0
start_from file_id (n ∷ ns) i = if leb file_id n.node_id then i else start_from file_id ns (i + 1)

-- The second loop, with `k` rounds left. `none` is the panic of `% 0` on an empty list.
unfoldable pub walk : List NodeInfo → ℕ → ℕ → Option (List NodeInfo)
walk nodes index zero = some []
walk nodes index (suc k) = elim (get_elem? nodes (index % length nodes)) [
  | none ↦ none
  | some n ↦ elim (walk nodes (index + 1) k) [ none ↦ none | some rest ↦ some (n ∷ rest) ]
]

unfoldable pub get_successor : ℕ → List NodeInfo → ℕ → Option (List NodeInfo)
unfolding start_from walk
get_successor file_id nodes num = walk nodes (start_from file_id nodes 0) num

pub data ReplicaError : Type 0 where
  no_hostname no_memberlist bad_memberlist not_enough_node not_enough_valid_node panic :
      ReplicaError

pub data Replicas : Type 0 where
  replicas : List NodeInfo → Replicas
  failure : ReplicaError → Replicas

-- What the three calls before the placement may give: the host name, the reply to
-- `mem_list_json`, and its decoding.
pub data MemList : Type 0 where
  members : List Member → MemList
  unavailable : ReplicaError → MemList

abbrev or_panic : Option (List NodeInfo) → Replicas
or_panic none = failure panic
or_panic (some ns) = replicas ns

unfoldable pub get_replica : Text → MemList → Replicas
get_replica name (unavailable e) = failure e
get_replica name (members ms) =
    if ltb (length ms) replica_num
    then failure not_enough_node
    else if ltb (length (get_ring_info ms)) replica_num
    then failure not_enough_valid_node
    else or_panic (
        get_successor (hash_func name) (sort_by (λ (n : NodeInfo). n.node_id) (get_ring_info ms))
          replica_num)
