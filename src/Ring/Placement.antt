-- ===== src/Ring/Placement.antt =====
-- `GetReplica` as a whole: its errors, the nodes it returns, and what it does not depend on.
use Prim.Native.Nat.{bit_xor, ◌*◌, ◌%◌}
use mathlib.Core.List.{Perm-prop, Perm, Permᴰ, Nodup, foldl}
use mathlib.Core.List.Perm
use mathlib.Core.Logic.{∥∥₁_elim}
use event_stream_rainstorm.Prelude.{
  ℕ, suc, sym, ◌^◌, ◌≤◌, ◌<◌, ◌≡◌, refl, ap, subst, ◌∙◌, ◌≢◌, ◌⊎◌, inl, inr, Option, none, some, List, [],
  ◌∷◌, map, length, get_elem?, Option-cases, All, All-at, All-of_at, All-imp, arith,
}
use event_stream_rainstorm.Prelude.Sorting.{
  nat_order, sort_by, sort_by-IsSortedBy, sort_by-eq_of_perm, length-sort_by, All-sort_by,
  length-perm, sort_by_keeps,
}
use event_stream_rainstorm.Prelude.Text.{Text, text_beq_iff}
use event_stream_rainstorm.Constants.{replica_num}
use event_stream_rainstorm.Member.{Member, alive}
use event_stream_rainstorm.Ring.{
  NodeInfo, hash_func, ring_node, get_ring_info, get_successor, get_replica, members, replicas,
  leader_addr, gossip2_rpc_addr, or_panic,
}
use event_stream_rainstorm.Ring.Successor.{ids, distance, get_successor-nearest}

hash_func-lt : (key : Text) → hash_func key < 2 ^ 32
unfolding hash_func
hash_func-lt key = go key 2166136261 (omega arith)
  where
    go :
        (s : Text) (h : ℕ)
        → h < 2 ^ 32
        → foldl (λ h b. (bit_xor h b * 16777619) % 2 ^ 32) h s < 2 ^ 32
    go [] h l = l
    go (b ∷ s) h l = go s _ (omega arith)

-- A node of the ring hashes below 2 ^ 32 and is not the leader.
abbrev pub IsWorkerNode : NodeInfo → Type 0
IsWorkerNode n = (n.node_id < 2 ^ 32) × (n.address ≢ leader_addr)

ring_node-IsWorkerNode : (m : Member) (n : NodeInfo) → ring_node m ≡ some n → IsWorkerNode n
unfolding ring_node
ring_node-IsWorkerNode m n e = elim (Option-cases (gossip2_rpc_addr m.address)) [
  | inl p ↦ absurd (ground (arith, p))
  | inr (addr, p) ↦ ground (arith, p, hash_func-lt m.id, text_beq_iff addr leader_addr)
]

get_ring_info-IsWorkerNode : (ms : List Member) → All IsWorkerNode (get_ring_info ms)
unfolding get_ring_info
get_ring_info-IsWorkerNode [] = tt
get_ring_info-IsWorkerNode (m ∷ ms) = elim (Option-cases (ring_node m)) [
  | inl e ↦ rw (e, get_ring_info) (get_ring_info-IsWorkerNode ms)
  | inr (n, e) ↦ rw (e, get_ring_info) (ring_node-IsWorkerNode m n e, get_ring_info-IsWorkerNode ms)
]

length-get_ring_info-le : (ms : List Member) → length (get_ring_info ms) ≤ length ms
unfolding get_ring_info
length-get_ring_info-le [] = omega arith
length-get_ring_info-le (m ∷ ms) = ground (arith, length-get_ring_info-le ms)

get_replica-enough :
    (name : Text) (ms : List Member)
    → replica_num ≤ length (get_ring_info ms)
    → get_replica name (members ms)
      ≡ or_panic (get_successor (hash_func name) (sort_by ids (get_ring_info ms)) replica_num)
unfolding get_replica
get_replica-enough name ms h = ground (arith, length-get_ring_info-le ms)

get_replica_lem :
    (name : Text) (ms : List Member)
    → replica_num ≤ length (get_ring_info ms)
    → (rs : List NodeInfo) × (get_replica name (members ms) ≡ replicas rs)
      × (length rs ≡ replica_num)
      × ((i : ℕ) (x : NodeInfo) → get_elem? rs i ≡ some x → x.address ≢ leader_addr)
      × ((a i : ℕ) (x y : NodeInfo)
          → get_elem? (get_ring_info ms) a ≡ some y
          → get_elem? rs i ≡ some x
          → ((j : ℕ) × (get_elem? rs j ≡ some y))
            ⊎ (distance (hash_func name) x ≤ distance (hash_func name) y))
get_replica_lem name ms h =
    let ring = get_ring_info ms in
    let l = length-sort_by ids ring in
    let good = All-sort_by ids IsWorkerNode ring (get_ring_info-IsWorkerNode ms) in
    let (rs, e, n, from, mono, near) =
      get_successor-nearest (hash_func name) (sort_by ids ring) replica_num (hash_func-lt name)
        (All-imp IsWorkerNode (λ n. n.node_id < 2 ^ 32) (λ n g. g.0) _ good)
        (sort_by-IsSortedBy ids ring) (omega arith) (omega arith) in
    (
      rs,
      get_replica-enough name ms h ∙ ap or_panic e,
      n,
      (λ i x p. let (a, q) = from i x p in (All-at IsWorkerNode (sort_by ids ring) a good q).1),
      (λ a i x y p q. let (b, p') = sort_by_keeps ids ring a p in near b i x y p' q),
    )

-- With three nodes besides the leader a file gets three replicas, and none of them is the leader.
pub get_replica-total :
    (name : Text) (ms : List Member)
    → replica_num ≤ length (get_ring_info ms)
    → (rs : List NodeInfo) × (get_replica name (members ms) ≡ replicas rs)
      × (length rs ≡ replica_num)
      × All (λ r. r.address ≢ leader_addr) rs
get_replica-total name ms h =
    let (rs, e, n, workers, near) = get_replica_lem name ms h in
    (rs, e, n, All-of_at (λ r. r.address ≢ leader_addr) rs workers)

-- No node of the ring is nearer to a file, clockwise from the file's hash, than a replica of it,
-- but the replicas themselves.
pub get_replica-nearest :
    (name : Text) (ms : List Member) (rs : List NodeInfo) (a i : ℕ) (x y : NodeInfo)
    → replica_num ≤ length (get_ring_info ms)
    → get_replica name (members ms) ≡ replicas rs
    → get_elem? (get_ring_info ms) a ≡ some y
    → get_elem? rs i ≡ some x
    → ((j : ℕ) × (get_elem? rs j ≡ some y))
      ⊎ (distance (hash_func name) x ≤ distance (hash_func name) y)
get_replica-nearest name ms rs a i x y h e p q =
    let (rs', e', n, workers, near) = get_replica_lem name ms h in
    let same : rs' ≡ rs = ground (arith, e, e') in
    subst
      (λ ts.
        ((j : ℕ) × (get_elem? ts j ≡ some y))
        ⊎ (distance (hash_func name) x ≤ distance (hash_func name) y))
      same (near a i x y p (ap (λ ts. get_elem? ts i) same ∙ q))

abbrev push_node : Option NodeInfo → List NodeInfo → List NodeInfo
push_node none ring = ring
push_node (some n) ring = n ∷ ring

get_ring_info-cons :
    (m : Member) (ms : List Member)
    → get_ring_info (m ∷ ms) ≡ push_node (ring_node m) (get_ring_info ms)
unfolding get_ring_info
get_ring_info-cons m ms = ground arith

push_node-perm :
    (o : Option NodeInfo) (r s : List NodeInfo) → Perm r s → Perm (push_node o r) (push_node o s)
push_node-perm none r s p = p
push_node-perm (some n) r s p = Perm.cons n p

push_node-push_node :
    (o q : Option NodeInfo) (r : List NodeInfo)
    → Perm (push_node o (push_node q r)) (push_node q (push_node o r))
push_node-push_node none q r = Perm.refl _
push_node-push_node (some n) none r = Perm.refl _
push_node-push_node (some n) (some k) r = Perm.swap k n r

get_ring_info-permᴰ :
    {ms ns : List Member} → Permᴰ ms ns → Perm (get_ring_info ms) (get_ring_info ns)
get_ring_info-permᴰ Permᴰ.nil = Perm.refl _
get_ring_info-permᴰ (Permᴰ.cons {a} {l₁} {l₂} e p) =
    rw (← e) (simp get_ring_info-cons (push_node-perm (ring_node a) _ _ (get_ring_info-permᴰ p)))
get_ring_info-permᴰ (Permᴰ.swap {a} {b} {l} e f) =
    rw (← e, ← f)
      (simp get_ring_info-cons (push_node-push_node (ring_node a) (ring_node b) (get_ring_info l)))
get_ring_info-permᴰ (Permᴰ.trans p q) = Perm.trans (get_ring_info-permᴰ p) (get_ring_info-permᴰ q)

NodeInfo-set : IsSet NodeInfo
NodeInfo-set = hlevel

-- Who a member is: its id and its address.
abbrev pub identity : Member → Text × Text
identity m = (m.id, m.address)

-- A member of which nothing else is known.
abbrev bare : Text × Text → Member
bare (id, address) = record {
  id = id;
  address = address;
  heart_beat_counter = 0;
  incarnation = 0;
  state = alive;
  last_update_time = 0;
}

ring_node-bare : (m : Member) → ring_node (bare (identity m)) ≡ ring_node m
unfolding ring_node
ring_node-bare m = refl

get_ring_info-bare :
    (ms : List Member) → get_ring_info (map bare (map identity ms)) ≡ get_ring_info ms
get_ring_info-bare [] = refl
get_ring_info-bare (m ∷ ms) =
    get_ring_info-cons (bare (identity m)) (map bare (map identity ms))
    ∙ (λ i. push_node (ring_node-bare m i) (get_ring_info-bare ms i))
    ∙ sym (get_ring_info-cons m ms)

same_ring :
    (ms ns : List Member)
    → Perm (map identity ms) (map identity ns)
    → Perm (get_ring_info ms) (get_ring_info ns)
same_ring ms ns p =
    rw (← get_ring_info-bare ms, ← get_ring_info-bare ns)
      (∥∥₁_elim (Perm.map bare p) Perm-prop get_ring_info-permᴰ)

length-identities : (ms : List Member) → length (map identity ms) ≡ length ms
length-identities [] = refl
length-identities (m ∷ ms) = ap suc (length-identities ms)

-- Two nodes whose member lists name the same members place a file on the same replicas, in the same
-- order, or give the same error. The members are compared by their ids and addresses alone: the lists
-- may differ in their order and in every heartbeat, incarnation, state and time. The condition is that
-- no two nodes of the ring hash to the same number.
pub get_replica-perm :
    (name : Text) (ms ns : List Member)
    → Nodup (map ids (get_ring_info ms))
    → Perm (map identity ms) (map identity ns)
    → get_replica name (members ms) ≡ get_replica name (members ns)
unfolding get_replica
get_replica-perm name ms ns distinct p =
    let ring = same_ring ms ns p in
    let size = sym (length-identities ms) ∙ length-perm p ∙ length-identities ns in
    rw (size, length-perm ring, sort_by-eq_of_perm ids NodeInfo-set distinct ring) refl
