-- ===== src/Tests/Cluster.antt =====
-- Runs of the ring, the leader and the workers.
use mathlib.Core.List.{Nodup, Pairwise, Mem}
use mathlib.Core.Logic.{∥∥₁_elim}
use mathlib.Core.HLevel.{⊥_prop}
use mathlib.Core.List.Perm
use mathlib.Core.List.Memᴰ.{Memᴰ, head, tail}
use event_stream_rainstorm.Prelude.{
  ℕ, ◌+◌, ◌*◌, ◌%◌, ◌≤◌, ◌≡◌, ◌≢◌, ◌⊎◌, refl, ◌∙◌, nat_beq, is_some, ltb, Bool, true, false,
  if◌then◌else◌, Option, none, some, List, [], ◌∷◌, ◌++◌, map, length, get_elem?, get_elem?-of_lt,
  All, nat_eq, ◌==◌, arith,
}
use event_stream_rainstorm.Prelude.Dict.{get}
use event_stream_rainstorm.Prelude.Sorting.{sort_by, insert_by}
use event_stream_rainstorm.Prelude.Text.{
  Text, text, text_eq, text_beq, digits, decimal, before_last, has_byte,
}
use event_stream_rainstorm.Constants.{replica_num}
use event_stream_rainstorm.Member.{Member, alive}
use event_stream_rainstorm.Ring.{
  NodeInfo, hash_func, get_ring_info, ring_node, gossip2_rpc_addr, join_host_port, leader_addr,
  vm_name_to_ip, to_upper, has_prefix, find_name, get_replica, members, replicas,
}
use event_stream_rainstorm.Ring.Placement.{
  get_replica-total, get_replica-nearest, identity, get_replica-perm,
}
use event_stream_rainstorm.Ring.Successor.{ids, distance}
use event_stream_rainstorm.Task.{StartTaskArgs}
use event_stream_rainstorm.Leader.{
  TaskInfo, StageInfo, LeaderStartArgs, Leader, Call, values, stage_tasks,
  calculate_deployment_plan, get_sorted_stage_workers, get_least_loaded_worker, vm_load, load_in,
  max_id,
}
use event_stream_rainstorm.Leader.Plan.{machine, calculate_deployment_plan-in_turn}
use event_stream_rainstorm.Leader.Contiguous.{IsContiguous}
use event_stream_rainstorm.Leader.Workers.{get_sorted_stage_workers-hosts}
use event_stream_rainstorm.Leader.Load.{tasks_on, IsLeast, get_least_loaded_worker-IsLeast}
use event_stream_rainstorm.Leader.Autoscale.{
  Cluster, scale_up, scale_down, monitor_tick, scan_stages, decide, sum, new_task_id,
  dedup_file_name, scale_up_args,
}
use event_stream_rainstorm.Leader.Scaling.{IsSound, task_count}
use event_stream_rainstorm.Leader.Tick.{
  scale_up-IsSound, scale_down-IsSound, monitor_tick-IsSound, scale_down-tasks,
}
use event_stream_rainstorm.Worker.{route_by_key}
use event_stream_rainstorm.Worker.Ends.{host}
use event_stream_rainstorm.Worker.Routing.{route_by_key-hosts}

abbrev op_args : StartTaskArgs
op_args = record {
  stage_id = 1;
  task_id = 0;
  op_exe = text "identity";
  op_args = [];
  is_last_stage = true;
  hydfs_output = text "out";
  exactly_once = true;
  downstream_tasks = [];
  num_upstream = 1;
  hydfs_dedup_log = text "dedup";
}

abbrev task_on : ℕ → Text → TaskInfo
task_on id addr = record {
  stage_id = 1;
  task_id = id;
  vm_addr = addr;
  pid = 10 + id;
  op_exe = text "identity";
  log_file_name = text "log";
  original_args = op_args;
  dedup_file = text "dedup";
}

abbrev tasks : StageInfo
tasks = (1, task_on 1 (text "b")) ∷ (0, task_on 0 (text "a")) ∷ []

abbrev leader : Leader
leader = record {
  global_task_map = (1, tasks) ∷ [];
  task_rates = (1, (0, 70) ∷ (1, 90) ∷ []) ∷ [];
  auto_lw = 10;
  auto_hw = 50;
  total_tasks = 2;
  finished_tasks = 0;
  scale_cooldown = 0;
}

abbrev job : LeaderStartArgs
job = record {
  rs_id = text "job";
  num_stages = 1;
  num_tasks = 2;
  op_exes = text "identity" ∷ [];
  op_args = [] ∷ [];
  src_file = text "src";
  dest_file = text "out";
  exactly_once = true;
  autoscale = true;
  input_rate = 100;
  lw = 1;
  hw = 50;
}

abbrev cluster : Cluster
cluster = record {
  now = 7;
  alive_workers = text "a" ∷ text "b" ∷ text "c" ∷ [];
  launch = λ addr args. some (30, text "log");
}

has_two : (i : ℕ) → is_some (get i tasks) ≡ ltb i 2
unfolding get
has_two i = ground arith

tasks-IsContiguous : IsContiguous (stage_tasks 1 leader)
unfolding stage_tasks get
tasks-IsContiguous = record {
  is_map = (refl, (refl, tt));
  keyed = (refl, (refl, tt));
  ids = has_two;
}

none-IsContiguous : IsContiguous []
unfolding get
none-IsContiguous = record { is_map = tt; keyed = tt; ids = λ i. ground arith }

stage_cases :
    (b : Bool) → IsContiguous (elim (if b then some tasks else none) [ none ↦ [] | some d ↦ d ])
unfolding stage_tasks get
stage_cases true = tasks-IsContiguous
stage_cases false = none-IsContiguous

leader-stages : (i : ℕ) → IsContiguous (stage_tasks i leader)
unfolding stage_tasks get
leader-stages i = stage_cases (1 == i)

leader-IsSound : IsSound leader
unfolding task_count get
leader-IsSound = record { is_map = (refl, tt); contiguous = leader-stages; total = refl }

planned_in_turn :
    (plan : List (List Text)) × (row : List Text) × (calculate_deployment_plan 2 3
        (text "a" ∷ text "b" ∷ [])
      ≡ some plan)
    × (get_elem? plan 1 ≡ some row)
    × (get_elem? row 2 ≡ machine (text "a" ∷ text "b" ∷ []) (1 * 3 + 2))
planned_in_turn =
    calculate_deployment_plan-in_turn 2 3 1 2 (text "a") (text "b" ∷ []) (omega arith) (omega arith)

sorted_hosts :
    get_elem? (get_sorted_stage_workers 1 leader) 1
    ≡ elim (get 1 (stage_tasks 1 leader)) [ none ↦ none | some t ↦ some t.vm_addr ]
sorted_hosts = get_sorted_stage_workers-hosts 1 leader 1 tasks-IsContiguous

chosen-IsLeast :
    Memᴰ (get_least_loaded_worker (text "a" ∷ text "c" ∷ []) leader) (text "a" ∷ text "c" ∷ [])
    × IsLeast
        (tasks_on leader)
        (text "a" ∷ text "c" ∷ [])
        (get_least_loaded_worker (text "a" ∷ text "c" ∷ []) leader)
unfolding vm_load load_in values text_beq
chosen-IsLeast = get_least_loaded_worker-IsLeast (text "a") (text "c" ∷ []) leader (omega arith)

abbrev result : Option (List Call × Leader) → List Call × Leader
result none = ([], leader)
result (some p) = p

scaled_up-IsSound : IsSound (result (scale_up cluster job 1 leader)).1
unfolding scale_up stage_tasks new_task_id max_id get dedup_file_name decimal digits scale_up_args
scaled_up-IsSound =
    scale_up-IsSound cluster job 1 leader (result (scale_up cluster job 1 leader)).0
      (result (scale_up cluster job 1 leader)).1 leader-IsSound refl

monitor_tick-IsSound_example : IsSound (result (monitor_tick cluster job leader)).1
unfolding monitor_tick scan_stages decide sum values scale_up stage_tasks new_task_id max_id get
    dedup_file_name decimal digits scale_up_args
monitor_tick-IsSound_example =
    monitor_tick-IsSound cluster job leader (result (monitor_tick cluster job leader)).0
      (result (monitor_tick cluster job leader)).1 leader-IsSound refl

scaled_down-IsSound : IsSound (scale_down cluster 1 leader).1
scaled_down-IsSound = scale_down-IsSound cluster 1 leader leader-IsSound

scaled_down-tasks :
    get 0 (stage_tasks 1 (scale_down cluster 1 leader).1)
    ≡ (if nat_beq 1 0 then none else get 0 (stage_tasks 1 leader))
unfolding stage_tasks get
scaled_down-tasks = scale_down-tasks cluster 1 0 0 leader tasks-IsContiguous refl

route_by_key-hosts_example :
    (t : TaskInfo) × (get
        (hash_func (text "key") % length (text "a" ∷ text "b" ∷ []))
        (stage_tasks 1 leader)
      ≡ some t)
    × (route_by_key (text "key") (get_sorted_stage_workers 1 leader)
        ≡ some (hash_func (text "key") % length (text "a" ∷ text "b" ∷ []), t.vm_addr))
unfolding get_sorted_stage_workers stage_tasks get values sort_by insert_by
route_by_key-hosts_example =
    route_by_key-hosts (text "key") 1 leader (text "a") (text "b" ∷ []) tasks-IsContiguous refl

abbrev node_at : Text → Member
node_at host = record {
  id = host;
  address = host ++ text ":9000";
  heart_beat_counter = 0;
  incarnation = 0;
  state = alive;
  last_update_time = 0;
}

abbrev node_a : Member
node_a = node_at (text "172.22.159.16")

abbrev node_b : Member
node_b = node_at (text "172.22.95.202")

abbrev node_c : Member
node_c = node_at (text "172.22.155.17")

abbrev live : List Member
live = node_a ∷ node_b ∷ node_c ∷ []

three_nodes : replica_num ≤ length (get_ring_info live)
unfolding get_ring_info ring_node gossip2_rpc_addr before_last join_host_port has_byte leader_addr
    vm_name_to_ip to_upper has_prefix find_name text_beq
three_nodes = omega arith

get_replica-total_example :
    (rs : List NodeInfo) × (get_replica (text "file") (members live) ≡ replicas rs)
    × (length rs ≡ replica_num)
    × All (λ r. r.address ≢ leader_addr) rs
get_replica-total_example = get_replica-total (text "file") live three_nodes

first_replica : (x : NodeInfo) × (get_elem? get_replica-total_example.0 0 ≡ some x)
first_replica =
    get_elem?-of_lt get_replica-total_example.0 0 (omega (arith, get_replica-total_example.2))

first_node : (x : NodeInfo) × (get_elem? (get_ring_info live) 0 ≡ some x)
first_node = get_elem?-of_lt (get_ring_info live) 0 (omega (arith, three_nodes))

get_replica-nearest_example :
    ((j : ℕ) × (get_elem? get_replica-total_example.0 j ≡ some first_node.0))
    ⊎ (distance (hash_func (text "file")) first_replica.0
        ≤ distance (hash_func (text "file")) first_node.0)
get_replica-nearest_example =
    get_replica-nearest (text "file") live get_replica-total_example.0 0 0 first_replica.0
      first_node.0 three_nodes get_replica-total_example.1 first_node.1 first_replica.1

distinct_at : (a : ℕ) (l : List ℕ) → All (λ b. a ≢ b) l → (b : ℕ) → Memᴰ b l → a ≡ b → ⊥
distinct_at a [] h b m e = elim m [ ]
distinct_at a (c ∷ l) h b (head f) e = h.0 (e ∙ f)
distinct_at a (c ∷ l) h b (tail m) e = distinct_at a l h.1 b m e

distinct_ids : (a : ℕ) (l : List ℕ) → All (λ b. a ≢ b) l → (b : ℕ) → Mem b l → a ≢ b
distinct_ids a l h b m e = ∥∥₁_elim m ⊥_prop (λ d. distinct_at a l h b d e)

ids-Nodup : Nodup (map ids (get_ring_info live))
unfolding get_ring_info ring_node gossip2_rpc_addr before_last join_host_port has_byte leader_addr
    vm_name_to_ip to_upper has_prefix find_name text_beq hash_func
ids-Nodup =
    Pairwise.cons
      (λ b m.
        distinct_ids 531234635 (3545738841 ∷ 3260574988 ∷ []) (ground arith, (ground arith, tt)) b
          m)
      (Pairwise.cons (λ b m. distinct_ids 3545738841 (3260574988 ∷ []) (ground arith, tt) b m)
        (Pairwise.cons (λ b m. distinct_ids 3260574988 [] tt b m) Pairwise.nil))

-- A member of which another node has heard later.
abbrev later : Member → Member
later m = record m { heart_beat_counter = 7; last_update_time = 12 }

get_replica-perm_example :
    get_replica (text "file") (members live)
    ≡ get_replica (text "file") (members (later node_b ∷ node_a ∷ later node_c ∷ []))
get_replica-perm_example =
    get_replica-perm (text "file") live (later node_b ∷ node_a ∷ later node_c ∷ []) ids-Nodup
      (Perm.swap (identity node_b) (identity node_a) (identity node_c ∷ []))
