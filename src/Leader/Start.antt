-- ===== src/Leader/Start.antt =====
-- node/node_stream.go: `StartRainStorm` and what it calls. The replies to `StartTask` come in any order.
pub mod Requests
pub mod Replies
pub mod Sizes
pub mod Started
pub mod Job
use event_stream_rainstorm.Prelude.{
  ℕ, zero, suc, ◌+◌, ◌-◌, ◌*◌, Bool, true, false, not, Option, none, some, List, [], ◌∷◌, get_elem?,
  ltb, nat_eq, ◌==◌, if◌then◌else◌, is_some, ◌++◌,
}
use event_stream_rainstorm.Prelude.Dict.{put}
use event_stream_rainstorm.Prelude.Sorting.{sort_by}
use event_stream_rainstorm.Prelude.Text.{Text, text, text_eq, text_order, cut}
use event_stream_rainstorm.Member.{Member, is_alive}
use event_stream_rainstorm.Ring.{gossip2_rpc_addr, vm_name_to_ip, or_empty}
use event_stream_rainstorm.Task.{StartTaskArgs}
use event_stream_rainstorm.Leader.{
  TaskInfo, LeaderStartArgs, Leader, stage_tasks, calculate_deployment_plan,
}
use event_stream_rainstorm.Leader.Autoscale.{dedup_file_name}

-- `strings.Split(addr, ":")[0]`
unfoldable pub host_of : Text → Text
host_of addr = elim (cut b':' addr) [ none ↦ addr | some (host, port) ↦ host ]

-- The addresses of the live members, but the leader's, in the order of the list.
unfoldable pub alive_nodes : List Member → List Text
unfolding host_of
alive_nodes [] = []
alive_nodes (m ∷ ms) =
    let rpc_addr = or_empty (gossip2_rpc_addr m.address) in
    let rest = alive_nodes ms in
    if is_alive m.state
    then if host_of rpc_addr == or_empty (vm_name_to_ip (text "VM1")) then rest else rpc_addr ∷ rest
    else rest

unfoldable pub get_alive_workers : List Member → Option (List Text)
unfolding alive_nodes
get_alive_workers ms = elim (sort_by (λ (addr : Text). addr) (alive_nodes ms)) [
  | [] ↦ none
  | addr ∷ addrs ↦ some (addr ∷ addrs)
]

-- `resetLeaderState`, once the log is open.
unfoldable pub reset_leader_state : Leader → Leader
reset_leader_state leader = record leader { global_task_map = []; task_rates = [] }

-- A call of `StartTask`.
pub record Request : Type 0 where
  pub addr : Text
  pub args : StartTaskArgs

-- What the rest of the cluster does while a job starts: the members, whether the log opens, the
-- clock when the file of a task is named, a worker's PID and log name, and the order of the replies.
pub record Launch : Type 0 where
  pub members : List Member
  pub open_log : Bool
  pub now : ℕ → ℕ → ℕ
  pub start_task : Text → StartTaskArgs → Option (ℕ × Text)
  pub arrivals : List Request → List Request

abbrev row_or_nil : Option (List Text) → List Text
row_or_nil none = []
row_or_nil (some row) = row

-- The call for one task, whose operator is at `op_exe`.
abbrev pub request_to :
    Launch → LeaderStartArgs → List (List Text) → ℕ → ℕ → Text → Text → Text → Request
request_to launch args plan stage_id task_id addr op_exe op_arg = record {
  addr = addr;
  args = record {
    stage_id = stage_id;
    task_id = task_id;
    op_exe = op_exe;
    op_args = op_arg;
    is_last_stage = stage_id == args.num_stages;
    hydfs_output = args.dest_file;
    exactly_once = args.exactly_once;
    downstream_tasks =
        if ltb stage_id args.num_stages then row_or_nil (get_elem? plan stage_id) else [];
    num_upstream = if stage_id == 1 then 1 else args.num_tasks;
    hydfs_dedup_log = dedup_file_name args.rs_id stage_id task_id (launch.now stage_id task_id);
  };
}

-- `none` is the panic of an index out of range. Stage `s` of the plan stands at `s - 1`.
unfoldable pub task_request : Launch → LeaderStartArgs → List (List Text) → ℕ → ℕ → Option Request
task_request launch args plan stage_id task_id = elim (get_elem? plan (stage_id - 1)) [
  | none ↦ none
  | some row ↦ elim (get_elem? row task_id) [
    | none ↦ none
    | some addr ↦ elim (get_elem? args.op_exes (stage_id - 1)) [
      | none ↦ none
      | some op_exe ↦ elim (get_elem? args.op_args (stage_id - 1)) [
        | none ↦ none
        | some op_arg ↦ some (request_to launch args plan stage_id task_id addr op_exe op_arg)
      ]
    ]
  ]
]

-- The calls for the tasks of a stage, `n` of them from `task_id` on.
unfoldable pub stage_requests :
    Launch → LeaderStartArgs → List (List Text) → ℕ → ℕ → ℕ → Option (List Request)
unfolding task_request
stage_requests launch args plan stage_id task_id zero = some []
stage_requests launch args plan stage_id task_id (suc n) =
    let rest = stage_requests launch args plan stage_id (task_id + 1) n in
    elim (task_request launch args plan stage_id task_id) [
      | none ↦ none
      | some r ↦ elim rest [ none ↦ none | some rs ↦ some (r ∷ rs) ]
    ]

-- The calls for `n` stages from `stage_id` on.
unfoldable pub requests :
    Launch → LeaderStartArgs → List (List Text) → ℕ → ℕ → Option (List Request)
unfolding stage_requests
requests launch args plan stage_id zero = some []
requests launch args plan stage_id (suc n) =
    let rest = requests launch args plan (stage_id + 1) n in
    elim (stage_requests launch args plan stage_id 0 args.num_tasks) [
      | none ↦ none
      | some rs ↦ elim rest [ none ↦ none | some more ↦ some (rs ++ more) ]
    ]

-- The entry of a task that a worker has started.
unfoldable pub enter : Request → ℕ × Text → Leader → Leader
unfolding stage_tasks
enter r reply leader = record leader {
  global_task_map =
      put r.args.stage_id
        (put r.args.task_id
          (record {
            stage_id = r.args.stage_id;
            task_id = r.args.task_id;
            vm_addr = r.addr;
            pid = reply.0;
            op_exe = r.args.op_exe;
            log_file_name = reply.1;
            original_args = r.args;
            dedup_file = r.args.hydfs_dedup_log;
          })
          (stage_tasks r.args.stage_id leader))
        leader.global_task_map;
}

-- The replies, in the order in which they come: how many are good, and the leader.
unfoldable pub enter_all :
    (Text → StartTaskArgs → Option (ℕ × Text)) → List Request → Leader → ℕ × Leader
unfolding enter
enter_all start [] leader = (0, leader)
enter_all start (r ∷ rs) leader =
    let reply = start r.addr r.args in
    let (n, leader') =
      enter_all start rs (elim reply [ none ↦ leader | some reply ↦ enter r reply leader ]) in
    ((if is_some reply then 1 else 0) + n, leader')

-- `startAllTasks`; `false` is "Some tasks failed to start".
unfoldable pub start_all_tasks :
    Launch → LeaderStartArgs → List (List Text) → Leader → Option (Bool × Leader)
unfolding requests enter_all
start_all_tasks launch args plan leader = elim (requests launch args plan 1 args.num_stages) [
  | none ↦ none
  | some rs ↦
      let (success_count, leader') = enter_all launch.start_task (launch.arrivals rs) leader in
      some (not (ltb success_count (args.num_stages * args.num_tasks)), leader')
]

pub data StartReply : Type 0 where
  started no_log no_workers tasks_failed : StartReply

-- The thresholds of a job that scales.
abbrev pub with_thresholds : LeaderStartArgs → Leader → Leader
with_thresholds args leader =
    if args.autoscale then record leader { auto_lw = args.lw; auto_hw = args.hw } else leader

-- `StartRainStorm`, up to the start of the source. `createHyDFSFile` returns no error, so that the
-- files that the code creates do not change what it does. `none` is a panic.
unfoldable pub start_rain_storm : Launch → LeaderStartArgs → Leader → Option (StartReply × Leader)
unfolding get_alive_workers reset_leader_state start_all_tasks
start_rain_storm launch args leader =
    if not launch.open_log
    then some (no_log, leader)
    else let reset = reset_leader_state leader in
      elim (get_alive_workers launch.members) [
        | none ↦ some (no_workers, reset)
        | some alive ↦ elim (calculate_deployment_plan args.num_stages args.num_tasks alive) [
          | none ↦ none
          | some plan ↦
              let counted = record reset {
                total_tasks = args.num_stages * args.num_tasks;
                finished_tasks = 0;
              } in
              elim (start_all_tasks launch args plan counted) [
                | none ↦ none
                | some (all_started, leader') ↦ some (
                  if all_started then started else tasks_failed,
                  if all_started then with_thresholds args leader' else leader',
                )
              ]
        ]
      ]
