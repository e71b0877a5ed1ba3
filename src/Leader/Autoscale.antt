-- ===== src/Leader/Autoscale.antt =====
-- node/node_autoscale.go: `UpdateRate`, a tick of `monitorAutoscale`, `scaleUp` and `scaleDown`;
-- and `TaskFinished` of node/node_stream.go. Rates are whole numbers of tuples a second, so that the
-- test of an average is a test of a total.
use event_stream_rainstorm.Prelude.{
  ℕ, zero, suc, ◌+◌, ◌-◌, ◌*◌, Bool, Option, none, some, List, [], ◌∷◌, ◌++◌, length, get_elem?,
  ltb, leb, nat_eq, ◌==◌, if◌then◌else◌,
}
use event_stream_rainstorm.Prelude.Dict.{Dict, get, has, put, remove, adjust}
use event_stream_rainstorm.Prelude.Text.{Text, text, text_eq, decimal}
use event_stream_rainstorm.Task.{StartTaskArgs}
use event_stream_rainstorm.Leader.{
  TaskInfo, StageInfo, LeaderStartArgs, Leader, Call, kill_task, process_orphan_log, values,
  stage_tasks, get_sorted_stage_workers, get_stage_task_count, get_least_loaded_worker, max_id,
  broadcast_update_downstream, broadcast_update_upstream,
}

-- What the rest of the cluster does while the leader scales: the time, the live workers, and the PID and
-- log name of a task that a worker starts. Time is in nanoseconds.
pub record Cluster : Type 0 where
  pub now : ℕ
  pub alive_workers : List Text
  pub launch : Text → StartTaskArgs → Option (ℕ × Text)

-- `TaskFinished` with status "Success".
unfoldable pub task_succeeded : Leader → Leader
task_succeeded leader = record leader { finished_tasks = leader.finished_tasks + 1 }

-- `currentFinished >= total`
unfoldable pub is_completed : Leader → Bool
is_completed leader = leb leader.total_tasks leader.finished_tasks

-- The entry of a restarted task.
abbrev restarted : ℕ × Text → TaskInfo → TaskInfo
restarted reply t = record t { pid = reply.0; log_file_name = reply.1 }

-- `TaskFinished` with another status, and the restart it sets going: at once, on the same machine.
unfoldable pub task_failed : Cluster → ℕ → ℕ → Leader → Leader
unfolding stage_tasks
task_failed cluster stage_id task_id leader = elim (get task_id (stage_tasks stage_id leader)) [
  | none ↦ leader
  | some t ↦ elim (cluster.launch t.vm_addr t.original_args) [
    | none ↦ leader
    | some reply ↦ record leader {
      global_task_map =
          adjust stage_id (λ tasks. adjust task_id (restarted reply) tasks) leader.global_task_map;
    }
  ]
]

abbrev no_rates : Option (Dict ℕ ℕ) → Dict ℕ ℕ
no_rates none = []
no_rates (some d) = d

-- A report of a task that has gone is dropped.
unfoldable pub update_rate : ℕ → ℕ → ℕ → Leader → Leader
unfolding stage_tasks
update_rate stage_id task_id tuples_per_sec leader =
    if has task_id (stage_tasks stage_id leader)
    then record leader {
      task_rates =
          put stage_id (put task_id tuples_per_sec (no_rates (get stage_id leader.task_rates)))
            leader.task_rates;
    }
    else leader

unfoldable pub dedup_file_name : Text → ℕ → ℕ → ℕ → Text
unfolding decimal
dedup_file_name rs_id stage_id task_id timestamp =
    text "dedup_"
    ++ rs_id
    ++ text "_stage"
    ++ decimal stage_id
    ++ text "_task"
    ++ decimal task_id
    ++ text "_"
    ++ decimal timestamp

-- The id of the task that `scaleUp` adds.
unfoldable pub new_task_id : StageInfo → ℕ
unfolding max_id
new_task_id tasks = elim (max_id tasks) [ none ↦ 0 | some m ↦ m + 1 ]

-- What `scaleUp` sends to the worker; `none` is the panic of an index out of range.
unfoldable pub scale_up_args : LeaderStartArgs → ℕ → ℕ → Text → Leader → Option StartTaskArgs
unfolding get_sorted_stage_workers get_stage_task_count
scale_up_args args stage_id task_id dedup_file leader =
    elim (get_elem? args.op_exes (stage_id - 1)) [
      | none ↦ none
      | some op_exe ↦ elim (get_elem? args.op_args (stage_id - 1)) [
        | none ↦ none
        | some op_arg ↦ some (record {
          stage_id = stage_id;
          task_id = task_id;
          op_exe = op_exe;
          op_args = op_arg;
          is_last_stage = stage_id == args.num_stages;
          hydfs_output = args.dest_file;
          exactly_once = args.exactly_once;
          downstream_tasks =
              if ltb stage_id args.num_stages
              then get_sorted_stage_workers (stage_id + 1) leader
              else [];
          num_upstream = if stage_id == 1 then 1 else get_stage_task_count (stage_id - 1) leader;
          hydfs_dedup_log = dedup_file;
        })
      ]
    ]

-- The new task in the map.
unfoldable pub add_task : StartTaskArgs → Text → ℕ × Text → Leader → Leader
unfolding stage_tasks
add_task args addr reply leader = record leader {
  global_task_map =
      put args.stage_id
        (put args.task_id
          (record {
            stage_id = args.stage_id;
            task_id = args.task_id;
            vm_addr = addr;
            pid = reply.0;
            op_exe = args.op_exe;
            log_file_name = reply.1;
            original_args = args;
            dedup_file = args.hydfs_dedup_log;
          })
          (stage_tasks args.stage_id leader))
        leader.global_task_map;
  total_tasks = leader.total_tasks + 1;
}

-- `scaleUp`. The dedup file is created by `createHyDFSFile`, which gives no error, so that `scaleUp`
-- goes on whether or not there is a file.
unfoldable pub scale_up : Cluster → LeaderStartArgs → ℕ → Leader → Option (List Call × Leader)
unfolding new_task_id dedup_file_name scale_up_args add_task get_least_loaded_worker
    broadcast_update_downstream broadcast_update_upstream stage_tasks
scale_up cluster args stage_id leader =
    let cooled = record leader { scale_cooldown = cluster.now + 1000000000 } in
    let task_id = new_task_id (stage_tasks stage_id leader) in
    let addr = get_least_loaded_worker cluster.alive_workers leader in
    let file = dedup_file_name args.rs_id stage_id task_id cluster.now in
    if leb (length cluster.alive_workers) 0
    then some ([], cooled)
    else elim (scale_up_args args stage_id task_id file cooled) [
      | none ↦ none
      | some task_args ↦ elim (cluster.launch addr task_args) [
        | none ↦ some ([], cooled)
        | some reply ↦
            let scaled = add_task task_args addr reply cooled in
            some (
              broadcast_update_downstream (stage_id - 1) scaled
                  ++ broadcast_update_upstream (stage_id + 1) scaled,
              scaled,
            )
      ]
    ]

-- The address of task 0, the survivor.
abbrev addr_of : Option TaskInfo → Text
addr_of none = []
addr_of (some t) = t.vm_addr

-- The map and the rates without a task.
unfoldable pub drop_task : ℕ → ℕ → Leader → Leader
drop_task stage_id task_id leader = record leader {
  global_task_map = adjust stage_id (remove task_id) leader.global_task_map;
  total_tasks = leader.total_tasks - 1;
  task_rates = adjust stage_id (remove task_id) leader.task_rates;
}

-- The victim is the task of the greatest id, and never task 0.
unfoldable pub scale_down : Cluster → ℕ → Leader → List Call × Leader
unfolding max_id drop_task broadcast_update_downstream broadcast_update_upstream stage_tasks
scale_down cluster stage_id leader =
    let cooled = record leader { scale_cooldown = cluster.now + 3000000000 } in
    let tasks = stage_tasks stage_id leader in
    elim (max_id tasks) [
      | none ↦ ([], cooled)
      | some m ↦ if m == 0 then ([], cooled) else elim (get m tasks) [
        | none ↦ ([], cooled)
        | some victim ↦
            let scaled = drop_task stage_id m cooled in
            (
              broadcast_update_downstream (stage_id - 1) scaled
                  ++ broadcast_update_upstream (stage_id + 1) scaled
                  ++ kill_task victim.vm_addr victim.pid
                    ∷ process_orphan_log (addr_of (get 0 tasks)) stage_id 0 victim.dedup_file
                    ∷ [],
              scaled,
            )
      ]
    ]

unfoldable pub sum : List ℕ → ℕ
sum [] = 0
sum (n ∷ ns) = n + sum ns

pub data Decision : Type 0 where
  up down stay : Decision

-- The decision on a stage: its rates are summed and divided by their number.
unfoldable pub decide : ℕ → Leader → Decision
unfolding sum values get_stage_task_count
decide stage_id leader =
    let rates = values (no_rates (get stage_id leader.task_rates)) in
    if length rates == 0
    then stay
    else if ltb (leader.auto_hw * length rates) (sum rates)
    then up
    else if ltb (sum rates) (leader.auto_lw * length rates)
    then if ltb 1 (get_stage_task_count stage_id leader) then down else stay
    else stay

-- The stages from `stage_id` on; the first that is scaled ends the tick.
unfoldable pub scan_stages :
    Cluster → LeaderStartArgs → ℕ → ℕ → Leader → Option (List Call × Leader)
unfolding decide scale_up scale_down
scan_stages cluster args stage_id zero leader = some ([], leader)
scan_stages cluster args stage_id (suc n) leader =
    let rest = scan_stages cluster args (stage_id + 1) n leader in
    elim (decide stage_id leader) [
      | up ↦ scale_up cluster args stage_id leader
      | down ↦ some (scale_down cluster stage_id leader)
      | stay ↦ rest
    ]

-- One tick of `monitorAutoscale`.
unfoldable pub monitor_tick : Cluster → LeaderStartArgs → Leader → Option (List Call × Leader)
unfolding scan_stages
monitor_tick cluster args leader =
    if ltb cluster.now leader.scale_cooldown
    then some ([], leader)
    else scan_stages cluster args 1 args.num_stages leader
