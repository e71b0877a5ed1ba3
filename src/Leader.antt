-- ===== src/Leader.antt =====
-- node/node_stream.go and node/node_autoscale.go, the leader's side of a stream job: the task map,
-- the plan, the rates, scaling up and down, finished tasks.
pub mod Plan
pub mod Autoscale
pub mod Contiguous
pub mod Workers
pub mod Load
pub mod Scaling
pub mod Tick
pub mod Start
use event_stream_rainstorm.Prelude.{
  ℕ, zero, suc, ◌+◌, ◌-◌, ◌*◌, ◌%◌, Bool, true, false, not, ◌&&◌, ◌||◌, Option, none, some, List,
  [], ◌∷◌, ◌++◌, map, length, get_elem?, ltb, leb, nat_eq, ◌==◌, if◌then◌else◌, is_some,
}
use event_stream_rainstorm.Prelude.Dict.{Dict, get, has, put, remove}
use event_stream_rainstorm.Prelude.Sorting.{nat_order, sort_by}
use event_stream_rainstorm.Prelude.Text.{Text, text, text_eq}
use event_stream_rainstorm.Task.{StartTaskArgs}

pub record TaskInfo : Type 0 where
  pub stage_id : ℕ
  pub task_id : ℕ
  pub vm_addr : Text
  pub pid : ℕ
  pub op_exe : Text
  pub log_file_name : Text
  pub original_args : StartTaskArgs
  pub dedup_file : Text

-- `StageInfo.Tasks`
abbrev pub StageInfo : Type 0
StageInfo = Dict ℕ TaskInfo

pub record LeaderStartArgs : Type 0 where
  pub rs_id : Text
  pub num_stages : ℕ
  pub num_tasks : ℕ
  pub op_exes : List Text
  pub op_args : List Text
  pub src_file : Text
  pub dest_file : Text
  pub exactly_once : Bool
  pub autoscale : Bool
  pub input_rate : ℕ
  pub lw : ℕ
  pub hw : ℕ

-- The leader's part of the node. A rate is a number of tuples in a second.
pub record Leader : Type 0 where
  pub global_task_map : Dict ℕ StageInfo
  pub task_rates : Dict ℕ (Dict ℕ ℕ)
  pub auto_lw : ℕ
  pub auto_hw : ℕ
  pub total_tasks : ℕ
  pub finished_tasks : ℕ
  pub scale_cooldown : ℕ

-- The calls the leader sends to the workers.
pub data Call : Type 0 where
  update_downstream : (addr : Text) → (stage_id : ℕ) → (downstream : List Text) → Call
  update_upstream : (addr : Text) → (stage_id num_upstream : ℕ) → Call
  kill_task : (addr : Text) → (pid : ℕ) → Call
  process_orphan_log : (addr : Text) → (stage_id task_id : ℕ) → (log : Text) → Call

unfoldable pub values {ℓ} : {V : Type ℓ} → Dict ℕ V → List V
values [] = []
values ((k, v) ∷ d) = v ∷ values d

-- The tasks of a stage; a stage that is missing has none.
unfoldable pub stage_tasks : ℕ → Leader → StageInfo
stage_tasks stage_id leader = elim (get stage_id leader.global_task_map) [
  | none ↦ []
  | some tasks ↦ tasks
]

-- `plan[stageID]`, from the task of index `i`; `none` is the panic of `% 0`.
unfoldable pub plan_stage : List Text → ℕ → ℕ → Option (List Text)
plan_stage alive i zero = some []
plan_stage alive i (suc n) =
    let rest = plan_stage alive (i + 1) n in
    elim (get_elem? alive (i % length alive)) [
      | none ↦ none
      | some addr ↦ elim rest [ none ↦ none | some addrs ↦ some (addr ∷ addrs) ]
    ]

-- The plans of the stages, from the first on.
unfoldable pub plan_stages : ℕ → List Text → ℕ → ℕ → Option (List (List Text))
plan_stages num_tasks alive i zero = some []
plan_stages num_tasks alive i (suc n) =
    let rest = plan_stages num_tasks alive (i + num_tasks) n in
    elim (plan_stage alive i num_tasks) [
      | none ↦ none
      | some stage ↦ elim rest [ none ↦ none | some stages ↦ some (stage ∷ stages) ]
    ]

-- Stage `s` of the result, from 0, is the code's stage `s + 1`.
unfoldable pub calculate_deployment_plan : ℕ → ℕ → List Text → Option (List (List Text))
unfolding plan_stages
calculate_deployment_plan num_stages num_tasks alive_nodes =
    plan_stages num_tasks alive_nodes 0 num_stages

unfoldable pub get_sorted_stage_workers : ℕ → Leader → List Text
unfolding stage_tasks
get_sorted_stage_workers stage_id leader =
    map (λ (t : TaskInfo). t.vm_addr)
      (sort_by (λ (t : TaskInfo). t.task_id) (values (stage_tasks stage_id leader)))

unfoldable pub get_stage_task_count : ℕ → Leader → ℕ
unfolding stage_tasks
get_stage_task_count stage_id leader = length (stage_tasks stage_id leader)

-- `vmLoad[addr]`
unfoldable pub load_in : Text → List TaskInfo → ℕ
load_in addr [] = 0
load_in addr (t ∷ ts) = (if t.vm_addr == addr then 1 else 0) + load_in addr ts

unfoldable pub vm_load : Text → List StageInfo → ℕ
vm_load addr [] = 0
vm_load addr (tasks ∷ stages) = load_in addr (values tasks) + vm_load addr stages

-- The search for a smaller load; `minLoad` is 999999 at first.
unfoldable pub find_min : (Text → ℕ) → ℕ → Text → List Text → Text
find_min load min_load best_node [] = best_node
find_min load min_load best_node (addr ∷ addrs) =
    if ltb (load addr) min_load
    then find_min load (load addr) addr addrs
    else find_min load min_load best_node addrs

unfoldable pub get_least_loaded_worker : List Text → Leader → Text
unfolding vm_load find_min
get_least_loaded_worker [] leader = []
get_least_loaded_worker (addr ∷ addrs) leader =
    find_min (λ a. vm_load a (values leader.global_task_map)) 999999 addr (addr ∷ addrs)

-- `maxID` after the loop over the tasks of a stage; `none` is -1.
unfoldable pub max_id : StageInfo → Option ℕ
max_id [] = none
max_id ((k, t) ∷ d) = elim (max_id d) [
  | none ↦ some k
  | some m ↦ if ltb m k then some k else some m
]

-- One call for each task of the stage.
unfoldable pub broadcast_update_downstream : ℕ → Leader → List Call
unfolding get_sorted_stage_workers stage_tasks
broadcast_update_downstream target_stage_id leader =
    if ltb target_stage_id 1
    then []
    else map
        (λ (t : TaskInfo).
          update_downstream t.vm_addr target_stage_id
            (get_sorted_stage_workers (target_stage_id + 1) leader))
        (values (stage_tasks target_stage_id leader))

unfoldable pub broadcast_update_upstream : ℕ → Leader → List Call
unfolding get_stage_task_count stage_tasks
broadcast_update_upstream target_stage_id leader =
    if ltb target_stage_id 1
    then []
    else map
        (λ (t : TaskInfo).
          update_upstream t.vm_addr target_stage_id
            (get_stage_task_count (target_stage_id - 1) leader))
        (values (stage_tasks target_stage_id leader))
