-- ===== src/Worker.antt =====
-- node/node_stream.go and node/node_autoscale.go, a worker's side: its tasks by key, the calls that
-- reach them, and how a task and the source choose the worker a tuple is sent to.
pub mod Routing
pub mod Registry
pub mod Sending
pub mod Ids
pub mod Reuse
pub mod Ends
use event_stream_rainstorm.Prelude.{
  ℕ, zero, suc, ◌+◌, ◌%◌, ◌≡◌, ◌↔◌, arith, Bool, true, false, not, ◌&&◌, ◌||◌, Option, none, some,
  List, [], ◌∷◌, ◌++◌, map, length, get_elem?, ltb, leb, nat_eq, ◌==◌, if◌then◌else◌, Eq, is_some,
}
use event_stream_rainstorm.Prelude.Dict.{Dict, get, put, remove, map_values}
use event_stream_rainstorm.Prelude.Text.{Text, text, text_eq, decimal, cut}
use event_stream_rainstorm.Ring.{hash_func}
use event_stream_rainstorm.Lines.{tab}
use event_stream_rainstorm.Task.{
  StreamTuple, RainStormTask, StartTaskArgs, start_task, replay_log_data, push_tuples, World, Reply,
  success, failure, task_not_found,
}
use event_stream_rainstorm.Task as Task

-- `getTaskKey`: the stage and the task of "%d:%d", which `Sscanf` reads back.
abbrev pub TaskKey : Type 0
TaskKey = ℕ × ℕ

abbrev pub key_beq : TaskKey → TaskKey → Bool
key_beq k l = k.0 == l.0 && k.1 == l.1

pub key_beq_iff : (k l : TaskKey) → (key_beq k l ≡ true) ↔ (k ≡ l)
key_beq_iff (a, b) (c, d) = ground arith

instance abbrev pub key_eq : Eq TaskKey
key_eq = record { beq = key_beq; decides = key_beq_iff }

-- The tasks of a node, each with the content of its dedup log in HyDFS.
pub record Node : Type 0 where
  pub rs_tasks : Dict TaskKey Task.Worker
  pub task_pid_map : Dict ℕ TaskKey

abbrev pub content_of : Option Text → Text
content_of none = []
content_of (some content) = content

-- `StartTask`, once the operator runs as process `pid`. `file` is the dedup log, if HyDFS gives it;
-- the replay it sets going is done before the first tuple.
unfoldable pub start_task_on : StartTaskArgs → Option Text → (ℕ → Bool) → ℕ → Node → Node
start_task_on args file pipe pid node =
    let key : TaskKey = (args.stage_id, args.task_id) in
    record {
      rs_tasks =
          put key (record { task = start_task args file pipe; log = content_of file })
            node.rs_tasks;
      task_pid_map = put pid key node.task_pid_map;
    }

-- `KillTask`, once the process has been killed.
unfoldable pub kill_task_on : ℕ → Node → Node
kill_task_on pid node = elim (get pid node.task_pid_map) [
  | none ↦ node
  | some key ↦ record {
    rs_tasks = remove key node.rs_tasks;
    task_pid_map = remove pid node.task_pid_map;
  }
]

-- `PushTuple`
unfoldable pub push_tuple : World → TaskKey → List StreamTuple → Node → Reply × Node
unfolding push_tuples
push_tuple world key ts node = elim (get key node.rs_tasks) [
  | none ↦ (failure task_not_found, node)
  | some w ↦
      let (reply, w') = push_tuples world 0 ts w in
      (reply, record node { rs_tasks = put key w' node.rs_tasks })
]

-- `UpdateDownstream`, on every task of the stage.
unfoldable pub update_downstream_on : ℕ → List Text → Node → Node
unfolding map_values
update_downstream_on stage_id downstream_tasks node = record node {
  rs_tasks =
      map_values
        (λ (key : TaskKey) (w : Task.Worker).
          if key.0 == stage_id
          then record w { task = record w.task { downstream_list = downstream_tasks } }
          else w)
        node.rs_tasks;
}

-- `UpdateUpstream`, on every task of the stage. The number of ends of stream is not looked at.
unfoldable pub update_upstream_on : ℕ → ℕ → Node → Node
unfolding map_values
update_upstream_on stage_id num_upstream node = record node {
  rs_tasks =
      map_values
        (λ (key : TaskKey) (w : Task.Worker).
          if key.0 == stage_id
          then record w { task = record w.task { num_upstream = num_upstream } }
          else w)
        node.rs_tasks;
}

-- `ProcessOrphanLog`, and the replay it sets going. `file` is the log, which a replica may give.
unfoldable pub process_orphan_log_on : TaskKey → Option Text → (ℕ → Bool) → Node → Bool × Node
process_orphan_log_on key file pipe node = elim (get key node.rs_tasks) [
  | none ↦ (false, node)
  | some w ↦ elim file [
    | none ↦ (true, node)
    | some content ↦ (
      true,
      record node {
        rs_tasks =
            put key (record w { task = replay_log_data true pipe content w.task }) node.rs_tasks;
      },
    )
  ]
]

-- What one round of a sending loop does: a worker and the index of the task there, or no worker yet.
unfoldable pub route : ℕ → List Text → Option (ℕ × Text)
route n [] = none
route n (addr ∷ addrs) =
    let index = n % length (addr ∷ addrs) in
    elim (get_elem? (addr ∷ addrs) index) [ none ↦ none | some target ↦ some (index, target) ]

-- `sendTupleWithDynamicRouting`: the worker by the hash of the key.
unfoldable pub route_by_key : Text → List Text → Option (ℕ × Text)
unfolding route
route_by_key key downstream = route (hash_func key) downstream

-- `sendSourceTuple`: the workers of the first stage in turn.
unfoldable pub route_source : ℕ → List Text → Option (ℕ × Text)
unfolding route
route_source seq workers = route seq workers

-- "%d-%d-%d"
unfoldable pub output_id : ℕ → ℕ → ℕ → Text
output_id stage_id task_id seq =
    decimal stage_id ++ (text "-" ++ (decimal task_id ++ (text "-" ++ decimal seq)))

-- The tuple that a line of an operator's output becomes.
unfoldable pub output_tuple : ℕ → ℕ → ℕ → Text → StreamTuple
unfolding output_id
output_tuple stage_id task_id seq line =
    let parts : Text × Text = elim (cut tab line) [ none ↦ (line, line) | some p ↦ p ] in
    record {
      key = parts.0;
      value = parts.1;
      message_id = output_id stage_id task_id seq;
      is_eos = false;
    }

-- The lines of an operator's output, numbered on from `SeqNum`.
unfoldable pub output_tuples : ℕ → ℕ → List Text → RainStormTask → List StreamTuple × RainStormTask
unfolding output_tuple
output_tuples stage_id task_id [] t = ([], t)
output_tuples stage_id task_id (line ∷ lines) t =
    let t' = record t { seq_num = t.seq_num + 1 } in
    let (ts, t'') = output_tuples stage_id task_id lines t' in
    (output_tuple stage_id task_id t'.seq_num line ∷ ts, t'')

-- The status that a task reports when its output ends.
unfoldable pub is_success : RainStormTask → Bool
is_success t = leb t.num_upstream t.eos_count
