-- ===== src/Worker/Registry.antt =====
-- The tasks of a node: each call reaches its own task and no other.
use event_stream_rainstorm.Prelude.{
  ℕ, ◌≡◌, refl, ap, ◌∙◌, Bool, true, false, Option, none, some, List, nat_eq, ==_refl, ◌==◌,
  if◌then◌else◌, arith,
}
use event_stream_rainstorm.Prelude.Dict.{get, put, remove, get-put, get-remove, get-map_values}
use event_stream_rainstorm.Prelude.Text.{Text, text_eq}
use event_stream_rainstorm.Task as Task
use event_stream_rainstorm.Task.{
  StreamTuple, RainStormTask, StartTaskArgs, start_task, push_tuples, World, Reply, success,
  failure, task_not_found,
}
use event_stream_rainstorm.Worker.{
  TaskKey, key_eq, Node, content_of, start_task_on, kill_task_on, push_tuple, update_downstream_on,
}

push_tuple_lem :
    (world : World) (key : TaskKey) (ts : List StreamTuple) (node : Node) (w : Task.Worker)
    → get key node.rs_tasks ≡ some w
    → push_tuple world key ts node ≡ (
      (push_tuples world 0 ts w).0,
      record node { rs_tasks = put key (push_tuples world 0 ts w).1 node.rs_tasks },
    )
unfolding push_tuple
push_tuple_lem world key ts node w e = ground arith

push_tuple_missing :
    (world : World) (key : TaskKey) (ts : List StreamTuple) (node : Node)
    → get key node.rs_tasks ≡ none
    → (push_tuple world key ts node).0 ≡ failure task_not_found
unfolding push_tuple
push_tuple_missing world key ts node e = ground arith

kill_task_on_lem :
    (pid : ℕ) (node : Node) (key : TaskKey)
    → get pid node.task_pid_map ≡ some key
    → (kill_task_on pid node).rs_tasks ≡ remove key node.rs_tasks
unfolding kill_task_on
kill_task_on_lem pid node key e = ground arith

started_pid :
    (args : StartTaskArgs) (file : Option Text) (pipe : ℕ → Bool) (pid : ℕ) (node : Node)
    → get pid (start_task_on args file pipe pid node).task_pid_map
      ≡ some (args.stage_id, args.task_id)
unfolding start_task_on
started_pid args file pipe pid node =
    get-put pid pid _ node.task_pid_map
    ∙ ap (λ b. if b then some (args.stage_id, args.task_id) else get pid node.task_pid_map)
        (==_refl pid)

-- A call of `PushTuple` answers as its task does, changes this task as it does, and no other.
pub push_tuple-task :
    (world : World) (key other : TaskKey) (ts : List StreamTuple) (node : Node) (w : Task.Worker)
    → get key node.rs_tasks ≡ some w
    → ((push_tuple world key ts node).0 ≡ (push_tuples world 0 ts w).0)
      × (get other (push_tuple world key ts node).1.rs_tasks
          ≡ (if key == other then some (push_tuples world 0 ts w).1 else get other node.rs_tasks))
push_tuple-task world key other ts node w e =
    let f = push_tuple_lem world key ts node w e in
    (ap (λ p. p.0) f, ap (λ p. get other p.1.rs_tasks) f ∙ get-put key other _ node.rs_tasks)

same_key : (key : TaskKey) (o : Option Task.Worker) → (if key == key then none else o) ≡ none
same_key key o = ap (λ b. if b then none else o) (==_refl key)

collapse :
    (b : Bool) (x y : Option Task.Worker)
    → (if b then none else if b then x else y) ≡ (if b then none else y)
collapse true x y = refl
collapse false x y = refl

other_kept :
    (args : StartTaskArgs) (file : Option Text) (pipe : ℕ → Bool) (pid : ℕ) (node : Node)
    (other : TaskKey)
    → (if (args.stage_id, args.task_id) == other
        then none
        else get other (start_task_on args file pipe pid node).rs_tasks)
      ≡ (if (args.stage_id, args.task_id) == other then none else get other node.rs_tasks)
unfolding start_task_on
other_kept args file pipe pid node other =
    let key : TaskKey = (args.stage_id, args.task_id) in
    ap (λ o. if key == other then none else o)
      (get-put key other (record { task = start_task args file pipe; log = content_of file })
        node.rs_tasks)
    ∙ collapse (key == other) _ (get other node.rs_tasks)

-- A task that was started and then killed by its process id is not found, and no other task of the
-- node is touched by the kill.
pub kill_task_on-gone :
    (args : StartTaskArgs) (file : Option Text) (pipe : ℕ → Bool) (pid : ℕ) (node : Node)
    (world : World) (ts : List StreamTuple) (other : TaskKey)
    → let node' = kill_task_on pid (start_task_on args file pipe pid node) in
      ((push_tuple world (args.stage_id, args.task_id) ts node').0 ≡ failure task_not_found)
      × (get other node'.rs_tasks
          ≡ (if (args.stage_id, args.task_id) == other then none else get other node.rs_tasks))
kill_task_on-gone args file pipe pid node world ts other =
    let key : TaskKey = (args.stage_id, args.task_id) in
    let n = start_task_on args file pipe pid node in
    let e = kill_task_on_lem pid n key (started_pid args file pipe pid node) in
    let self = ap (get key) e ∙ get-remove key key n.rs_tasks ∙ same_key key (get key n.rs_tasks) in
    (
      push_tuple_missing world key ts (kill_task_on pid n) self,
      ap (get other) e ∙ get-remove key other n.rs_tasks ∙ other_kept args file pipe pid node other,
    )

abbrev given : TaskKey → ℕ → List Text → Task.Worker → Task.Worker
given key stage_id addrs w =
    if key.0 == stage_id then record w { task = record w.task { downstream_list = addrs } } else w

-- `UpdateDownstream` gives the tasks of the stage the new list and leaves the others as they are.
pub update_downstream_on-tasks :
    (stage_id : ℕ) (addrs : List Text) (node : Node) (key : TaskKey) (w : Task.Worker)
    → get key node.rs_tasks ≡ some w
    → get key (update_downstream_on stage_id addrs node).rs_tasks
      ≡ some (
          if key.0 == stage_id
          then record w { task = record w.task { downstream_list = addrs } }
          else w)
unfolding update_downstream_on
update_downstream_on-tasks stage_id addrs node key w e =
    get-map_values _ key node.rs_tasks
    ∙ ap (λ o. elim o [ none ↦ none | some v ↦ some (given key stage_id addrs v) ]) e
