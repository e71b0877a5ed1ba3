-- ===== src/Tests/Streams.antt =====
-- Runs of a task: tuples, calls of `PushTuple` and restarts.
use event_stream_rainstorm.Prelude.{
  ℕ, ◌≡◌, refl, Bool, true, false, none, some, List, [], ◌∷◌, ◌++◌, map, All, nat_eq, if◌then◌else◌,
  ◌==◌, arith,
}
use event_stream_rainstorm.Prelude.Dict.{get, put}
use event_stream_rainstorm.Prelude.Text.{text, text_eq, text_beq, has_byte}
use event_stream_rainstorm.Lines
use event_stream_rainstorm.Lines.{scan_lines, trim_space}
use event_stream_rainstorm.Task.{
  StreamTuple, Worker, World, stored, lost, success, failure, task_not_found, processed, input_line,
  push_one, push_tuples, pushes, StartTaskArgs, start_task, new_task, replay_log_data, replay_lines,
  load_dedup_log, load_ids,
}
use event_stream_rainstorm.Worker.{
  TaskKey, key_eq, Node, start_task_on, kill_task_on, push_tuple, update_downstream_on,
}
use event_stream_rainstorm.Worker.Registry.{
  push_tuple-task, kill_task_on-gone, update_downstream_on-tasks,
}
use event_stream_rainstorm.Task.Feeding.{has_id}
use event_stream_rainstorm.Task.Delivery.{Feeds, sent, log_of, pushes-exactly_once}
use event_stream_rainstorm.Task.Success.{IsTaken, push_tuples-success, push_tuples-succeeds}
use event_stream_rainstorm.Task.Recovery.{IsPlain, start_task-stdin, start_task-marks}
use event_stream_rainstorm.Task.Restart.{inputs, started}
use event_stream_rainstorm.Task.Retry.{retry-replayed_twice}

abbrev tuple_a : StreamTuple
tuple_a = record { key = text "k"; value = text "x"; message_id = text "1-0-1"; is_eos = false }

abbrev tuple_b : StreamTuple
tuple_b = record { key = text "k"; value = text "y"; message_id = text "1-0-2"; is_eos = false }

abbrev no_args : StartTaskArgs
no_args = record {
  stage_id = 1;
  task_id = 0;
  op_exe = text "identity";
  op_args = [];
  is_last_stage = false;
  hydfs_output = text "out";
  exactly_once = true;
  downstream_tasks = [];
  num_upstream = 1;
  hydfs_dedup_log = text "dedup";
}

abbrev good : World
good = record { append = λ i. stored; pipe = λ i. true }

abbrev bad : World
bad = record { append = λ i. lost; pipe = λ i. true }

abbrev works : ℕ → Bool
works i = true

abbrev two_calls : List (World × List StreamTuple)
two_calls = (bad, tuple_a ∷ []) ∷ (good, tuple_a ∷ tuple_b ∷ []) ∷ []

abbrev clean_calls : List (World × List StreamTuple)
clean_calls = (good, tuple_a ∷ []) ∷ (good, tuple_a ∷ tuple_b ∷ []) ∷ []

abbrev fresh : Worker
fresh = started no_args works []

tuple_a-IsPlain : IsPlain tuple_a
unfolding text_beq has_byte
tuple_a-IsPlain = (refl, refl, (refl, refl, omega arith))

tuple_b-IsPlain : IsPlain tuple_b
unfolding text_beq has_byte
tuple_b-IsPlain = (refl, refl, (refl, refl, omega arith))

pushes-exactly_once_example : Feeds fresh (pushes two_calls fresh) (sent two_calls)
pushes-exactly_once_example = pushes-exactly_once two_calls fresh

pushed-IsTaken_both : All (IsTaken (push_tuples good 0 (tuple_a ∷ []) fresh).1.task) (tuple_a ∷ [])
unfolding push_tuples push_one start_task new_task text_beq processed get replay_log_data
    replay_lines scan_lines Lines.until_too_long Lines.split_lines log_of load_dedup_log load_ids
pushed-IsTaken_both = push_tuples-success good 0 (tuple_a ∷ []) fresh refl

all_taken : (push_tuples good 0 (tuple_a ∷ tuple_b ∷ []) fresh).0 ≡ success
unfolding start_task new_task text_beq processed get replay_log_data replay_lines scan_lines
    Lines.until_too_long Lines.split_lines log_of load_dedup_log load_ids
all_taken =
    push_tuples-succeeds good 0 (tuple_a ∷ tuple_b ∷ []) fresh refl refl (λ j. refl) (λ j. refl)
      (refl, (refl, tt))

started-stdin :
    (start_task no_args (some (log_of (tuple_a ∷ tuple_b ∷ []))) works).stdin
    ≡ map (λ (t : StreamTuple). input_line t.value) (tuple_a ∷ tuple_b ∷ [])
started-stdin =
    start_task-stdin no_args works (tuple_a ∷ tuple_b ∷ []) (tuple_a-IsPlain, (tuple_b-IsPlain, tt))
      (λ j. refl)

started-marks :
    processed (text "1-0-2") (start_task no_args (some (log_of (tuple_a ∷ tuple_b ∷ []))) works)
    ≡ has_id (text "1-0-2") (tuple_a ∷ tuple_b ∷ [])
started-marks =
    start_task-marks no_args works (tuple_a ∷ tuple_b ∷ []) (text "1-0-2")
      (tuple_a-IsPlain, (tuple_b-IsPlain, tt)) (λ j. refl)

retry-replayed_twice_example :
    let w' = pushes ((bad, tuple_a ∷ []) ∷ (good, tuple_a ∷ []) ∷ []) fresh in
    (w'.task.stdin ≡ fresh.task.stdin ++ input_line tuple_a.value ∷ [])
    × ((start_task no_args (some w'.log) works).stdin ≡ inputs ([] ++ tuple_a ∷ tuple_a ∷ []))
unfolding start_task new_task text_beq processed get replay_log_data replay_lines scan_lines
    Lines.until_too_long Lines.split_lines log_of load_dedup_log load_ids
retry-replayed_twice_example =
    retry-replayed_twice bad good no_args works tuple_a fresh [] refl tt tuple_a-IsPlain refl refl
      refl refl refl refl refl (λ j. refl)

abbrev no_tasks : Node
no_tasks = record { rs_tasks = []; task_pid_map = [] }

abbrev one_task : Node
one_task = start_task_on no_args none works 7 no_tasks

abbrev first_key : TaskKey
first_key = (1, 0)

abbrev second_key : TaskKey
second_key = (2, 0)

abbrev first_task : Worker
first_task = record { task = start_task no_args none works; log = [] }

pushed_to_task :
    ((push_tuple good first_key (tuple_a ∷ []) one_task).0
      ≡ (push_tuples good 0 (tuple_a ∷ []) first_task).0)
    × (get second_key (push_tuple good first_key (tuple_a ∷ []) one_task).1.rs_tasks ≡ (
        if first_key == second_key
        then some (push_tuples good 0 (tuple_a ∷ []) first_task).1
        else get second_key one_task.rs_tasks))
unfolding start_task_on get put
pushed_to_task = push_tuple-task good first_key second_key (tuple_a ∷ []) one_task first_task refl

killed_is_gone :
    let node' = kill_task_on 7 (start_task_on no_args none works 7 no_tasks) in
    ((push_tuple good (no_args.stage_id, no_args.task_id) (tuple_a ∷ []) node').0
      ≡ failure task_not_found)
    × (get second_key node'.rs_tasks
        ≡ (if first_key == second_key then none else get second_key no_tasks.rs_tasks))
killed_is_gone = kill_task_on-gone no_args none works 7 no_tasks good (tuple_a ∷ []) second_key

told_downstream :
    get first_key (update_downstream_on 1 (text "a" ∷ []) one_task).rs_tasks
    ≡ some (
        if first_key.0 == 1
        then record first_task { task = record first_task.task { downstream_list = text "a" ∷ [] } }
        else first_task)
unfolding start_task_on get put
told_downstream = update_downstream_on-tasks 1 (text "a" ∷ []) one_task first_key first_task refl
