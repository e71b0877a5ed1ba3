-- ===== src/Task.antt =====
-- node/node_stream.go: a task on its worker. `PushTuple`, the dedup log, recovery and replay.
-- The task lock makes `PushTuple` one step. What HyDFS and the operator's pipe do is an argument.
pub mod Feeding
pub mod Delivery
pub mod Success
pub mod Recovery
pub mod Restart
pub mod Mirror
pub mod Retry
pub mod Ending
use mathlib.Core.List.{foldl}
use event_stream_rainstorm.Prelude.{
  ℕ, suc, ◌+◌, Bool, true, false, not, ◌&&◌, ◌||◌, Option, none, some, List, [], ◌∷◌, ◌++◌, leb,
  nat_eq, ◌==◌, if◌then◌else◌,
}
use event_stream_rainstorm.Prelude.Dict.{Dict, get, put}
use event_stream_rainstorm.Prelude.Text.{Text, text, text_eq, cut}
use event_stream_rainstorm.Lines.{newline, tab, scan_lines, trim_space}

pub record StreamTuple : Type 0 where
  pub key : Text
  pub value : Text
  pub message_id : Text
  pub is_eos : Bool

-- `stdin` is what has been written to the operator, one write each.
pub record RainStormTask : Type 0 where
  pub stdin : List Text
  pub stdin_closed : Bool
  pub processed_ids : Dict Text Bool
  pub seq_num : ℕ
  pub counter : ℕ
  pub dedup_hydfs_file : Text
  pub num_upstream : ℕ
  pub eos_count : ℕ
  pub downstream_list : List Text

-- A task with the content of its dedup log in HyDFS.
pub record Worker : Type 0 where
  pub task : RainStormTask
  pub log : Text

-- `CallHyDFSWrite` on the dedup log: it succeeds; or it fails, and the primary may have appended
-- the bytes all the same, when a later replica or the reply is lost.
pub data Write : Type 0 where
  stored lost refused : Write

-- What happens at the i-th tuple of a call.
pub record World : Type 0 where
  pub append : ℕ → Write
  pub pipe : ℕ → Bool

pub data Error : Type 0 where
  task_not_found dedup_log_missing persist_failed stdin_failed : Error

pub data Reply : Type 0 where
  success : Reply
  failure : Error → Reply

abbrev pub flag : Option Bool → Bool
flag none = false
flag (some b) = b

-- `task.ProcessedIDs[id]`
unfoldable pub processed : Text → RainStormTask → Bool
processed id t = flag (get id t.processed_ids)

-- The line of a tuple in the dedup log.
abbrev pub log_content : Text → Text → Text
log_content id value = id ++ tab ∷ value ++ newline ∷ []

abbrev pub input_line : Text → Text
input_line value = value ++ newline ∷ []

unfoldable pub take_eos : RainStormTask → RainStormTask
take_eos t = record t {
  eos_count = t.eos_count + 1;
  stdin_closed = leb t.num_upstream (t.eos_count + 1) || t.stdin_closed;
}

abbrev pub logged : StreamTuple → Worker → Worker
logged t w = record w { log = w.log ++ log_content t.message_id t.value }

-- The tuple has been written to the operator.
abbrev pub accepted : StreamTuple → Worker → Worker
accepted t w = record w {
  task = record w.task {
    stdin = w.task.stdin ++ input_line t.value ∷ [];
    counter = w.task.counter + 1;
    processed_ids = put t.message_id true w.task.processed_ids;
  };
}

-- One round of the loop: an error ends the call.
unfoldable pub push_one : World → ℕ → StreamTuple → Worker → Reply × Worker
unfolding processed take_eos
push_one world i t w =
    if t.is_eos
    then (success, record w { task = take_eos w.task })
    else if processed t.message_id w.task
    then (success, w)
    else if w.task.dedup_hydfs_file == []
    then (failure dedup_log_missing, w)
    else elim (world.append i) [
      | refused ↦ (failure persist_failed, w)
      | lost ↦ (failure persist_failed, logged t w)
      | stored ↦
          if world.pipe i && not w.task.stdin_closed
          then (success, accepted t (logged t w))
          else (failure stdin_failed, logged t w)
    ]

unfoldable pub push_tuples : World → ℕ → List StreamTuple → Worker → Reply × Worker
push_tuples world i [] w = (success, w)
push_tuples world i (t ∷ ts) w =
    let (r, w') = push_one world i t w in
    elim r [ success ↦ push_tuples world (i + 1) ts w' | failure e ↦ (failure e, w') ]

-- Calls of `PushTuple` on one task, one after the other.
unfoldable pub pushes : List (World × List StreamTuple) → Worker → Worker
pushes [] w = w
pushes ((world, ts) ∷ calls) w = pushes calls (push_tuples world 0 ts w).1

-- `loadDedupLog`: the ids of the lines of the log.
abbrev pub first_part : Text → Text
first_part line = elim (cut tab line) [ none ↦ line | some (l, r) ↦ l ]

unfoldable pub load_ids : List Text → Dict Text Bool → Dict Text Bool
load_ids [] ids = ids
load_ids (line ∷ lines) ids =
    let id = trim_space (first_part line) in
    load_ids lines (if id == [] then ids else put id true ids)

unfoldable pub load_dedup_log : Text → Dict Text Bool
load_dedup_log file = load_ids (scan_lines file) []

-- One line of `replayLogData`; the pipe takes it or not. The id is marked before the write.
unfoldable pub replay_line : Bool → Bool → Text → RainStormTask → RainStormTask
unfolding processed
replay_line enable_dedup_check pipe line t = elim (cut tab line) [
  | none ↦ t
  | some (id, value) ↦
      if enable_dedup_check && processed id t
      then t
      else let t' =
          if enable_dedup_check
          then record t { processed_ids = put id true t.processed_ids }
          else t in
        if pipe && not t.stdin_closed
        then record t' { stdin = t.stdin ++ input_line value ∷ [] }
        else t'
]

-- The loop goes on after an error of the pipe.
unfoldable pub replay_lines : Bool → (ℕ → Bool) → ℕ → List Text → RainStormTask → RainStormTask
replay_lines enable_dedup_check pipe i [] t = t
replay_lines enable_dedup_check pipe i (line ∷ lines) t =
    replay_lines enable_dedup_check pipe (i + 1) lines
      (replay_line enable_dedup_check (pipe i) line t)

unfoldable pub replay_log_data : Bool → (ℕ → Bool) → Text → RainStormTask → RainStormTask
replay_log_data enable_dedup_check pipe file t =
    replay_lines enable_dedup_check pipe 0 (scan_lines file) t

pub record StartTaskArgs : Type 0 where
  pub stage_id : ℕ
  pub task_id : ℕ
  pub op_exe : Text
  pub op_args : Text
  pub is_last_stage : Bool
  pub hydfs_output : Text
  pub exactly_once : Bool
  pub downstream_tasks : List Text
  pub num_upstream : ℕ
  pub hydfs_dedup_log : Text

-- `StartTask`, once the operator runs. `none` is a dedup log that HyDFS does not give.
unfoldable pub new_task : StartTaskArgs → Option Text → RainStormTask
new_task args file = record {
  stdin = [];
  stdin_closed = false;
  processed_ids = elim file [ none ↦ [] | some content ↦ load_dedup_log content ];
  seq_num = 0;
  counter = 0;
  dedup_hydfs_file = args.hydfs_dedup_log;
  num_upstream = args.num_upstream;
  eos_count = 0;
  downstream_list = args.downstream_tasks;
}

-- A started task at the end of the replay that `StartTask` sets going, if no tuple has come between.
-- The replay is skipped for an empty log, where it would do nothing.
unfoldable pub start_task : StartTaskArgs → Option Text → (ℕ → Bool) → RainStormTask
unfolding new_task
start_task args file pipe = elim file [
  | none ↦ new_task args none
  | some content ↦ replay_log_data false pipe content (new_task args (some content))
]
