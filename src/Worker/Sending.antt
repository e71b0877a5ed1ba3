-- ===== src/Worker/Sending.antt =====
-- node/node_stream.go: what a task sends when its output ends (`handleTaskOutput`), and what the source
-- sends (`StartSource`).
use event_stream_rainstorm.Prelude.{
  ℕ, ◌+◌, Bool, true, false, not, ◌&&◌, Option, none, some, List, [], ◌∷◌, ◌++◌, if◌then◌else◌,
}
use event_stream_rainstorm.Prelude.Text.{Text, text, decimal}
use event_stream_rainstorm.Lines.{scan_lines}
use event_stream_rainstorm.Task.{StreamTuple, RainStormTask, StartTaskArgs}
use event_stream_rainstorm.Leader.{Leader, get_sorted_stage_workers}
use event_stream_rainstorm.FileStore.{Replica, ok, refused, blocked, get_file}
use event_stream_rainstorm.Worker.{TaskKey, is_success}

abbrev pub eos_tuple : StreamTuple
eos_tuple = record { key = []; value = []; message_id = text "EOS"; is_eos = true }

-- A call of `PushTuple` with one tuple.
pub record Push : Type 0 where
  pub addr : Text
  pub dest : TaskKey
  pub tuple : StreamTuple

-- The end of stream for the tasks of a stage, from the task `i` on.
unfoldable pub eos_pushes : ℕ → ℕ → List Text → List Push
eos_pushes stage_id i [] = []
eos_pushes stage_id i (addr ∷ addrs) =
    record { addr = addr; dest = (stage_id, i); tuple = eos_tuple }
    ∷ eos_pushes stage_id (i + 1) addrs

-- The end of `handleTaskOutput`, once all tuples are acknowledged: the ends of stream, and whether the
-- leader is told of a success.
unfoldable pub end_task : StartTaskArgs → RainStormTask → List Push × Bool
unfolding is_success eos_pushes
end_task args t = (
  if is_success t && not args.is_last_stage
      then eos_pushes (args.stage_id + 1) 0 t.downstream_list
      else [],
  is_success t,
)

-- The tuple of a line of the source.
unfoldable pub source_tuple : Text → ℕ → Text → StreamTuple
source_tuple vm_name seq line = record {
  key = line;
  value = line;
  message_id = text "src-" ++ (vm_name ++ (text "-" ++ decimal seq));
  is_eos = false;
}

-- The tuples of the lines, numbered on from `seq`.
unfoldable pub source_tuples : Text → ℕ → List Text → List StreamTuple
unfolding source_tuple
source_tuples vm_name seq [] = []
source_tuples vm_name seq (line ∷ lines) =
    source_tuple vm_name seq line ∷ source_tuples vm_name (seq + 1) lines

-- The loop over the replicas, of which some are out of reach: `none` waits for ever, `some none` is a
-- failure of them all.
unfoldable pub download : List (Bool × Replica) → Option (Option Text)
download [] = some none
download ((reachable, r) ∷ rs) =
    let rest = download rs in
    if not reachable
    then rest
    else let (answer, content) = get_file r in
      elim answer [
        | ok ↦ elim content [ none ↦ some (some []) | some c ↦ some (some c) ]
        | refused ↦ rest
        | blocked ↦ none
      ]

-- `StartSource`, with the file it has got: the tuples of its lines, and when all are acknowledged an
-- end of stream to each task of the first stage, by the leader's list at that time.
unfoldable pub start_source : Text → Text → Leader → List StreamTuple × List Push
unfolding source_tuples eos_pushes
start_source vm_name file_data leader = (
  source_tuples vm_name 1 (scan_lines file_data),
  eos_pushes 1 0 (get_sorted_stage_workers 1 leader),
)
