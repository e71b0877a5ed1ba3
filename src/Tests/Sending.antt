-- ===== src/Tests/Sending.antt =====
-- Runs of what tasks send, and of the ends of stream.
use event_stream_rainstorm.Prelude.{
  ℕ, ◌≡◌, refl, true, false, none, List, [], ◌∷◌, All, leb, ◌≢◌, arith,
}
use event_stream_rainstorm.Prelude.Text.{Text, text, text_beq, digits, decimal}
use event_stream_rainstorm.Task.{
  StreamTuple, Worker, World, stored, success, processed, push_one, push_tuples, pushes,
  StartTaskArgs, start_task, new_task,
}
use event_stream_rainstorm.Prelude.Dict.{get, put}
use event_stream_rainstorm.Task.Ending.{Calls, single, eos_number, pushes-closed}
use event_stream_rainstorm.Worker.{output_tuples, output_tuple, output_id}
use event_stream_rainstorm.Worker.Sending.{eos_tuple}
use event_stream_rainstorm.Worker.Ids.{AreDistinct, output_tuples-AreDistinct}
use event_stream_rainstorm.Worker.Reuse.{new_task-dropped}

abbrev args : Text → ℕ → StartTaskArgs
args dedup num_upstream = record {
  stage_id = 1;
  task_id = 2;
  op_exe = text "identity";
  op_args = [];
  is_last_stage = false;
  hydfs_output = text "out";
  exactly_once = true;
  downstream_tasks = [];
  num_upstream = num_upstream;
  hydfs_dedup_log = dedup;
}

abbrev good : World
good = record { append = λ i. stored; pipe = λ i. true }

abbrev lines : List Text
lines = text "a" ∷ text "b" ∷ []

abbrev other_lines : List Text
other_lines = text "c" ∷ []

output_tuples-AreDistinct_example :
    AreDistinct (output_tuples 1 2 lines (new_task (args (text "x") 1) none)).0
    × All
        (λ (u : StreamTuple).
          All
            (λ (v : StreamTuple). u.message_id ≢ v.message_id)
            (output_tuples 1 3 other_lines (new_task (args (text "y") 1) none)).0)
        (output_tuples 1 2 lines (new_task (args (text "x") 1) none)).0
output_tuples-AreDistinct_example =
    output_tuples-AreDistinct 1 2 1 3 lines other_lines (new_task (args (text "x") 1) none)
      (new_task (args (text "y") 1) none) (λ same. absurd (omega (arith, same.1)))

-- The task of the next stage.
abbrev next_task : Worker
next_task = record { task = new_task (args (text "z") 1) none; log = [] }

abbrev first_output : List StreamTuple
first_output = (output_tuples 1 2 lines (new_task (args (text "x") 1) none)).0

abbrev fed : Worker
fed = (push_tuples good 0 first_output next_task).1

first_sent : (push_tuples good 0 first_output next_task).0 ≡ success
unfolding push_tuples push_one processed get put text_beq output_tuples output_tuple output_id
    decimal digits new_task
first_sent = refl

new_task-dropped_example :
    push_tuples good 0 (output_tuples 1 2 other_lines (new_task (args (text "y") 1) none)).0 fed
    ≡ (success, fed)
new_task-dropped_example =
    new_task-dropped (args (text "x") 1) (args (text "y") 1) none none lines other_lines good good
      next_task refl refl (omega arith) first_sent

abbrev tuple_a : StreamTuple
tuple_a = record { key = text "k"; value = text "x"; message_id = text "1-0-1"; is_eos = false }

-- Two upstream tasks, a tuple between their ends.
abbrev ending : Calls
ending = (good, eos_tuple) ∷ (good, tuple_a) ∷ (good, eos_tuple) ∷ []

abbrev ended : Worker
ended =
    pushes (single ending)
      (record { task = start_task (args (text "x") 2) none (λ i. true); log = [] })

pushes-closed_example : ended.task.stdin_closed ≡ leb 2 (eos_number ending)
pushes-closed_example = pushes-closed (args (text "x") 2) none (λ i. true) [] ending (omega arith)
