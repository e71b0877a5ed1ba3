-- ===== src/Task/Restart.antt =====
-- A task that is restarted from its dedup log, as the leader restarts it after a crash.
use mathlib.Core.List.Memᴰ.{Memᴰ}
use event_stream_rainstorm.Prelude.{ℕ, ◌≡◌, Bool, some, List, ◌++◌, map, nat_eq}
use event_stream_rainstorm.Prelude.Text.{Text, text_eq}
use event_stream_rainstorm.Task.{
  StreamTuple, RainStormTask, Worker, processed, input_line, StartTaskArgs, start_task,
}
use event_stream_rainstorm.Task.Feeding.{has_id}
use event_stream_rainstorm.Task.Delivery.{log_of, IsWithin, sent}

abbrev pub inputs : List StreamTuple → List Text
inputs ts = map (λ (t : StreamTuple). input_line t.value) ts

-- The task of a log of `es`.
abbrev pub started : StartTaskArgs → (ℕ → Bool) → List StreamTuple → Worker
started args pipe es = record { task = start_task args (some (log_of es)) pipe; log = log_of es }

-- After the calls, `live` has fed `es` and then `tuples`; the task `next` restarted from the log feeds
-- `es` and then `lines`, all of them sent, and `tuples` among them.
pub record Restarted (es sent : List StreamTuple) (live : Worker) (next : RainStormTask)
    : Type 0 where
  pub tuples : List StreamTuple
  pub lines : List StreamTuple
  pub live_stdin : live.task.stdin ≡ inputs (es ++ tuples)
  pub next_stdin : next.stdin ≡ inputs (es ++ lines)
  pub next_marks : (id : Text) → processed id next ≡ has_id id (es ++ lines)
  pub none_lost : IsWithin tuples lines
  pub was_sent : IsWithin lines sent
