-- ===== src/Task/Mirror.antt =====
-- A task and its dedup log that agree: exactly once across a crash.
use mathlib.Core.List.{append-nil}
use event_stream_rainstorm.Prelude.{ℕ, ◌≡◌, ◌≢◌, true, false, List, [], ◌∷◌, All, nat_eq}
use event_stream_rainstorm.Prelude.Text.{Text, text_eq}
use event_stream_rainstorm.Task.{StreamTuple, Worker, World, lost, processed, log_content}
use event_stream_rainstorm.Task.Feeding.{has_id}
use event_stream_rainstorm.Task.Delivery.{log_of}
use event_stream_rainstorm.Task.Recovery.{IsPlain}
use event_stream_rainstorm.Task.Restart.{inputs}

-- No write of the call fails, and it ends no stream.
abbrev pub IsClean : World × List StreamTuple → Type 0
IsClean (world, ts) =
    ((j : ℕ) → world.append j ≢ lost)
    × ((j : ℕ) → world.pipe j ≡ true)
    × All (λ (t : StreamTuple). t.is_eos ≡ false) ts

-- The operator has had the tuples of the log, and these are marked.
pub record Mirrors (w : Worker) (es : List StreamTuple) : Type 0 where
  pub log : w.log ≡ log_of es
  pub stdin : w.task.stdin ≡ inputs es
  pub marks : (id : Text) → processed id w.task ≡ has_id id es
  pub open_stdin : w.task.stdin_closed ≡ false

abbrev PlainMirror : Worker → List StreamTuple → Type 0
PlainMirror w es = Mirrors w es × All IsPlain es

pub log_of-one : (t : StreamTuple) → log_of (t ∷ []) ≡ log_content t.message_id t.value
unfolding log_of
log_of-one t = append-nil _
