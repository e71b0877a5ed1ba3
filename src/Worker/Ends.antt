-- ===== src/Worker/Ends.antt =====
-- Whom the ends of stream of node/node_stream.go go to.
use event_stream_rainstorm.Prelude.{ℕ, Option, none, some, nat_eq}
use event_stream_rainstorm.Prelude.Text.{Text}
use event_stream_rainstorm.Leader.{TaskInfo, Leader}
use event_stream_rainstorm.Worker.Sending.{Push, eos_tuple}

-- The end of stream for a task at its worker.
abbrev pub end_for : ℕ → ℕ → Text → Push
end_for stage_id i addr = record { addr = addr; dest = (stage_id, i); tuple = eos_tuple }

abbrev pub to_host : ℕ → ℕ → Option Text → Option Push
to_host stage_id i none = none
to_host stage_id i (some addr) = some (end_for stage_id i addr)

-- The worker of a task, where the leader knows the task.
abbrev pub host : Option TaskInfo → Option Text
host o = elim o [ none ↦ none | some t ↦ some t.vm_addr ]
