-- ===== src/Task/Ending.antt =====
-- node/node_stream.go: the ends of stream that `PushTuple` counts, and when a task closes its operator's
-- input.
use event_stream_rainstorm.Prelude.{
  ℕ, ◌+◌, ◌≤◌, ◌≡◌, refl, ap, subst, ◌∙◌, Bool, false, Option, none, some, List, [], ◌∷◌, leb,
  if◌then◌else◌, arith,
}
use event_stream_rainstorm.Prelude.Text.{Text}
use event_stream_rainstorm.Task.{
  StreamTuple, RainStormTask, Worker, World, push_one, push_tuples, pushes, take_eos, StartTaskArgs,
  new_task, start_task, replay_line, replay_lines, replay_log_data,
}

-- Calls of one tuple each, as the senders make them.
abbrev pub Calls : Type 0
Calls = List (World × StreamTuple)

abbrev pub single : Calls → List (World × List StreamTuple)
single [] = []
single ((world, t) ∷ calls) = (world, t ∷ []) ∷ single calls

-- How many of the tuples are ends of stream.
unfoldable pub eos_number : Calls → ℕ
eos_number [] = 0
eos_number ((world, t) ∷ calls) = (if t.is_eos then 1 else 0) + eos_number calls

-- Where a task is with the ends of its upstream tasks.
record Ends (num_upstream eos_count : ℕ) (t : RainStormTask) : Type 0 where
  upstream : t.num_upstream ≡ num_upstream
  counted : t.eos_count ≡ eos_count
  closed : t.stdin_closed ≡ leb num_upstream eos_count

push_one-Ends :
    (n k : ℕ) (world : World) (t : StreamTuple) (w : Worker)
    → Ends n k w.task
    → Ends n ((if t.is_eos then 1 else 0) + k) (push_tuples world 0 (t ∷ []) w).1.task
unfolding push_one push_tuples take_eos
push_one-Ends n k world t w h = record {
  upstream = ground (arith, h.upstream);
  counted = ground (arith, h.counted);
  closed = ground (arith, h.closed, h.counted, h.upstream);
}

pushes-Ends :
    (n k : ℕ) (calls : Calls) (w : Worker)
    → Ends n k w.task
    → Ends n (eos_number calls + k) (pushes (single calls) w).task
unfolding pushes eos_number
pushes-Ends n k [] w h = let e : k ≡ 0 + k = omega arith in subst (λ m. Ends n m w.task) e h
pushes-Ends n k ((world, t) ∷ calls) w h =
    let w' = (push_tuples world 0 (t ∷ []) w).1 in
    let e : eos_number calls + ((if t.is_eos then 1 else 0) + k)
        ≡ (if t.is_eos then 1 else 0) + eos_number calls + k =
      omega arith in
    subst (λ m. Ends n m (pushes (single calls) w').task) e
      (pushes-Ends n ((if t.is_eos then 1 else 0) + k) calls w' (push_one-Ends n k world t w h))

replay_line-Ends :
    (n k : ℕ) (check pipe : Bool) (line : Text) (t : RainStormTask)
    → Ends n k t
    → Ends n k (replay_line check pipe line t)
unfolding replay_line
replay_line-Ends n k check pipe line t h = record {
  upstream = ground (arith, h.upstream);
  counted = ground (arith, h.counted);
  closed = ground (arith, h.closed);
}

replay_lines-Ends :
    (n k : ℕ) (check : Bool) (pipe : ℕ → Bool) (i : ℕ) (lines : List Text) (t : RainStormTask)
    → Ends n k t
    → Ends n k (replay_lines check pipe i lines t)
unfolding replay_lines
replay_lines-Ends n k check pipe i [] t h = h
replay_lines-Ends n k check pipe i (line ∷ lines) t h =
    replay_lines-Ends n k check pipe (i + 1) lines (replay_line check (pipe i) line t)
      (replay_line-Ends n k check (pipe i) line t h)

new_task-Ends :
    (args : StartTaskArgs) (file : Option Text)
    → 1 ≤ args.num_upstream
    → Ends args.num_upstream 0 (new_task args file)
unfolding new_task
new_task-Ends args file h = record { upstream = refl; counted = refl; closed = ground arith }

start_task-Ends :
    (args : StartTaskArgs) (file : Option Text) (pipe : ℕ → Bool)
    → 1 ≤ args.num_upstream
    → Ends args.num_upstream 0 (start_task args file pipe)
unfolding start_task replay_log_data
start_task-Ends args none pipe h = new_task-Ends args none h
start_task-Ends args (some content) pipe h =
    replay_lines-Ends args.num_upstream 0 false pipe 0 _ (new_task args (some content))
      (new_task-Ends args (some content) h)

-- A task that has started or restarted, with at least one upstream task, has closed its operator's
-- input exactly when it has had as many ends of stream as it has upstream tasks: over any calls of
-- one tuple, in any order and with any failures.
pub pushes-closed :
    (args : StartTaskArgs) (file : Option Text) (pipe : ℕ → Bool) (log : Text) (calls : Calls)
    → 1 ≤ args.num_upstream
    → (pushes
        (single calls)
        (record { task = start_task args file pipe; log = log })).task.stdin_closed
      ≡ leb args.num_upstream (eos_number calls)
pushes-closed args file pipe log calls h =
    let ends =
      pushes-Ends args.num_upstream 0 calls (record { task = start_task args file pipe; log = log })
        (start_task-Ends args file pipe h) in
    ends.closed ∙ ap (leb args.num_upstream) (omega arith)
