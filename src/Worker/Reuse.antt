-- ===== src/Worker/Reuse.antt =====
-- node/node_autoscale.go gives a task that it adds the number of one that it has removed;
-- node/node_stream.go numbers the output of every task from 1 on.
use event_stream_rainstorm.Prelude.{
  ℕ, ◌+◌, ◌≤◌, ◌≡◌, refl, subst, true, false, Option, List, [], ◌∷◌, length, All, nat_eq, arith,
}
use event_stream_rainstorm.Prelude.Text.{Text, text_eq}
use event_stream_rainstorm.Task.{
  StreamTuple, RainStormTask, StartTaskArgs, new_task, World, Worker, success, push_one,
  push_tuples, processed,
}
use event_stream_rainstorm.Task.Success.{IsTaken, push_tuples-success}
use event_stream_rainstorm.Worker.{output_id, output_tuple, output_tuples}

-- Tuples that have been taken, and are no ends of stream.
abbrev WereTaken : RainStormTask → List StreamTuple → Type 0
WereTaken b ts = All (λ (t : StreamTuple). (t.is_eos ≡ false) × IsTaken b t) ts

push_one-again :
    (world : World) (i : ℕ) (t : StreamTuple) (w : Worker)
    → (t.is_eos ≡ false) × IsTaken w.task t
    → push_one world i t w ≡ (success, w)
unfolding push_one
push_one-again world i t w (e, h) = ground arith

push_tuples-again :
    (world : World) (i : ℕ) (ts : List StreamTuple) (w : Worker)
    → WereTaken w.task ts
    → push_tuples world i ts w ≡ (success, w)
unfolding push_tuples
push_tuples-again world i [] w h = refl
push_tuples-again world i (t ∷ ts) w h =
    ground (arith, push_one-again world i t w h.0, push_tuples-again world (i + 1) ts w h.1)

module _ (s t : ℕ) (b : RainStormTask) where
  same_ids-WereTaken :
      (lines lines' : List Text) (x y : RainStormTask)
      → length lines' ≤ length lines
      → x.seq_num ≡ y.seq_num
      → All (IsTaken b) (output_tuples s t lines x).0
      → WereTaken b (output_tuples s t lines' y).0
  unfolding output_tuples output_tuple
  same_ids-WereTaken lines [] x y l e h = tt
  same_ids-WereTaken [] (line' ∷ lines') x y l e h = absurd (omega arith)
  same_ids-WereTaken (line ∷ lines) (line' ∷ lines') x y l e h =
      let first : processed (output_id s t (y.seq_num + 1)) b ≡ true =
        subst (λ n. processed (output_id s t (n + 1)) b ≡ true) e h.0 in
      (
        (refl, first),
        same_ids-WereTaken lines lines' (record x { seq_num = x.seq_num + 1 })
            (record y { seq_num = y.seq_num + 1 }) (omega arith) (omega arith) h.1,
      )

-- When a task has sent its output to a task of the next stage, and another task of the same stage is
-- started later under the same number, the output of the second, as far as it is no longer, is
-- refused as duplicates: the calls succeed, and nothing of it reaches the next operator.
pub new_task-dropped :
    (args args' : StartTaskArgs) (file file' : Option Text) (lines lines' : List Text)
    (world world' : World) (w : Worker)
    → args'.stage_id ≡ args.stage_id
    → args'.task_id ≡ args.task_id
    → length lines' ≤ length lines
    → (push_tuples world 0
        (output_tuples args.stage_id args.task_id lines (new_task args file)).0
        w).0
      ≡ success
    → push_tuples world' 0
        (output_tuples args'.stage_id args'.task_id lines' (new_task args' file')).0
        (push_tuples world 0
          (output_tuples args.stage_id args.task_id lines (new_task args file)).0
          w).1
      ≡ (
        success,
        (push_tuples world 0
            (output_tuples args.stage_id args.task_id lines (new_task args file)).0
            w).1,
      )
unfolding new_task
new_task-dropped args args' file file' lines lines' world world' w e f l h =
    let first = (output_tuples args.stage_id args.task_id lines (new_task args file)).0 in
    let w' = (push_tuples world 0 first w).1 in
    rw (e, f)
      (push_tuples-again world' 0
        (output_tuples args.stage_id args.task_id lines' (new_task args' file')).0 w'
        (same_ids-WereTaken args.stage_id args.task_id w'.task lines lines' (new_task args file)
          (new_task args' file') l refl (push_tuples-success world 0 first w h)))
