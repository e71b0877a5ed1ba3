-- ===== src/Task/Retry.antt =====
-- What a retry of `PushTuple` leaves in the dedup log when the call before it failed half way.
use mathlib.Core.List.{append-nil, append_assoc}
use event_stream_rainstorm.Prelude.{
  ℕ, ◌≡◌, sym, ap, ◌∙◌, Bool, true, false, some, List, [], ◌∷◌, ◌++◌, All, All-append, nat_eq, ◌==◌,
  arith,
}
use event_stream_rainstorm.Prelude.Text.{text_eq}
use event_stream_rainstorm.Task.{
  StreamTuple, Worker, World, stored, lost, success, failure, processed, log_content, input_line,
  logged, accepted, push_one, push_tuples, pushes, persist_failed, StartTaskArgs, start_task,
}
use event_stream_rainstorm.Task.Delivery.{log_of, log_of-append}
use event_stream_rainstorm.Task.Recovery.{IsPlain, start_task-stdin}
use event_stream_rainstorm.Task.Restart.{inputs}

push_once :
    (world : World) (t : StreamTuple) (w : Worker)
    → push_tuples world 0 (t ∷ []) w ≡ push_one world 0 t w
unfolding push_tuples
push_once world t w = ground arith

-- The append is lost, so that the call fails.
push_lost :
    (world : World) (t : StreamTuple) (w : Worker)
    → t.is_eos ≡ false
    → processed t.message_id w.task ≡ false
    → (w.task.dedup_hydfs_file == []) ≡ false
    → world.append 0 ≡ lost
    → push_one world 0 t w ≡ (failure persist_failed, logged t w)
unfolding push_one
push_lost world t w o f n a = ground arith

push_stored :
    (world : World) (t : StreamTuple) (w : Worker)
    → t.is_eos ≡ false
    → processed t.message_id w.task ≡ false
    → (w.task.dedup_hydfs_file == []) ≡ false
    → world.append 0 ≡ stored
    → world.pipe 0 ≡ true
    → w.task.stdin_closed ≡ false
    → push_one world 0 t w ≡ (success, accepted t (logged t w))
unfolding push_one
push_stored world t w o f n a p c = ground arith

two_calls :
    (bad good : World) (t : StreamTuple) (w : Worker)
    → t.is_eos ≡ false
    → processed t.message_id w.task ≡ false
    → (w.task.dedup_hydfs_file == []) ≡ false
    → w.task.stdin_closed ≡ false
    → bad.append 0 ≡ lost
    → good.append 0 ≡ stored
    → good.pipe 0 ≡ true
    → pushes ((bad, t ∷ []) ∷ (good, t ∷ []) ∷ []) w ≡ accepted t (logged t (logged t w))
unfolding pushes
two_calls bad good t w o f n c a g p =
    ap (λ v. (push_tuples good 0 (t ∷ []) v).1)
      (ap (λ x. x.1) (push_once bad t w ∙ push_lost bad t w o f n a))
    ∙ ap (λ x. x.1) (push_once good t (logged t w) ∙ push_stored good t (logged t w) o f n g p c)

logged_twice :
    (t : StreamTuple) (w : Worker) (es : List StreamTuple)
    → w.log ≡ log_of es
    → (logged t (logged t w)).log ≡ log_of (es ++ t ∷ t ∷ [])
unfolding log_of
logged_twice t w es l =
    let c = log_content t.message_id t.value in
    ap (λ x. (x ++ c) ++ c) l
    ∙ append_assoc (log_of es) c c
    ∙ ap (λ x. log_of es ++ (c ++ x)) (sym (append-nil c))
    ∙ sym (log_of-append es (t ∷ t ∷ []))

-- A call whose append is lost, and its retry: the operator has the tuple once, but a task restarted
-- from the log gives it to its operator twice.
pub retry-replayed_twice :
    (bad good : World) (args : StartTaskArgs) (pipe : ℕ → Bool) (t : StreamTuple) (w : Worker)
    (es : List StreamTuple)
    → w.log ≡ log_of es
    → All IsPlain es
    → IsPlain t
    → t.is_eos ≡ false
    → processed t.message_id w.task ≡ false
    → (w.task.dedup_hydfs_file == []) ≡ false
    → w.task.stdin_closed ≡ false
    → bad.append 0 ≡ lost
    → good.append 0 ≡ stored
    → good.pipe 0 ≡ true
    → ((j : ℕ) → pipe j ≡ true)
    → let w' = pushes ((bad, t ∷ []) ∷ (good, t ∷ []) ∷ []) w in
      (w'.task.stdin ≡ w.task.stdin ++ input_line t.value ∷ [])
      × ((start_task args (some w'.log) pipe).stdin ≡ inputs (es ++ t ∷ t ∷ []))
retry-replayed_twice bad good args pipe t w es l h k o f n c a g p q =
    let w' = accepted t (logged t (logged t w)) in
    let e : pushes ((bad, t ∷ []) ∷ (good, t ∷ []) ∷ []) w ≡ w' =
      two_calls bad good t w o f n c a g p in
    (
      ap (λ v. v.task.stdin) e,
      ap (λ v. (start_task args (some v.log) pipe).stdin) e
          ∙ ap (λ x. (start_task args (some x) pipe).stdin) (logged_twice t w es l)
          ∙ start_task-stdin args pipe (es ++ t ∷ t ∷ []) (All-append _ es _ h (k, (k, tt))) q,
    )
