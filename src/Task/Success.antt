-- ===== src/Task/Success.antt =====
-- `PushTuple`: when a call succeeds and what its success says.
use event_stream_rainstorm.Prelude.{
  ℕ, ◌+◌, ◌≡◌, refl, sym, ap, subst, ◌∙◌, ◌⊎◌, inl, inr, Bool, true, false, ◌||◌, List, [], ◌∷◌,
  All, nat_eq, ==_refl, ◌==◌, arith,
}
use event_stream_rainstorm.Prelude.Text.{text_eq}
use event_stream_rainstorm.Task.{
  StreamTuple, RainStormTask, Worker, World, stored, success, failure, Error, processed, logged,
  accepted, push_one, push_tuples,
}
use event_stream_rainstorm.Task.Feeding.{or_left, processed-accepted}
use event_stream_rainstorm.Task.Delivery.{
  push_tuples-Feeds, push_tuples-next, push_tuples-stop, Reply-cases,
}

-- The operator has had the tuple, or it is an end of stream.
abbrev pub IsTaken : RainStormTask → StreamTuple → Type 0
IsTaken b t = (t.is_eos || processed t.message_id b) ≡ true

push_one_success_cases :
    (world : World) (i : ℕ) (t : StreamTuple) (w : Worker)
    → (push_one world i t w).0 ≡ success
    → (t.is_eos ≡ true)
      ⊎ (((processed t.message_id w.task ≡ true) × ((push_one world i t w).1 ≡ w))
          ⊎ ((push_one world i t w).1 ≡ accepted t (logged t w)))
unfolding push_one
push_one_success_cases world i t w e = ground arith

processed_self : (t : StreamTuple) (w : Worker) → processed t.message_id (accepted t w).task ≡ true
processed_self t w = processed-accepted t w t.message_id ∙ rw (==_refl t.message_id)

or_right : (b c : Bool) → c ≡ true → (b || c) ≡ true
or_right b c e = ground arith

push_one-IsTaken :
    (world : World) (i : ℕ) (t : StreamTuple) (w : Worker)
    → (push_one world i t w).0 ≡ success
    → IsTaken (push_one world i t w).1.task t
push_one-IsTaken world i t w e = elim (push_one_success_cases world i t w e) [
  | inl h ↦ or_left _ _ h
  | inr (inl (h, k)) ↦ or_right _ _ (ap (λ v. processed t.message_id v.task) k ∙ h)
  | inr (inr k) ↦
      or_right _ _ (ap (λ v. processed t.message_id v.task) k ∙ processed_self t (logged t w))
]

IsTaken-mono :
    (t : StreamTuple) (a b : RainStormTask) (c : Bool)
    → processed t.message_id b ≡ (processed t.message_id a || c)
    → IsTaken a t
    → IsTaken b t
IsTaken-mono t a b c e k = ground arith

pushed-IsTaken :
    (world : World) (i : ℕ) (ts : List StreamTuple) (w : Worker) (t : StreamTuple)
    → IsTaken w.task t
    → IsTaken (push_tuples world i ts w).1.task t
pushed-IsTaken world i ts w t k =
    let f = push_tuples-Feeds world i ts w in IsTaken-mono t _ _ _ (f.fed.marks t.message_id) k

fails : (x : Error) → failure x ≡ success → ⊥
fails x e = ground arith

-- A call that replies with success has had every tuple of it taken.
pub push_tuples-success :
    (world : World) (i : ℕ) (ts : List StreamTuple) (w : Worker)
    → (push_tuples world i ts w).0 ≡ success
    → All (IsTaken (push_tuples world i ts w).1.task) ts
push_tuples-success world i [] w e = tt
push_tuples-success world i (t ∷ ts) w e = elim (Reply-cases (push_one world i t w).0) [
  | inl h ↦
      let w' = (push_one world i t w).1 in
      let next = push_tuples-next world i t ts w h in
      subst (λ p. All (IsTaken p.1.task) (t ∷ ts)) (sym next)
        (
          pushed-IsTaken world (i + 1) ts w' t (push_one-IsTaken world i t w h),
          push_tuples-success world (i + 1) ts w' (sym (ap (λ p. p.0) next) ∙ e),
        )
  | inr (x, h) ↦ elim (fails x (sym (ap (λ p. p.0) (push_tuples-stop world i t ts w x h)) ∙ e)) [ ]
]

push_one-succeeds :
    (world : World) (i : ℕ) (t : StreamTuple) (w : Worker)
    → (w.task.dedup_hydfs_file == []) ≡ false
    → w.task.stdin_closed ≡ false
    → world.append i ≡ stored
    → world.pipe i ≡ true
    → t.is_eos ≡ false
    → ((push_one world i t w).0 ≡ success)
      × (((push_one world i t w).1.task.dedup_hydfs_file == []) ≡ false)
      × ((push_one world i t w).1.task.stdin_closed ≡ false)
unfolding push_one
push_one-succeeds world i t w n o a p h = ground arith

push_tuples-nil : (world : World) (i : ℕ) (w : Worker) → (push_tuples world i [] w).0 ≡ success
unfolding push_tuples
push_tuples-nil world i w = refl

-- A call succeeds when the log has a name, the appends and the pipe work and stdin stays open.
pub push_tuples-succeeds :
    (world : World) (i : ℕ) (ts : List StreamTuple) (w : Worker)
    → (w.task.dedup_hydfs_file == []) ≡ false
    → w.task.stdin_closed ≡ false
    → ((j : ℕ) → world.append j ≡ stored)
    → ((j : ℕ) → world.pipe j ≡ true)
    → All (λ (t : StreamTuple). t.is_eos ≡ false) ts
    → (push_tuples world i ts w).0 ≡ success
push_tuples-succeeds world i [] w n o a p h = push_tuples-nil world i w
push_tuples-succeeds world i (t ∷ ts) w n o a p h =
    let w' = (push_one world i t w).1 in
    let (c, n', o') = push_one-succeeds world i t w n o (a i) (p i) h.0 in
    ap (λ q. q.0) (push_tuples-next world i t ts w c)
    ∙ push_tuples-succeeds world (i + 1) ts w' n' o' a p h.1
