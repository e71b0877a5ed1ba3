-- ===== src/Worker/Routing.antt =====
-- A tuple is sent to the worker that hosts the task it is meant for.
use event_stream_rainstorm.Prelude.{
  ℕ, ◌%◌, ◌≡◌, refl, sym, ap, ◌∙◌, Option, none, some, some-injective, List, ◌∷◌, length, get_elem?,
  get_elem?-of_lt, nat_eq, arith,
}
use event_stream_rainstorm.Prelude.Dict.{get}
use event_stream_rainstorm.Prelude.Text.{Text}
use event_stream_rainstorm.Ring.{hash_func}
use event_stream_rainstorm.Leader.{TaskInfo, Leader, stage_tasks, get_sorted_stage_workers}
use event_stream_rainstorm.Leader.Contiguous.{IsContiguous}
use event_stream_rainstorm.Leader.Workers.{get_sorted_stage_workers-hosts}
use event_stream_rainstorm.Worker.{route, route_by_key}

route_at :
    (n : ℕ) (addr : Text) (addrs : List Text) (target : Text)
    → get_elem? (addr ∷ addrs) (n % length (addr ∷ addrs)) ≡ some target
    → route n (addr ∷ addrs) ≡ some (n % length (addr ∷ addrs), target)
unfolding route
route_at n addr addrs target e =
    ap (λ o. elim o [ none ↦ none | some t ↦ some (n % length (addr ∷ addrs), t) ]) e

route_lem :
    (n : ℕ) (addr : Text) (addrs : List Text)
    → (target : Text) × (get_elem? (addr ∷ addrs) (n % length (addr ∷ addrs)) ≡ some target)
      × (route n (addr ∷ addrs) ≡ some (n % length (addr ∷ addrs), target))
unfolding route
route_lem n addr addrs =
    let (target, e) = get_elem?-of_lt (addr ∷ addrs) (n % length (addr ∷ addrs)) (omega arith) in
    (target, e, route_at n addr addrs target e)

host_of :
    (o : Option TaskInfo) (target : Text)
    → elim o [ none ↦ none | some t ↦ some t.vm_addr ] ≡ some target
    → (t : TaskInfo) × ((o ≡ some t) × (t.vm_addr ≡ target))
host_of none target e = ground arith
host_of (some t) target e = (t, (refl, some-injective _ _ e))

-- With the list that the leader sends out for a stage, a key is sent to the task whose index is the
-- hash of the key modulo the number of tasks, at the worker that hosts this task.
pub route_by_key-hosts :
    (key : Text) (stage_id : ℕ) (leader : Leader) (addr : Text) (addrs : List Text)
    → IsContiguous (stage_tasks stage_id leader)
    → get_sorted_stage_workers stage_id leader ≡ addr ∷ addrs
    → (t : TaskInfo) × (get (hash_func key % length (addr ∷ addrs)) (stage_tasks stage_id leader)
        ≡ some t)
      × (route_by_key key (get_sorted_stage_workers stage_id leader)
          ≡ some (hash_func key % length (addr ∷ addrs), t.vm_addr))
unfolding route_by_key
route_by_key-hosts key stage_id leader addr addrs c e =
    let i = hash_func key % length (addr ∷ addrs) in
    let (target, f, g) = route_lem (hash_func key) addr addrs in
    let at =
      sym (get_sorted_stage_workers-hosts stage_id leader i c) ∙ ap (λ l. get_elem? l i) e ∙ f in
    let (t, (h, k)) = host_of (get i (stage_tasks stage_id leader)) target at in
    (t, h, ap (route (hash_func key)) e ∙ g ∙ ap (λ a. some (i, a)) (sym k))
