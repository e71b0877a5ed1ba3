-- ===== src/Leader/Start/Started.antt =====
-- A job that `StartRainStorm` starts: what the leader knows of it, and that the start returns.
use mathlib.Core.List.{Perm}
use mathlib.Core.Logic.{∥∥₁_elim}
use event_stream_rainstorm.Prelude.{
  ℕ, ◌+◌, ◌*◌, ◌<◌, ◌≤◌, ◌≡◌, refl, sym, ap, subst, ◌∙◌, inl, inr, Bool, true, false, ◌&&◌, ◌||◌,
  not, some, some-injective, List, [], ◌∷◌, length, All, All-imp, ltb, leb, nat_eq, ◌==◌,
  if◌then◌else◌, is_some, Bool-cases, arith,
}
use event_stream_rainstorm.Prelude.Dict.{get, has}
use event_stream_rainstorm.Prelude.DictPerm.{All-perm}
use event_stream_rainstorm.Prelude.Sorting.{length-perm}
use event_stream_rainstorm.Prelude.Text.{Text}
use event_stream_rainstorm.Task.{StartTaskArgs}
use event_stream_rainstorm.Leader.{
  TaskInfo, StageInfo, LeaderStartArgs, Leader, stage_tasks, calculate_deployment_plan,
}
use event_stream_rainstorm.Leader.Contiguous.{IsContiguous}
use event_stream_rainstorm.Leader.Scaling.{IsSound}
use event_stream_rainstorm.Leader.Start.{Request, Launch, requests, enter_all, start_all_tasks}
use event_stream_rainstorm.Leader.Start.Requests.{
  listed, listed-permᴰ, place, IsPlaced, HasOperators, requests_lem,
}
use event_stream_rainstorm.Leader.Start.Replies.{
  IsEntry, AreStages, enter_all-AreStages, AreGood, AreGood-of_count, count_of-AreGood,
  has-enter_all, total-enter_all,
}
use event_stream_rainstorm.Leader.Start.Sizes.{length_of_ids, size, task_count_of_sizes}

-- The leader knows the tasks of the job: their number, and the machine of each.
pub record Knows (args : LeaderStartArgs) (alive : List Text) (leader : Leader) : Type 0 where
  pub sound : IsSound leader
  pub sizes : (s : ℕ) → length (stage_tasks s leader) ≡ size args.num_stages args.num_tasks s
  pub places :
      (s t : ℕ)
      → 1 ≤ s
      → s ≤ args.num_stages
      → t < args.num_tasks
      → (e : TaskInfo) × (get t (stage_tasks s leader) ≡ some e)
        × (place args alive s t ≡ some e.vm_addr)

-- The leader before the replies.
record IsBlank (args : LeaderStartArgs) (leader : Leader) : Type 0 where
  tasks : leader.global_task_map ≡ []
  total : leader.total_tasks ≡ args.num_stages * args.num_tasks

everyone : (P : Request → Type 0) → ((r : Request) → P r) → (rs : List Request) → All P rs
everyone P h [] = tt
everyone P h (r ∷ rs) = (h r, everyone P h rs)

module _ (args : LeaderStartArgs) (alive : List Text) (leader : Leader)
    (a : AreStages args alive leader)
    (ids : (s t : ℕ)
      → has t (stage_tasks s leader)
        ≡ ((leb 1 s && ltb s (1 + args.num_stages)) && ltb t args.num_tasks))
    (total : leader.total_tasks ≡ args.num_stages * args.num_tasks) where
  below_size :
      (s t : ℕ) → has t (stage_tasks s leader) ≡ ltb t (size args.num_stages args.num_tasks s)
  below_size s t = ground (arith, ids s t)

  stage_sizes : (s : ℕ) → length (stage_tasks s leader) ≡ size args.num_stages args.num_tasks s
  stage_sizes s = length_of_ids _ (stage_tasks s leader) (a.stages s).0 (below_size s)

  all-IsContiguous : (s : ℕ) → IsContiguous (stage_tasks s leader)
  all-IsContiguous s = record {
    is_map = (a.stages s).0;
    keyed = All-imp (IsEntry args alive s) _ (λ o h. h.0) (stage_tasks s leader) (a.stages s).1;
    ids = λ t. below_size s t ∙ ap (ltb t) (sym (stage_sizes s));
  }

  all_placed :
      (s t : ℕ) (d : StageInfo)
      → All (IsEntry args alive s) d
      → has t d ≡ true
      → (e : TaskInfo) × (get t d ≡ some e) × (place args alive s t ≡ some e.vm_addr)
  unfolding get
  all_placed s t [] h q = absurd (ground arith)
  all_placed s t ((k, e) ∷ d) h q = elim (Bool-cases (k == t)) [
    | inl b ↦
        let same : k ≡ t = ground arith in
        (e, rw b refl, subst (λ i. place args alive s i ≡ some e.vm_addr) same h.0.1)
    | inr b ↦
        let (e', f, p) =
          all_placed s t d h.1 (subst (λ c. is_some (if c then some e else get t d) ≡ true) b q) in
        (e', rw b f, p)
  ]

  knows : Knows args alive leader
  unfolding stage_tasks
  knows = record {
    sound = record {
      is_map = a.is_map;
      contiguous = all-IsContiguous;
      total =
          total
          ∙ sym (
              task_count_of_sizes args.num_stages args.num_tasks leader.global_task_map a.is_map
                stage_sizes);
    };
    sizes = stage_sizes;
    places =
        λ s t l u k. all_placed s t (stage_tasks s leader) (a.stages s).1 (ids s t ∙ ground arith);
  }

blank-AreStages :
    (args : LeaderStartArgs) (alive : List Text) (leader : Leader)
    → leader.global_task_map ≡ []
    → AreStages args alive leader
unfolding stage_tasks get
blank-AreStages args alive leader e = record { is_map = rw e tt; stages = λ s. rw e (tt, tt) }

blank-has :
    (s t : ℕ) (leader : Leader) → leader.global_task_map ≡ [] → has t (stage_tasks s leader) ≡ false
unfolding stage_tasks get
blank-has s t leader e = rw e refl

module _ (launch : Launch) (args : LeaderStartArgs) (addr : Text) (addrs : List Text)
    (plan : List (List Text)) (leader : Leader) (operators : HasOperators args)
    (order : (rs : List Request) → Perm rs (launch.arrivals rs))
    (planned : calculate_deployment_plan args.num_stages args.num_tasks (addr ∷ addrs) ≡ some plan)
    (blank : leader.global_task_map ≡ [])
    (counted : leader.total_tasks ≡ args.num_stages * args.num_tasks) where
  abbrev entered : List Request → ℕ × Leader
  entered rs = enter_all launch.start_task (launch.arrivals rs) leader

  start_all_tasks_lem :
      (rs : List Request)
      → requests launch args plan 1 args.num_stages ≡ some rs
      → start_all_tasks launch args plan leader
        ≡ some (not (ltb (entered rs).0 (args.num_stages * args.num_tasks)), (entered rs).1)
  unfolding start_all_tasks
  start_all_tasks_lem rs e = ground arith

  -- Whatever the workers answer, the call returns.
  pub start_all_tasks-returns :
      (o : Bool × Leader) × (start_all_tasks launch args plan leader ≡ some o)
  start_all_tasks-returns =
      let (rs, e, placed, list, len) =
        requests_lem launch args plan addr addrs operators planned 1 args.num_stages (omega arith)
          (omega arith) in
      (
        (not (ltb (entered rs).0 (args.num_stages * args.num_tasks)), (entered rs).1),
        start_all_tasks_lem rs e,
      )

  pub start_all_tasks-Knows :
      (leader' : Leader)
      → start_all_tasks launch args plan leader ≡ some (true, leader')
      → Knows args (addr ∷ addrs) leader'
  start_all_tasks-Knows leader' h =
      let (rs, e, placed, list, len) =
        requests_lem launch args plan addr addrs operators planned 1 args.num_stages (omega arith)
          (omega arith) in
      let arrived = launch.arrivals rs in
      let same = some-injective _ _ (sym (start_all_tasks_lem rs e) ∙ h) in
      let enough : args.num_stages * args.num_tasks ≤ (entered rs).0 =
        ground (arith, ap (λ (o : Bool × Leader). o.0) same) in
      let good =
        AreGood-of_count launch.start_task arrived leader (omega (arith, length-perm (order rs))) in
      subst (Knows args (addr ∷ addrs)) (ap (λ (o : Bool × Leader). o.1) same) (
        knows args (addr ∷ addrs) (entered rs).1
          (enter_all-AreStages args (addr ∷ addrs) launch.start_task arrived leader
            (blank-AreStages args (addr ∷ addrs) leader blank)
            (All-perm (IsPlaced args (addr ∷ addrs)) (λ r. hlevel) (order rs) placed))
          (λ s t.
            has-enter_all launch.start_task s t arrived leader good
            ∙ ap (λ b. b || listed s t arrived) (blank-has s t leader blank)
            ∙ sym (∥∥₁_elim (order rs) (hlevel) (listed-permᴰ s t))
            ∙ list s t)
          (total-enter_all launch.start_task arrived leader ∙ counted))

  -- When every worker starts its tasks, so does the call.
  pub start_all_tasks-good :
      ((to : Text) (a : StartTaskArgs) → is_some (launch.start_task to a) ≡ true)
      → (leader' : Leader) × (start_all_tasks launch args plan leader ≡ some (true, leader'))
  start_all_tasks-good good =
      let (rs, e, placed, list, len) =
        requests_lem launch args plan addr addrs operators planned 1 args.num_stages (omega arith)
          (omega arith) in
      let arrived = launch.arrivals rs in
      let all_good : AreGood launch.start_task arrived =
        everyone (λ (r : Request). is_some (launch.start_task r.addr r.args) ≡ true)
          (λ r. good r.addr r.args) arrived in
      let n = count_of-AreGood launch.start_task arrived leader all_good in
      let enough : ltb (entered rs).0 (args.num_stages * args.num_tasks) ≡ false =
        ground (arith, n, length-perm (order rs), len) in
      ((entered rs).1, start_all_tasks_lem rs e ∙ ap (λ b. some (not b, (entered rs).1)) enough)
