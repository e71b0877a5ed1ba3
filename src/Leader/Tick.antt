-- ===== src/Leader/Tick.antt =====
-- `scaleUp`, `scaleDown` and a tick of `monitorAutoscale` keep the leader's maps in order.
use event_stream_rainstorm.Prelude.{
  ℕ, zero, suc, ◌+◌, ◌≡◌, refl, sym, ap, subst, ◌∙◌, ◌⊎◌, inl, inr, Option, none, some,
  some-injective, List, [], ◌∷◌, length, ltb, leb, nat_eq, ◌==◌, if◌then◌else◌, Bool-cases,
  Option-cases, arith,
}
use event_stream_rainstorm.Prelude.Dict.{get, remove, get-adjust, get-remove}
use event_stream_rainstorm.Prelude.Text.{Text, text_eq}
use event_stream_rainstorm.Task.{StartTaskArgs}
use event_stream_rainstorm.Leader.{
  TaskInfo, StageInfo, LeaderStartArgs, Leader, Call, stage_tasks, max_id, get_least_loaded_worker,
}
use event_stream_rainstorm.Leader.Contiguous.{IsContiguous, max_id_lem}
use event_stream_rainstorm.Leader.Autoscale.{
  Cluster, new_task_id, dedup_file_name, scale_up_args, add_task, scale_up, drop_task, scale_down,
  decide, scan_stages, monitor_tick, up, down, stay, Decision,
}
use event_stream_rainstorm.Leader.Scaling.{
  IsSound, new_task_id_lem, add_task-IsSound, drop_task-IsSound,
}

scale_up_args-ids :
    (args : LeaderStartArgs) (stage_id task_id : ℕ) (file : Text) (leader : Leader)
    (task_args : StartTaskArgs)
    → scale_up_args args stage_id task_id file leader ≡ some task_args
    → (task_args.stage_id ≡ stage_id) × (task_args.task_id ≡ task_id)
unfolding scale_up_args
scale_up_args-ids args stage_id task_id file leader task_args e = ground arith

-- The time is no part of the maps.
abbrev cooled : ℕ → Leader → Leader
cooled t leader = record leader { scale_cooldown = t }

cooled-IsSound : (t : ℕ) (leader : Leader) → IsSound leader → IsSound (cooled t leader)
unfolding stage_tasks
cooled-IsSound t leader s = record { is_map = s.is_map; contiguous = s.contiguous; total = s.total }

scale_up_cases :
    (cluster : Cluster) (args : LeaderStartArgs) (stage_id : ℕ) (leader : Leader)
    (calls : List Call) (leader' : Leader)
    → scale_up cluster args stage_id leader ≡ some (calls, leader')
    → (leader' ≡ cooled (cluster.now + 1000000000) leader)
      ⊎ ((task_args : StartTaskArgs) × (reply : ℕ × Text) × (file addr : Text) × (scale_up_args args
              stage_id
              (new_task_id (stage_tasks stage_id leader))
              file
              (cooled (cluster.now + 1000000000) leader)
            ≡ some task_args)
          × (leader' ≡ add_task task_args addr reply (cooled (cluster.now + 1000000000) leader)))
unfolding scale_up
scale_up_cases cluster args stage_id leader calls leader' e =
    let task_id = new_task_id (stage_tasks stage_id leader) in
    let file = dedup_file_name args.rs_id stage_id task_id cluster.now in
    let addr = get_least_loaded_worker cluster.alive_workers leader in
    let c = cooled (cluster.now + 1000000000) leader in
    elim (Bool-cases (leb (length cluster.alive_workers) 0)) [
      | inl f ↦ inl (ground arith)
      | inr f ↦ elim (Option-cases (scale_up_args args stage_id task_id file c)) [
        | inl g ↦ ground arith
        | inr (task_args, g) ↦ elim (Option-cases (cluster.launch addr task_args)) [
          | inl h ↦ inl (ground arith)
          | inr (reply, h) ↦ inr (task_args, reply, file, addr, g, ground arith)
        ]
      ]
    ]

scale_down_cases :
    (cluster : Cluster) (stage_id : ℕ) (leader : Leader)
    → ((scale_down cluster stage_id leader).1 ≡ cooled (cluster.now + 3000000000) leader)
      ⊎ ((m : ℕ) × (max_id (stage_tasks stage_id leader) ≡ some m)
          × ((scale_down cluster stage_id leader).1
              ≡ drop_task stage_id m (cooled (cluster.now + 3000000000) leader)))
unfolding scale_down
scale_down_cases cluster stage_id leader =
    elim (Option-cases (max_id (stage_tasks stage_id leader))) [
      | inl e ↦ ground arith
      | inr (m, e) ↦ elim (Option-cases (get m (stage_tasks stage_id leader))) [
        | inl f ↦ ground arith
        | inr (t, f) ↦ elim (Bool-cases (m == 0)) [
          | inl g ↦ ground arith
          | inr g ↦ inr (m, e, ground arith)
        ]
      ]
    ]

max_id-last : (d : StageInfo) (m : ℕ) → IsContiguous d → max_id d ≡ some m → length d ≡ suc m
unfolding max_id
max_id-last [] m c e = ground arith
max_id-last ((k, t) ∷ d) m c e =
    ap suc (some-injective _ _ (sym (max_id_lem ((k, t) ∷ d) (length d) c refl) ∙ e))

-- `scaleUp` keeps the maps in order, whatever fails.
pub scale_up-IsSound :
    (cluster : Cluster) (args : LeaderStartArgs) (stage_id : ℕ) (leader : Leader)
    (calls : List Call) (leader' : Leader)
    → IsSound leader
    → scale_up cluster args stage_id leader ≡ some (calls, leader')
    → IsSound leader'
unfolding stage_tasks
scale_up-IsSound cluster args stage_id leader calls leader' s e =
    elim (scale_up_cases cluster args stage_id leader calls leader' e) [
      | inl f ↦ subst IsSound (sym f) (cooled-IsSound _ leader s)
      | inr (task_args, reply, file, addr, f, g) ↦
          let (k, l) = scale_up_args-ids args stage_id _ file _ task_args f in
          subst IsSound (sym g) (
            add_task-IsSound task_args addr reply _
              (cooled-IsSound (cluster.now + 1000000000) leader s)
              (l
                ∙ new_task_id_lem _ (s.contiguous stage_id)
                ∙ ap (λ i. length (stage_tasks i leader)) (sym k)))
    ]

-- `scaleDown` keeps the maps in order.
pub scale_down-IsSound :
    (cluster : Cluster) (stage_id : ℕ) (leader : Leader)
    → IsSound leader
    → IsSound (scale_down cluster stage_id leader).1
unfolding stage_tasks
scale_down-IsSound cluster stage_id leader s = elim (scale_down_cases cluster stage_id leader) [
  | inl e ↦ subst IsSound (sym e) (cooled-IsSound _ leader s)
  | inr (m, f, e) ↦ subst IsSound (sym e) (
      drop_task-IsSound stage_id m _ (cooled-IsSound (cluster.now + 3000000000) leader s)
        (max_id-last _ m (s.contiguous stage_id) f))
]

Decision-cases : (d : Decision) → (d ≡ up) ⊎ ((d ≡ down) ⊎ (d ≡ stay))
Decision-cases up = inl refl
Decision-cases down = inr (inl refl)
Decision-cases stay = inr (inr refl)

scan_stages-IsSound :
    (cluster : Cluster) (args : LeaderStartArgs) (stage_id n : ℕ) (leader : Leader)
    (calls : List Call) (leader' : Leader)
    → IsSound leader
    → scan_stages cluster args stage_id n leader ≡ some (calls, leader')
    → IsSound leader'
unfolding scan_stages
scan_stages-IsSound cluster args stage_id zero leader calls leader' s e =
    subst IsSound (ap (λ p. p.1) (some-injective _ _ e)) s
scan_stages-IsSound cluster args stage_id (suc n) leader calls leader' s e =
    elim (Decision-cases (decide stage_id leader)) [
      | inl d ↦ scale_up-IsSound cluster args stage_id leader calls leader' s (ground arith)
      | inr (inl d) ↦
          let f : some (scale_down cluster stage_id leader) ≡ some (calls, leader') =
            ground arith in
          subst IsSound (ap (λ p. p.1) (some-injective _ _ f))
            (scale_down-IsSound cluster stage_id leader s)
      | inr (inr d) ↦
          scan_stages-IsSound cluster args (stage_id + 1) n leader calls leader' s (ground arith)
    ]

tick_waits :
    (leader : Leader) (calls : List Call) (leader' : Leader)
    → ◌≡◌ {A = Option (List Call × Leader)} (some ([], leader)) (some (calls, leader'))
    → leader ≡ leader'
tick_waits leader calls leader' e = ap (λ p. p.1) (some-injective _ _ e)

-- A tick of the autoscaler keeps the maps in order: every stage numbers its tasks 0, 1, … without a
-- gap, each under its own id, and the total is the number of tasks.
pub monitor_tick-IsSound :
    (cluster : Cluster) (args : LeaderStartArgs) (leader : Leader) (calls : List Call)
    (leader' : Leader)
    → IsSound leader
    → monitor_tick cluster args leader ≡ some (calls, leader')
    → IsSound leader'
unfolding monitor_tick
monitor_tick-IsSound cluster args leader calls leader' s e =
    elim (Bool-cases (ltb cluster.now leader.scale_cooldown)) [
      | inl h ↦ subst IsSound (tick_waits leader calls leader' (ground arith)) s
      | inr h ↦
          scan_stages-IsSound cluster args 1 args.num_stages leader calls leader' s (ground arith)
    ]

remove_nil : (m : ℕ) → remove {V = TaskInfo} m [] ≡ []
unfolding remove
remove_nil m = refl

dropped_stage :
    (stage_id m : ℕ) (leader : Leader)
    → stage_tasks stage_id (drop_task stage_id m leader) ≡ remove m (stage_tasks stage_id leader)
unfolding drop_task stage_tasks
dropped_stage stage_id m leader = elim (Option-cases (get stage_id leader.global_task_map)) [
  | inl e ↦
      ground (arith, get-adjust stage_id stage_id (remove m) leader.global_task_map, remove_nil m)
  | inr (d, e) ↦ ground (arith, get-adjust stage_id stage_id (remove m) leader.global_task_map)
]

scale_down_lem :
    (cluster : Cluster) (stage_id n : ℕ) (leader : Leader) (victim : TaskInfo)
    → max_id (stage_tasks stage_id leader) ≡ some (suc n)
    → get (suc n) (stage_tasks stage_id leader) ≡ some victim
    → (scale_down cluster stage_id leader).1
      ≡ drop_task stage_id (suc n) (cooled (cluster.now + 3000000000) leader)
unfolding scale_down
scale_down_lem cluster stage_id n leader victim m f = ground arith

last_task :
    (d : StageInfo) (m : ℕ)
    → IsContiguous d
    → length d ≡ suc m
    → (t : TaskInfo) × (get m d ≡ some t)
last_task d m c e = elim (Option-cases (get m d)) [
  | inl f ↦ ground (arith, c.ids m)
  | inr (t, f) ↦ (t, f)
]

-- Scaling down a stage of two tasks or more takes away its last task and no other.
pub scale_down-tasks :
    (cluster : Cluster) (stage_id n i : ℕ) (leader : Leader)
    → IsContiguous (stage_tasks stage_id leader)
    → length (stage_tasks stage_id leader) ≡ suc (suc n)
    → get i (stage_tasks stage_id (scale_down cluster stage_id leader).1)
      ≡ (if suc n == i then none else get i (stage_tasks stage_id leader))
unfolding stage_tasks
scale_down-tasks cluster stage_id n i leader c e =
    let tasks = stage_tasks stage_id leader in
    let m = max_id_lem tasks (suc n) c e in
    let (victim, f) = last_task tasks (suc n) c e in
    ap (λ d. get i d)
      (ap (stage_tasks stage_id) (scale_down_lem cluster stage_id n leader victim m f)
        ∙ dropped_stage stage_id (suc n) (cooled (cluster.now + 3000000000) leader))
    ∙ get-remove (suc n) i tasks
