-- ===== src/Leader/Start/Job.antt =====
-- `StartRainStorm` as a whole.
use mathlib.Core.List.{Perm}
use event_stream_rainstorm.Prelude.{
  ◌*◌, ◌≡◌, refl, sym, subst, inl, inr, Bool, true, false, some, List, [], ◌∷◌, nat_eq,
  if◌then◌else◌, is_some, Option-cases, Bool-cases, arith,
}
use event_stream_rainstorm.Prelude.Text.{Text}
use event_stream_rainstorm.Member.{Member}
use event_stream_rainstorm.Task.{StartTaskArgs}
use event_stream_rainstorm.Leader.{LeaderStartArgs, Leader, stage_tasks, calculate_deployment_plan}
use event_stream_rainstorm.Leader.Start.{
  Request, Launch, start_all_tasks, get_alive_workers, reset_leader_state, started, tasks_failed,
  with_thresholds, start_rain_storm, StartReply, no_log, no_workers,
}
use event_stream_rainstorm.Leader.Start.Requests.{HasOperators}
use event_stream_rainstorm.Leader.Plan.{plan_exists}
use event_stream_rainstorm.Leader.Start.Started.{
  Knows, start_all_tasks-Knows, start_all_tasks-returns, start_all_tasks-good,
}

thresholds-Knows :
    (args : LeaderStartArgs) (alive : List Text) (leader : Leader) (scales : Bool)
    → Knows args alive leader
    → Knows args alive
        (if scales then record leader { auto_lw = args.lw; auto_hw = args.hw } else leader)
unfolding stage_tasks
thresholds-Knows args alive leader true k = record {
  sound = record {
    is_map = k.sound.is_map;
    contiguous = k.sound.contiguous;
    total = k.sound.total;
  };
  sizes = k.sizes;
  places = k.places;
}
thresholds-Knows args alive leader false k = k

abbrev counted_leader : LeaderStartArgs → Leader → Leader
counted_leader args leader = record leader {
  global_task_map = [];
  task_rates = [];
  total_tasks = args.num_stages * args.num_tasks;
  finished_tasks = 0;
}

get_alive_workers-ne_nil : (ms : List Member) → get_alive_workers ms ≡ some [] → ⊥
unfolding get_alive_workers
get_alive_workers-ne_nil ms h = ground arith

-- A start runs the tasks of a plan over the live workers.
start_rain_storm_step :
    (launch : Launch) (args : LeaderStartArgs) (leader leader' : Leader) (all_started : Bool)
    (alive : List Text) (plan : List (List Text))
    → launch.open_log ≡ true
    → get_alive_workers launch.members ≡ some alive
    → calculate_deployment_plan args.num_stages args.num_tasks alive ≡ some plan
    → start_all_tasks launch args plan (counted_leader args leader) ≡ some (all_started, leader')
    → start_rain_storm launch args leader
      ≡ some (
        if all_started then started else tasks_failed,
        if all_started then with_thresholds args leader' else leader',
      )
unfolding start_rain_storm reset_leader_state
start_rain_storm_step launch args leader leader' all_started alive plan o f p s = ground arith

module _ (launch : Launch) (args : LeaderStartArgs) (leader : Leader)
    (operators : HasOperators args)
    (order : (rs : List Request) → Perm rs (launch.arrivals rs)) where
  started_cases :
      (leader' : Leader)
      → start_rain_storm launch args leader ≡ some (started, leader')
      → (alive : List Text) × (plan : List (List Text)) × (last : Leader) × (get_alive_workers
            launch.members
          ≡ some alive)
        × (calculate_deployment_plan args.num_stages args.num_tasks alive ≡ some plan)
        × (start_all_tasks launch args plan (counted_leader args leader) ≡ some (true, last))
        × (leader' ≡ with_thresholds args last)
  unfolding start_rain_storm reset_leader_state
  started_cases leader' h = elim (Option-cases (get_alive_workers launch.members)) [
    | inl e ↦ absurd (ground arith)
    | inr (alive, e) ↦
        elim (Option-cases (calculate_deployment_plan args.num_stages args.num_tasks alive)) [
          | inl f ↦ absurd (ground arith)
          | inr (plan, f) ↦
              elim (Option-cases (start_all_tasks launch args plan (counted_leader args leader))) [
                | inl g ↦ absurd (ground arith)
                | inr ((all, last), g) ↦ (alive, plan, last, e, f, ground arith, ground arith)
              ]
        ]
  ]

  planned-Knows :
      (alive : List Text) (plan : List (List Text)) (last : Leader)
      → get_alive_workers launch.members ≡ some alive
      → calculate_deployment_plan args.num_stages args.num_tasks alive ≡ some plan
      → start_all_tasks launch args plan (counted_leader args leader) ≡ some (true, last)
      → Knows args alive last
  planned-Knows [] plan last e f g = absurd (get_alive_workers-ne_nil launch.members e)
  planned-Knows (addr ∷ addrs) plan last e f g =
      start_all_tasks-Knows launch args addr addrs plan (counted_leader args leader) operators order
        f refl refl last g

  -- A job that starts leaves the leader's maps in order, with the tasks of the job and no others, in
  -- whatever order the workers answer: `NumTasks` tasks in each stage from 1 to `NumStages`, and
  -- task `t` of stage `s` on the live worker of index `(s - 1) * NumTasks + t`, modulo their number.
  pub start_rain_storm-Knows :
      (leader' : Leader)
      → start_rain_storm launch args leader ≡ some (started, leader')
      → (alive : List Text) × (get_alive_workers launch.members ≡ some alive)
        × Knows args alive leader'
  start_rain_storm-Knows leader' h =
      let (alive, plan, last, e, f, g, d) = started_cases leader' h in
      (
        alive,
        e,
        subst (Knows args alive) (sym d)
            (thresholds-Knows args alive last args.autoscale (planned-Knows alive plan last e f g)),
      )

  -- With a log, a live worker besides the leader and workers that start their tasks, a job with an
  -- operator for each stage starts.
  pub start_rain_storm-starts :
      (alive : List Text)
      → launch.open_log ≡ true
      → get_alive_workers launch.members ≡ some alive
      → ((to : Text) (a : StartTaskArgs) → is_some (launch.start_task to a) ≡ true)
      → (leader' : Leader) × (start_rain_storm launch args leader ≡ some (started, leader'))
  start_rain_storm-starts [] o e good = absurd (get_alive_workers-ne_nil launch.members e)
  start_rain_storm-starts (addr ∷ addrs) o e good =
      let (plan, f) = plan_exists args.num_stages args.num_tasks addr addrs in
      let (last, g) =
        start_all_tasks-good launch args addr addrs plan (counted_leader args leader) operators
          order f refl refl good in
      (
        with_thresholds args last,
        start_rain_storm_step launch args leader last true (addr ∷ addrs) plan o e f g,
      )

  started_all :
      (alive : List Text)
      → get_alive_workers launch.members ≡ some alive
      → (o : StartReply × Leader) × (start_rain_storm launch args leader ≡ some o)
  unfolding start_rain_storm reset_leader_state
  started_all [] e = absurd (get_alive_workers-ne_nil launch.members e)
  started_all (addr ∷ addrs) e = elim (Bool-cases launch.open_log) [
    | inl o ↦
        let (plan, f) = plan_exists args.num_stages args.num_tasks addr addrs in
        let ((all_started, last), g) =
          start_all_tasks-returns launch args addr addrs plan (counted_leader args leader) operators
            order f refl refl in
        (
          (
            if all_started then started else tasks_failed,
            if all_started then with_thresholds args last else last,
          ),
          start_rain_storm_step launch args leader last all_started (addr ∷ addrs) plan o e f g,
        )
    | inr o ↦ ((no_log, leader), ground arith)
  ]

  -- The call returns, whatever the members and the workers do.
  pub start_rain_storm-returns :
      (o : StartReply × Leader) × (start_rain_storm launch args leader ≡ some o)
  unfolding start_rain_storm reset_leader_state
  start_rain_storm-returns = elim (Option-cases (get_alive_workers launch.members)) [
    | inr (alive, e) ↦ started_all alive e
    | inl e ↦ elim (Bool-cases launch.open_log) [
      | inl o ↦ ((no_workers, reset_leader_state leader), ground arith)
      | inr o ↦ ((no_log, leader), ground arith)
    ]
  ]
