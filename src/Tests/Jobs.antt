-- ===== src/Tests/Jobs.antt =====
-- The start of a job on a cluster of three machines, and the command that asks for it.
use mathlib.Core.List.{Perm}
use mathlib.Core.List.Perm
use event_stream_rainstorm.Prelude.{◌≡◌, refl, true, some, List, [], ◌∷◌, arith}
use event_stream_rainstorm.Prelude.Text.{Text, text, text_beq, cut, has_byte, le_text?}
use event_stream_rainstorm.Prelude.Sorting.{sort_by}
use event_stream_rainstorm.Member.{Member, State, alive, failed}
use event_stream_rainstorm.Ring.{gossip2_rpc_addr, vm_name_to_ip}
use event_stream_rainstorm.Leader.{LeaderStartArgs, Leader}
use event_stream_rainstorm.Client.{ok, panics, job_id, read_job}
use event_stream_rainstorm.Numbers.{atoi, unsigned, read_digits}
use event_stream_rainstorm.Client.Printing.{IsJob, job_args}
use event_stream_rainstorm.Client.RoundTrip.{read_job-job_args}
use event_stream_rainstorm.Client.Accepted.{read_job-start_rain_storm}
use event_stream_rainstorm.Client.Short.{read_job-panics}
use event_stream_rainstorm.Leader.Start.{
  StartReply, Request, Launch, get_alive_workers, start_rain_storm, started,
}
use event_stream_rainstorm.Leader.Start.Requests.{HasOperators}
use event_stream_rainstorm.Leader.Start.Started.{Knows}
use event_stream_rainstorm.Leader.Start.Job.{start_rain_storm-Knows, start_rain_storm-starts}

abbrev machine_at : Text → State → Member
machine_at address state = record {
  id = address;
  address = address;
  heart_beat_counter = 1;
  incarnation = 0;
  state = state;
  last_update_time = 0;
}

abbrev swap_first : List Request → List Request
swap_first [] = []
swap_first (a ∷ []) = a ∷ []
swap_first (a ∷ b ∷ rs) = b ∷ a ∷ rs

swap_first-perm : (rs : List Request) → Perm rs (swap_first rs)
swap_first-perm [] = Perm.refl []
swap_first-perm (a ∷ []) = Perm.refl (a ∷ [])
swap_first-perm (a ∷ b ∷ rs) = Perm.swap b a rs

-- VM1 is the leader, VM2 has failed.
abbrev launch : Launch
launch = record {
  members =
      machine_at (text "172.22.155.16:9000") alive
      ∷ machine_at (text "172.22.95.203:9000") alive
      ∷ machine_at (text "172.22.159.16:9000") failed
      ∷ machine_at (text "172.22.95.202:9000") alive
      ∷ [];
  open_log = true;
  now = λ s t. 7;
  start_task = λ addr args. some (args.task_id, text "log");
  arrivals = swap_first;
}

abbrev job : LeaderStartArgs
job = record {
  rs_id = text "job";
  num_stages = 2;
  num_tasks = 2;
  op_exes = text "filter" ∷ text "count" ∷ [];
  op_args = [] ∷ [] ∷ [];
  src_file = text "src";
  dest_file = text "out";
  exactly_once = true;
  autoscale = true;
  input_rate = 100;
  lw = 1;
  hw = 50;
}

abbrev old_leader : Leader
old_leader = record {
  global_task_map = (5, []) ∷ [];
  task_rates = [];
  auto_lw = 0;
  auto_hw = 0;
  total_tasks = 9;
  finished_tasks = 9;
  scale_cooldown = 0;
}

abbrev workers : List Text
workers = text "172.22.95.202:9082" ∷ text "172.22.95.203:9082" ∷ []

alive_workers : get_alive_workers launch.members ≡ some workers
unfolding get_alive_workers sort_by text_beq cut gossip2_rpc_addr has_byte vm_name_to_ip le_text?
alive_workers = refl

job-HasOperators : HasOperators job
job-HasOperators = record { exes = omega arith; op_args = omega arith }

start_rain_storm-starts_example :
    (leader' : Leader) × (start_rain_storm launch job old_leader ≡ some (started, leader'))
start_rain_storm-starts_example =
    start_rain_storm-starts launch job old_leader job-HasOperators swap_first-perm workers refl
      alive_workers (λ to a. refl)

abbrev running :
    (leader' : Leader) × (start_rain_storm launch job old_leader ≡ some (started, leader'))
running =
    start_rain_storm-starts launch job old_leader job-HasOperators swap_first-perm workers refl
      alive_workers (λ to a. refl)

start_rain_storm-Knows_example :
    (alive : List Text) × (get_alive_workers launch.members ≡ some alive)
    × Knows job alive running.0
start_rain_storm-Knows_example =
    start_rain_storm-Knows launch job old_leader job-HasOperators swap_first-perm running.0
      running.1

-- The same job as it is typed on a command line at the time 7.
abbrev typed : LeaderStartArgs
typed = record job { rs_id = job_id 7 }

typed-IsJob : IsJob 7 typed
typed-IsJob = record {
  id = refl;
  stages = (omega arith, omega arith);
  tasks = (omega arith, omega arith);
  exes = refl;
  op_args = refl;
  scales =
      λ e. ((omega arith, omega arith), (omega arith, omega arith), (omega arith, omega arith));
  fixed = λ e. absurd (ground arith);
}

read_job-job_args_example : read_job 7 (job_args typed) ≡ ok typed
read_job-job_args_example = read_job-job_args 7 typed typed-IsJob

read_job-start_rain_storm_example :
    (o : StartReply × Leader) × (start_rain_storm launch typed old_leader ≡ some o)
read_job-start_rain_storm_example =
    read_job-start_rain_storm 7 (job_args typed) typed launch old_leader
      (read_job-job_args 7 typed typed-IsJob) swap_first-perm

-- Ten arguments for three stages.
abbrev short_args : List Text
short_args =
    text "demo"
    ∷ text "RainStorm"
    ∷ text "3"
    ∷ text "2"
    ∷ text "filter"
    ∷ []
    ∷ text "src"
    ∷ text "out"
    ∷ text "true"
    ∷ text "false"
    ∷ []

read_job-panics_example : read_job 7 short_args ≡ panics
unfolding atoi unsigned read_digits
read_job-panics_example =
    read_job-panics 7 short_args (text "3") (text "2") 2 1 (omega arith) refl refl refl refl
      (omega arith)
