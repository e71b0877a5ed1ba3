-- ===== src/Client/Accepted.antt =====
-- The jobs that demo/demo.go sends: `StartRainStorm` (node/node_stream.go) can index them.
use mathlib.Core.List.{Perm}
use event_stream_rainstorm.Prelude.{
  ℕ, zero, suc, ◌+◌, ◌≡◌, refl, sym, ap, ◌∙◌, inl, inr, some, List, [], ◌∷◌, length, ltb,
  Bool-cases, arith,
}
use event_stream_rainstorm.Prelude.Text.{Text, text}
use event_stream_rainstorm.Leader.{LeaderStartArgs, Leader}
use event_stream_rainstorm.Leader.Start.{Request, Launch, StartReply, start_rain_storm}
use event_stream_rainstorm.Leader.Start.Requests.{HasOperators}
use event_stream_rainstorm.Leader.Start.Job.{start_rain_storm-returns}
use event_stream_rainstorm.Client.{
  Run, ok, exits, returns, panics, ◌>>=◌, arg_at, positive, boolean, read_operators, read_scaling,
  read_rest, job_id, read_job,
}

-- A part of `main` goes on only with a value.
pub bind-ok :
    {A B : Type 0} (r : Run A) (f : A → Run B) (b : B)
    → r >>= f ≡ ok b
    → (a : A) × (r ≡ ok a) × (f a ≡ ok b)
bind-ok (ok a) f b h = (a, refl, h)
bind-ok (exits message) f b h = absurd (ground arith)
bind-ok (returns message) f b h = absurd (ground arith)
bind-ok panics f b h = absurd (ground arith)

ok-injective : {A : Type 0} (a b : A) → Run.ok a ≡ ok b → a ≡ b
ok-injective a b h = cc

read_operators-length :
    (args : List Text) (k n : ℕ) (found : List Text × List Text)
    → read_operators args k n ≡ ok found
    → (length found.0 ≡ n) × (length found.1 ≡ n)
unfolding read_operators
read_operators-length args k zero found h =
    let e = ok-injective ([], []) found h in rw (← e) (refl, refl)
read_operators-length args k (suc n) found h =
    let (exe, a, h1) = bind-ok (arg_at args k) _ found h in
    let (op_arg, b, h2) = bind-ok (arg_at args (k + 1)) _ found h1 in
    let (rest, c, h3) = bind-ok (read_operators args (k + 2) n) _ found h2 in
    let e = ok-injective (exe ∷ rest.0, op_arg ∷ rest.1) found h3 in
    let (l, m) = read_operators-length args (k + 2) n rest c in rw (← e) (ap suc l, ap suc m)

-- What is read after the operators leaves the sizes and the operators as they were.
read_rest-sizes :
    (rs_id : Text) (args : List Text) (num_stages num_tasks : ℕ) (found : List Text × List Text)
    (job : LeaderStartArgs)
    → read_rest rs_id args num_stages num_tasks found ≡ ok job
    → (job.num_stages ≡ num_stages) × (job.op_exes ≡ found.0) × (job.op_args ≡ found.1)
unfolding read_rest
read_rest-sizes rs_id args num_stages num_tasks found job h =
    let (src, a, h1) = bind-ok (arg_at args (4 + (num_stages + num_stages))) _ job h in
    let (dest, b, h2) = bind-ok (arg_at args (5 + (num_stages + num_stages))) _ job h1 in
    let (eo, c, h3) = bind-ok (arg_at args (6 + (num_stages + num_stages))) _ job h2 in
    let (exactly_once, d, h4) =
      bind-ok (boolean (text "Error: exactly_once must be a boolean (true/false/1/0)") eo) _ job
        h3 in
    let (auto, e, h5) = bind-ok (arg_at args (7 + (num_stages + num_stages))) _ job h4 in
    let (autoscale, f, h6) =
      bind-ok (boolean (text "Error: autoscale_enabled must be a boolean (true/false/1/0)") auto) _
        job h5 in
    let (scaling, g, h7) =
      bind-ok (read_scaling args (8 + (num_stages + num_stages)) autoscale) _ job h6 in
    let e' = ok-injective _ job h7 in
    (
      ap (λ (j : LeaderStartArgs). j.num_stages) (sym e'),
      ap (λ (j : LeaderStartArgs). j.op_exes) (sym e'),
      ap (λ (j : LeaderStartArgs). j.op_args) (sym e'),
    )

read_job-HasOperators :
    (now : ℕ) (args : List Text) (job : LeaderStartArgs)
    → read_job now args ≡ ok job
    → HasOperators job
unfolding read_job
read_job-HasOperators now args job h = elim (Bool-cases (ltb (length args) 10)) [
  | inl e ↦ absurd (ground arith)
  | inr e ↦
      let (stages, a, h1) = bind-ok (arg_at args 2) _ job (rw e at h) in
      let (num_stages, b, h2) = bind-ok (positive (text "Invalid Nstages") stages) _ job h1 in
      let (tasks, c, h3) = bind-ok (arg_at args 3) _ job h2 in
      let (num_tasks, d, h4) = bind-ok (positive (text "Invalid Ntasks") tasks) _ job h3 in
      let (found, f, h5) = bind-ok (read_operators args 4 num_stages) _ job h4 in
      let (n, exes, op_args) =
        read_rest-sizes (job_id now) args num_stages num_tasks found job h5 in
      let (l, m) = read_operators-length args 4 num_stages found f in
      record {
        exes = omega (arith, n, ap length exes ∙ l);
        op_args = omega (arith, n, ap length op_args ∙ m);
      }
]

-- A job that the client takes from the command line has an operator for every stage: the leader that
-- is asked to start it answers, with no index out of range, whatever its members are and whichever
-- workers start their tasks, and in whatever order they answer.
pub read_job-start_rain_storm :
    (now : ℕ) (args : List Text) (job : LeaderStartArgs) (launch : Launch) (leader : Leader)
    → read_job now args ≡ ok job
    → ((rs : List Request) → Perm rs (launch.arrivals rs))
    → (o : StartReply × Leader) × (start_rain_storm launch job leader ≡ some o)
read_job-start_rain_storm now args job launch leader h order =
    start_rain_storm-returns launch job leader (read_job-HasOperators now args job h) order
