-- ===== src/Client.antt =====
-- demo/demo.go: the command line client. Its command "RainStorm", which reads a job from the
-- arguments and sends it to the leader.
pub mod Printing
pub mod RoundTrip
pub mod Accepted
pub mod Short
pub mod Files
pub mod Grep
pub mod Main
use event_stream_rainstorm.Prelude.{
  ℕ, zero, suc, ◌+◌, Bool, true, false, Option, none, some, List, [], ◌∷◌, ◌++◌, length, get_elem?,
  ltb, if◌then◌else◌,
}
use event_stream_rainstorm.Prelude.Text.{Text, text, decimal}
use event_stream_rainstorm.Leader.{LeaderStartArgs}
use event_stream_rainstorm.Numbers.{pos, negsuc, atoi, parse_bool}

-- How a part of `main` ends: with a value, by `os.Exit(1)` or by a return after a message, or by the
-- panic of an index out of range.
pub data Run (A : Type 0) : Type 0 where
  ok : A → Run A
  exits returns : Text → Run A
  panics : Run A

infixl 5 ◌>>=◌
abbrev pub ◌>>=◌ : {A B : Type 0} → Run A → (A → Run B) → Run B
◌>>=◌ (ok a) f = f a
◌>>=◌ (exits message) f = exits message
◌>>=◌ (returns message) f = returns message
◌>>=◌ panics f = panics

-- `os.Args[i]`
unfoldable pub arg_at : List Text → ℕ → Run Text
arg_at args i = elim (get_elem? args i) [ none ↦ panics | some arg ↦ ok arg ]

-- A number above 0.
unfoldable pub positive : Text → Text → Run ℕ
positive message arg = elim (atoi arg) [
  | none ↦ exits message
  | some (pos zero) ↦ exits message
  | some (pos (suc n)) ↦ ok (suc n)
  | some (negsuc n) ↦ exits message
]

unfoldable pub boolean : Text → Text → Run Bool
boolean message arg = elim (parse_bool arg) [ none ↦ exits message | some b ↦ ok b ]

-- The loop over the stages: the operators, and their arguments.
unfoldable pub read_operators : List Text → ℕ → ℕ → Run (List Text × List Text)
unfolding arg_at
read_operators args arg_index zero = ok ([], [])
read_operators args arg_index (suc n) = do
  exe ← arg_at args arg_index
  op_arg ← arg_at args (arg_index + 1)
  rest ← read_operators args (arg_index + 2) n
  ok (exe ∷ rest.0, op_arg ∷ rest.1)

pub record Scaling : Type 0 where
  pub input_rate : ℕ
  pub lw : ℕ
  pub hw : ℕ

-- The rate and the thresholds, where the job scales.
unfoldable pub read_scaling : List Text → ℕ → Bool → Run Scaling
unfolding arg_at positive
read_scaling args arg_index false = ok (record { input_rate = 100; lw = 0; hw = 0 })
read_scaling args arg_index true =
    if ltb (length args) (arg_index + 1)
    then exits (text "Error: input_rate must be provided when autoscale_enabled is true")
    else do
      rate ← arg_at args arg_index
      input_rate ← positive (text "Invalid input_rate") rate
      low ← arg_at args (arg_index + 1)
      lw ← positive (text "Invalid lw") low
      high ← arg_at args (arg_index + 2)
      hw ← positive (text "Invalid hw") high
      ok (record { input_rate = input_rate; lw = lw; hw = hw })

-- What stands after the operators.
unfoldable pub read_rest : Text → List Text → ℕ → ℕ → List Text × List Text → Run LeaderStartArgs
unfolding arg_at boolean read_scaling
read_rest rs_id args num_stages num_tasks operators = do
  src_file ← arg_at args (4 + (num_stages + num_stages))
  dest_file ← arg_at args (5 + (num_stages + num_stages))
  eo ← arg_at args (6 + (num_stages + num_stages))
  exactly_once ← boolean (text "Error: exactly_once must be a boolean (true/false/1/0)") eo
  auto ← arg_at args (7 + (num_stages + num_stages))
  autoscale ← boolean (text "Error: autoscale_enabled must be a boolean (true/false/1/0)") auto
  scaling ← read_scaling args (8 + (num_stages + num_stages)) autoscale
  ok (record {
    rs_id = rs_id;
    num_stages = num_stages;
    num_tasks = num_tasks;
    op_exes = operators.0;
    op_args = operators.1;
    src_file = src_file;
    dest_file = dest_file;
    exactly_once = exactly_once;
    autoscale = autoscale;
    input_rate = scaling.input_rate;
    lw = scaling.lw;
    hw = scaling.hw;
  })

-- `fmt.Sprintf("rs-%d", time.Now().Unix())`
abbrev pub job_id : ℕ → Text
job_id now = text "rs-" ++ decimal now

-- The command "RainStorm" up to the call of `StartRainStorm`, at the time `now`.
unfoldable pub read_job : ℕ → List Text → Run LeaderStartArgs
unfolding read_operators read_rest
read_job now args =
    if ltb (length args) 10
    then exits (text "RainStorm <Nstages> <Ntasks> <op1> <args1> ... <src> <dest> <eo> <auto>...")
    else do
      stages ← arg_at args 2
      num_stages ← positive (text "Invalid Nstages") stages
      tasks ← arg_at args 3
      num_tasks ← positive (text "Invalid Ntasks") tasks
      operators ← read_operators args 4 num_stages
      read_rest (job_id now) args num_stages num_tasks operators
